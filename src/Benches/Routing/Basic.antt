-- ===== src/Benches/Routing/Basic.antt =====
-- The program of tlms/tlm_router/tests/test_basic_routing.cpp returns without a report.
use deltamodels.Base.{
  length, ones, ◌%◌, ℕ, zero, suc, ◌+◌, ◌*◌, ◌^◌, ◌<◌, ◌≤◌, ◌≡◌, inr, refl, ap, ◌∙◌, sym, true,
  List, [], ◌∷◌, arith, bit_and, bit_and-ones, u32, done, Run, Handler, error, Returns, returns,
  done-Returns, Returns-bind, Returns-inv,
}
use deltamodels.Benches.{or_failure}
use deltamodels.Or1k.Text.{codes}
use deltamodels.Checks.{Reports}
use deltamodels.Tlm.{Bytes}
use deltamodels.Memory.{Memory}
use deltamodels.Router.{Router, Region, init, set_initiator_properties}
use deltamodels.Router.Decode.{Uncovered}
use deltamodels.Initiator.{Initiator}
use deltamodels.Initiator.Banks.{Banks, Access, System, sizes, access}
use deltamodels.Initiator.Stops.{access_unmapped}
use deltamodels.Benches.Routing.{
  Ports, back_from, assign, value_of, system, on_system, dowrite, write_rounds, read_rounds,
  test_simple_access, test_out_of_bound_error, detected, basic_routing,
}
use deltamodels.Benches.Routing.Words.{value_of-assign}
use deltamodels.Benches.Routing.Steps.{word, Leads, At, dowrite_lem, doread_lem}
use deltamodels.Benches.Routing.Steps.{check-Returns}
use native.Mathlib.Decide.{ℕ_discrete}

-- The first `i` words are their numbers, and the accesses have been counted.
pub record Holds (cs : List Region) (sz : ℕ → ℕ) (r : Reports) (i wr rd : ℕ) (s : Ports)
    : Type 0 where
  pub at : At cs sz r s
  pub words : (j : ℕ) → j < i → word s 0 j ≡ j
  pub writes : (s.banks 0).wr_ops ≡ wr
  pub reads : (s.banks 0).rd_ops ≡ rd

module _ (throws : Handler) (cs : List Region) (sz : ℕ → ℕ) (r : Reports) (ptr bound : ℕ)
    (small : bound ≤ 2 ^ 30) (leads : (i : ℕ) → i < bound → Leads cs sz (i * 4) 0 i) where
  write_rounds-Holds :
      (n i m : ℕ) (s : Ports)
      → n + i ≡ m
      → m ≤ bound
      → Holds cs sz r i i 0 s
      → Returns (Holds cs sz r m m 0) (write_rounds throws ptr n i s)
  unfolding write_rounds
  write_rounds-Holds zero i m s sum fits h = returns (record {
    at = h.at;
    words = λ j lt. h.words j (omega arith);
    writes = omega (arith, h.writes);
    reads = h.reads;
  })
  write_rounds-Holds (suc n) i m s sum fits h =
      let s' : Ports = record s { host = assign ptr (u32 i) s.host } in
      Returns-bind
        (dowrite_lem throws cs sz r (i * 4) 0 i (leads i (omega arith)) 0 ptr s'
          (record { config = h.at.config; size = h.at.size; same = h.at.same }))
        λ t (at, wrote).
          let here : word t 0 i ≡ i =
            wrote.there ∙ value_of-assign ptr (u32 i) s.host (omega arith) ∙ omega arith in
          write_rounds-Holds n (suc i) m t (omega arith) fits (record {
            at = at;
            words = λ j lt. elim (ℕ_discrete j i) [
              | yes same ↦ ap (word t 0) same ∙ here ∙ sym same
              | no apart ↦ wrote.others 0 j (inr apart) ∙ h.words j (omega arith)
            ];
            writes = wrote.counted 0 ∙ omega (arith, h.writes);
            reads = wrote.reads 0 ∙ h.reads;
          })

  read_rounds-Holds :
      (n i m : ℕ) (s : Ports)
      → n + i ≡ m
      → m ≤ bound
      → Holds cs sz r m m i s
      → Returns (Holds cs sz r m m m) (read_rounds throws ptr n i s)
  unfolding read_rounds
  read_rounds-Holds zero i m s sum fits h =
      returns
        (record { at = h.at; words = h.words; writes = h.writes; reads = omega (arith, h.reads) })
  read_rounds-Holds (suc n) i m s sum fits h =
      Returns-bind (doread_lem throws cs sz r (i * 4) 0 i (leads i (omega arith)) 0 ptr s h.at)
        λ t (at, got).
          Returns-bind
            (check-Returns throws (Holds cs sz r m m (suc i)) i (value_of ptr t.host)
              (codes "readback") t (sym (got.there ∙ h.words i (omega arith)))
              (record {
                at = at;
                words = λ j lt. got.words 0 j ∙ h.words j lt;
                writes = got.writes 0 ∙ h.writes;
                reads = got.counted 0 ∙ omega (arith, h.reads);
              }))
            λ u h'. read_rounds-Holds n (suc i) m u (omega arith) fits h'

  test_simple_access-Holds :
      (n : ℕ) (s : Ports)
      → n ≤ bound
      → Holds cs sz r 0 0 0 s
      → Returns (Holds cs sz r n n n) (test_simple_access throws ptr n s)
  unfolding test_simple_access
  test_simple_access-Holds n s fits h =
      Returns-bind (write_rounds-Holds n 0 n s (omega arith) fits h) λ t h1.
        Returns-bind (read_rounds-Holds n 0 n t (omega arith) fits h1) λ u h2.
          Returns-bind
            (check-Returns throws (Holds cs sz r n n n) n _ (codes "mem_wr") u (sym h2.writes) h2)
            λ v h3.
              check-Returns throws (Holds cs sz r n n n) n _ (codes "mem_rd") v (sym h3.reads) h3

  test_out_of_bound_error-Holds :
      (n : ℕ) (s : Ports)
      → throws error ≡ true
      → Uncovered cs (length cs) 0x10000
      → length cs < 2 ^ 32
      → Holds cs sz r n n n s
      → Returns (Holds cs sz r n n n) (test_out_of_bound_error throws ptr s)
  unfolding test_out_of_bound_error dowrite access
  test_out_of_bound_error-Holds n s halts free few h =
      let s' : Ports = record s { host = assign ptr 32 s.host } in
      let a : Access = record {
        is_write = true;
        ptr = ptr;
        addr = 0x10000;
        len = 4;
        socket = 0;
        region = record { base_address = 0; top_address = 0; mask = 0 };
      } in
      let (t, run, devices, host) =
        access_unmapped throws 0 a (system 0 s') halts (rw h.at.config free) (rw h.at.config few) in
      let after : Holds cs sz r n n n (back_from 0 s' t) = record {
        at = record {
          config = ap (λ (d : Router × Banks). d.0.initiators_config) devices ∙ h.at.config;
          size = ap (λ (d : Router × Banks). sizes d.1) devices ∙ h.at.size;
          same = h.at.same;
        };
        words = λ j lt.
            ap (λ (d : Router × Banks). value_of (4 * j) (d.1 0).mem) devices ∙ h.words j lt;
        writes = ap (λ (d : Router × Banks). (d.1 0).wr_ops) devices ∙ h.writes;
        reads = ap (λ (d : Router × Banks). (d.1 0).rd_ops) devices ∙ h.reads;
      } in
      Returns-bind {P = λ (b, u). (b ≡ true) × Holds cs sz r n n n u}
        (done-Returns {a = (true, back_from 0 s' t)}
          (ap (λ (m : Run System System). detected (on_system 0 s' m)) run) (refl, after))
        λ (b, u) (hit, h').
          check-Returns throws (Holds cs sz r n n n) _ 1 (codes "out-of-bound-detection") u
            (rw hit refl) h'

abbrev region : Region
region = record { base_address = 0; top_address = 0x1000; mask = 0xffffffff }

leads_lem :
    (sz : ℕ → ℕ) (bound i : ℕ)
    → bound ≤ sz 0
    → bound * 4 ≤ 0x1000
    → i < bound
    → Leads (region ∷ []) sz (i * 4) 0 i
leads_lem sz bound i room fits lt =
    let whole : bit_and (u32 (i * 4)) (ones 32) ≡ u32 (i * 4) % 2 ^ 32 =
      bit_and-ones 32 (u32 (i * 4)) in
    record {
      region = region;
      at = refl;
      covers = (omega arith, omega arith);
      free = λ j c none e covered. absurd (omega arith);
      place = omega (arith, whole);
      inside = omega arith;
    }

outside : Uncovered (region ∷ []) 1 0x10000
outside zero c lt e covered = ground arith
outside (suc j) c lt e covered = absurd (omega arith)

-- The basic routing test returns without a report, where an error report throws, for a memory of any
-- size and content whose counters are zero and any number of accesses that the memory and the region
-- have words for: the memory then holds in these words their numbers, and has counted as many writes
-- and as many reads as accesses were asked for.
pub basic_routing_passes :
    (throws : Handler) (ptr n : ℕ) (inits : ℕ → Initiator) (mem : Memory) (host : Bytes)
    → throws error ≡ true
    → n ≤ mem.size
    → n * 4 ≤ 0x1000
    → mem.wr_ops ≡ 0
    → mem.rd_ops ≡ 0
    → (t : Ports) × (basic_routing throws ptr n inits mem host ≡ done t)
      × (t.reports ≡ [])
      × ((j : ℕ) → j < n → word t 0 j ≡ j)
      × ((t.banks 0).wr_ops ≡ n)
      × ((t.banks 0).rd_ops ≡ n)
unfolding basic_routing init set_initiator_properties
basic_routing_passes throws ptr n inits mem host halts room fits wr rd =
    let cs : List Region = region ∷ [] in
    let sz : ℕ → ℕ = λ i. mem.size in
    let s : Ports = record {
      inits = inits;
      router = set_initiator_properties 0 region (init 1);
      banks = λ i. mem;
      host = host;
      reports = [];
    } in
    let leads = λ (i : ℕ) (lt : i < n). leads_lem sz n i room fits lt in
    let (t, run, h) = Returns-inv (
      Returns-bind
        (test_simple_access-Holds throws cs sz [] ptr n (omega arith) leads n s (omega arith)
          (record {
            at = record { config = refl; size = refl; same = refl };
            words = λ j lt. absurd (omega arith);
            writes = wr;
            reads = rd;
          }))
        λ t h.
          test_out_of_bound_error-Holds throws cs sz [] ptr n (omega arith) leads n t halts outside
            (omega arith) h) in
    (t, ap (or_failure throws) run, h.at.same, h.words, h.writes, h.reads)
