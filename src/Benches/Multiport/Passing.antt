-- ===== src/Benches/Multiport/Passing.antt =====
-- The program of tlms/tlm_router/tests/test_multiport.cpp returns without a report.
use mathlib.Core.Path.{subst}
use deltamodels.Base.{
  ℕ, zero, suc, ◌+◌, ◌*◌, ◌<◌, ◌≤◌, ◌≡◌, inr, inl, refl, ap, ◌∙◌, sym, [], arith, u32, done,
  Handler, Returns, returns, Returns-bind, Returns-inv,
}
use deltamodels.Or1k.Text.{codes}
use deltamodels.Checks.{Reports}
use deltamodels.Tlm.{Bytes}
use deltamodels.Router.{init, set_initiator_properties}
use deltamodels.Initiator.{Initiator}
use deltamodels.Initiator.Banks.{Banks, count, sizes}
use deltamodels.Benches.Routing.{Ports, assign, value_of}
use deltamodels.Benches.Routing.Words.{Apart, value_of-assign, value_of-assign-Apart}
use deltamodels.Benches.Routing.Steps.{word, check-Returns}
use deltamodels.Benches.Multiport.Stored.{Stored, Stored-ext, base, dowrite-Stored, doread-Stored}
use deltamodels.Benches.Multiport.{
  mem1_config, mem2_config, mem3_config, write_loop, read_loop, verify, multiport,
}

Apart-sym : (p q : ℕ) → Apart p q → Apart q p
Apart-sym p q (inl h) = inr h
Apart-sym p q (inr h) = inl h

-- One more at each of the three sockets.
upwards : (i k : ℕ) → k < 3 → count 2 (count 1 (count 0 (λ j. i))) k ≡ suc i
upwards i zero below = omega arith
upwards i (suc zero) below = omega arith
upwards i (suc (suc zero)) below = omega arith
upwards i (suc (suc (suc k))) below = absurd (omega arith)

downwards : (i k : ℕ) → k < 3 → count 0 (count 1 (count 2 (λ j. i))) k ≡ suc i
downwards i zero below = omega arith
downwards i (suc zero) below = omega arith
downwards i (suc (suc zero)) below = omega arith
downwards i (suc (suc (suc k))) below = absurd (omega arith)

module _ (throws : Handler) (d1 d2 d3 : ℕ) (one_two : Apart d1 d2) (one_three : Apart d1 d3)
    (two_three : Apart d2 d3) (sz : ℕ → ℕ) (r : Reports) (bound : ℕ) (few : bound ≤ 64)
    (room : (k : ℕ) → k < 3 → bound ≤ sz k) where
  -- The same number of words, writes and reads behind each socket.
  abbrev Even : ℕ → ℕ → Ports → Type 0
  Even m n s = Stored sz r (λ k. m) (λ k. m) (λ k. n) s

  assigned : ℕ → Bytes → Bytes
  assigned i host =
      assign d3 (u32 (i + 0x10000)) (assign d2 (u32 (i + 0x1000)) (assign d1 (u32 i) host))

  assigned_lem :
      (i : ℕ) (host : Bytes)
      → i < 64
      → (value_of d1 (assigned i host) ≡ i)
        × (value_of d2 (assigned i host) ≡ i + 0x1000)
        × (value_of d3 (assigned i host) ≡ i + 0x10000)
  unfolding assigned
  assigned_lem i host small =
      let h1 = assign d1 (u32 i) host in
      let h2 = assign d2 (u32 (i + 0x1000)) h1 in
      (
        value_of-assign-Apart d3 d1 (u32 (i + 0x10000)) h2 (Apart-sym d1 d3 one_three)
            ∙ value_of-assign-Apart d2 d1 (u32 (i + 0x1000)) h1 (Apart-sym d1 d2 one_two)
            ∙ value_of-assign d1 (u32 i) host (omega arith)
            ∙ omega arith,
        value_of-assign-Apart d3 d2 (u32 (i + 0x10000)) h2 (Apart-sym d2 d3 two_three)
            ∙ value_of-assign d2 (u32 (i + 0x1000)) h1 (omega arith)
            ∙ omega arith,
        value_of-assign d3 (u32 (i + 0x10000)) h2 (omega arith) ∙ omega arith,
      )

  write_loop-Even :
      (n i m : ℕ) (s : Ports)
      → n + i ≡ m
      → m ≤ bound
      → Even i 0 s
      → Returns (Even m 0) (write_loop throws d1 d2 d3 n i s)
  unfolding write_loop assigned
  write_loop-Even zero i m s sum fits h =
      let same : i ≡ m = omega arith in returns (subst (λ (x : ℕ). Even x 0 s) same h)
  write_loop-Even (suc n) i m s sum fits h =
      let s0 : Ports = record s { host = assigned i s.host } in
      let (v1, v2, v3) = assigned_lem i s.host (omega arith) in
      Returns-bind
        (dowrite-Stored throws sz r _ _ _ 0 d1 (i * 4) 0 i (omega arith) (omega arith)
          (omega (arith, room 0 (omega arith))) (omega arith) s0
          (record {
            at = record { config = h.at.config; size = h.at.size; same = h.at.same };
            words = h.words;
            writes = h.writes;
            reads = h.reads;
          })
          refl (v1 ∙ omega arith))
        λ s1 (h1, host1).
          Returns-bind
            (dowrite-Stored throws sz r _ _ _ 1 d2 (i * 4 + 0x1000) 1 i (omega arith) (omega arith)
              (omega (arith, room 1 (omega arith))) refl s1 h1 refl (ap (value_of d2) host1 ∙ v2))
            λ s2 (h2, host2).
              Returns-bind
                (dowrite-Stored throws sz r _ _ _ 1 d3 (i * 4 + 0x10000) 2 i (omega arith)
                  (omega arith) (omega (arith, room 2 (omega arith))) refl s2 h2 refl
                  (ap (value_of d3) (host2 ∙ host1) ∙ v3))
                λ s3 (h3, host3).
                  write_loop-Even n (suc i) m s3 (omega arith) fits
                    (Stored-ext (λ k below. (upwards i k below, upwards i k below, refl)) h3)

  read_loop-Even :
      (n i m : ℕ) (s : Ports)
      → n + i ≡ m
      → m ≤ bound
      → Even m i s
      → Returns (Even m m) (read_loop throws d1 d2 d3 n i s)
  unfolding read_loop
  read_loop-Even zero i m s sum fits h =
      let same : i ≡ m = omega arith in returns (subst (λ (x : ℕ). Even m x s) same h)
  read_loop-Even (suc n) i m s sum fits h =
      Returns-bind
        (doread-Stored throws sz r _ _ _ 0 d1 (i * 4 + 0x10000) 2 i (omega arith) (omega arith)
          (omega (arith, room 2 (omega arith))) refl s h (omega arith))
        λ s1 (h1, v1, kept1).
          Returns-bind
            (doread-Stored throws sz r _ _ _ 1 d2 (i * 4 + 0x1000) 1 i (omega arith) (omega arith)
              (omega (arith, room 1 (omega arith))) refl s1 h1 (omega arith))
            λ s2 (h2, v2, kept2).
              Returns-bind
                (doread-Stored throws sz r _ _ _ 0 d3 (i * 4) 0 i (omega arith) (omega arith)
                  (omega (arith, room 0 (omega arith))) (omega arith) s2 h2 (omega arith))
                λ s3 (h3, v3, kept3).
                  let h' : Even m (suc i) s3 =
                    Stored-ext (λ k below. (refl, refl, downwards i k below)) h3 in
                  let w1 : value_of d1 s3.host ≡ i + 0x10000 =
                    kept3 d1 (Apart-sym d1 d3 one_three)
                    ∙ kept2 d1 (Apart-sym d1 d2 one_two)
                    ∙ v1 in
                  let w2 : value_of d2 s3.host ≡ i + 0x1000 =
                    kept3 d2 (Apart-sym d2 d3 two_three) ∙ v2 in
                  let w3 : value_of d3 s3.host ≡ i = v3 ∙ omega arith in
                  let Kept : Ports → Type 0 = λ t. Even m (suc i) t × (t.host ≡ s3.host) in
                  Returns-bind
                    (check-Returns throws Kept _ _ (codes "readback1") s3 (sym w1) (h', refl))
                    λ s4 k4.
                      Returns-bind
                        (check-Returns throws Kept _ _ (codes "readback2") s4
                          (sym (ap (value_of d2) k4.1 ∙ w2)) k4)
                        λ s5 k5.
                          Returns-bind
                            (check-Returns throws Kept _ _ (codes "readback3") s5
                              (sym (ap (value_of d3) k5.1 ∙ w3)) k5)
                            λ s6 k6. read_loop-Even n (suc i) m s6 (omega arith) fits k6.0

  verify-Even : (m : ℕ) (s : Ports) → Even m m s → Returns (Even m m) (verify throws m s)
  unfolding verify
  verify-Even m s h =
      Returns-bind
        (check-Returns throws (Even m m) m _ (codes "mem1_wr") s (sym (h.writes 0 (omega arith))) h)
        λ s1 h1.
          Returns-bind
            (check-Returns throws (Even m m) m _ (codes "mem1_rd") s1
              (sym (h1.reads 0 (omega arith))) h1)
            λ s2 h2.
              Returns-bind
                (check-Returns throws (Even m m) m _ (codes "mem2_wr") s2
                  (sym (h2.writes 1 (omega arith))) h2)
                λ s3 h3.
                  Returns-bind
                    (check-Returns throws (Even m m) m _ (codes "mem2_rd") s3
                      (sym (h3.reads 1 (omega arith))) h3)
                    λ s4 h4.
                      Returns-bind
                        (check-Returns throws (Even m m) m _ (codes "mem3_wr") s4
                          (sym (h4.writes 2 (omega arith))) h4)
                        λ s5 h5.
                          check-Returns throws (Even m m) m _ (codes "mem3_rd") s5
                            (sym (h5.reads 2 (omega arith))) h5

-- The multiport test returns without a report for three memories of any content and of at least as
-- many words as accesses, whose counters are zero, up to 64 accesses, and variables that do not
-- overlap: each memory then holds in its first words the numbers from its region's start on, and
-- has counted as many writes and as many reads as accesses were asked for.
pub multiport_passes :
    (throws : Handler) (d1 d2 d3 n : ℕ) (inits : ℕ → Initiator) (banks : Banks) (host : Bytes)
    → Apart d1 d2
    → Apart d1 d3
    → Apart d2 d3
    → n ≤ 64
    → ((k : ℕ) → k < 3 → n ≤ sizes banks k)
    → ((k : ℕ) → k < 3 → (banks k).wr_ops ≡ 0)
    → ((k : ℕ) → k < 3 → (banks k).rd_ops ≡ 0)
    → (t : Ports) × (multiport throws d1 d2 d3 n inits banks host ≡ done t)
      × (t.reports ≡ [])
      × ((k j : ℕ) → k < 3 → j < n → word t k j ≡ j + base k)
      × ((k : ℕ) → k < 3 → ((t.banks k).wr_ops ≡ n) × ((t.banks k).rd_ops ≡ n))
unfolding multiport init set_initiator_properties
multiport_passes throws d1 d2 d3 n inits banks host one_two one_three two_three few room wr rd =
    let s : Ports = record {
      inits = inits;
      router = set_initiator_properties 2 mem3_config (
          set_initiator_properties 1 mem2_config (set_initiator_properties 0 mem1_config (init 3)));
      banks = banks;
      host = host;
      reports = [];
    } in
    let (t, run, h) = Returns-inv (
      Returns-bind
        (write_loop-Even throws d1 d2 d3 one_two one_three two_three (sizes banks) [] n few room n 0
          n s (omega arith) (omega arith)
          (record {
            at = record { config = refl; size = refl; same = refl };
            words = λ k j below lt. absurd (omega arith);
            writes = wr;
            reads = rd;
          }))
        λ t1 h1.
          Returns-bind
            (read_loop-Even throws d1 d2 d3 one_two one_three two_three (sizes banks) [] n few room
              n 0 n t1 (omega arith) (omega arith) h1)
            λ t2 h2.
              verify-Even throws d1 d2 d3 one_two one_three two_three (sizes banks) [] n few room n
                t2 h2) in
    (t, run, h.at.same, h.words, λ k below. (h.writes k below, h.reads k below))
