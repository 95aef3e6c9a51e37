-- ===== src/Benches/Routing/Steps.antt =====
-- The calls of the tests of tlms/tlm_router/tests/ as steps on the words of the memories behind the
-- router.
use deltamodels.Base.{
  Bool, ℕ, ◌*◌, ◌/◌, ◌<◌, ◌≡◌, ◌≢◌, ◌⊎◌, inl, inr, refl, ap, ◌∙◌, true, false, some, List, arith,
  bit_and, get_elem?, u32, done, Handler, ◌==◌, Bool-cases, ==_iff, Returns, done-Returns,
}
use deltamodels.Or1k.Text.{Text, hex}
use deltamodels.Checks.{Reports}
use deltamodels.Checks.Passing.{equal_match}
use deltamodels.Router.{Region}
use deltamodels.Router.Decode.{Covers, Uncovered}
use deltamodels.Initiator.Banks.{
  Access, IsRouted, Space, flat_access, count, view, sizes, access, offset,
}
use deltamodels.Initiator.Space.{access-Refines}
use deltamodels.Benches.Routing.{
  Ports, value_of, system, back_from, on_system, dowrite, doread, check,
}
use deltamodels.Benches.Routing.Words.{Apart, value_of-memcpy, value_of-memcpy-Apart}

-- The word of a memory.
abbrev pub word : Ports → ℕ → ℕ → ℕ
word s k w = value_of (4 * w) (s.banks k).mem

-- An address whose first region leads to word `w` of the memory behind socket `k`.
pub record Leads (cs : List Region) (sz : ℕ → ℕ) (addr k w : ℕ) : Type 0 where
  pub region : Region
  pub at : get_elem? cs k ≡ some region
  pub covers : Covers region (u32 addr)
  pub free : Uncovered cs k (u32 addr)
  pub place : bit_and (u32 addr) region.mask / 4 ≡ w
  pub inside : w < sz k

pub record At (cs : List Region) (sz : ℕ → ℕ) (r : Reports) (s : Ports) : Type 0 where
  pub config : s.router.initiators_config ≡ cs
  pub size : sizes s.banks ≡ sz
  pub same : s.reports ≡ r

pub record Wrote (k w ptr : ℕ) (s t : Ports) : Type 0 where
  pub there : word t k w ≡ value_of ptr s.host
  pub others : (j u : ℕ) → (j ≢ k) ⊎ (u ≢ w) → word t j u ≡ word s j u
  pub counted : (j : ℕ) → (t.banks j).wr_ops ≡ count k (λ i. (s.banks i).wr_ops) j
  pub reads : (j : ℕ) → (t.banks j).rd_ops ≡ (s.banks j).rd_ops
  pub host : t.host ≡ s.host

pub record Got (k w ptr : ℕ) (s t : Ports) : Type 0 where
  pub there : value_of ptr t.host ≡ word s k w
  pub others : (q : ℕ) → Apart ptr q → value_of q t.host ≡ value_of q s.host
  pub words : (j u : ℕ) → word t j u ≡ word s j u
  pub counted : (j : ℕ) → (t.banks j).rd_ops ≡ count k (λ i. (s.banks i).rd_ops) j
  pub writes : (j : ℕ) → (t.banks j).wr_ops ≡ (s.banks j).wr_ops

module _ (throws : Handler) (cs : List Region) (sz : ℕ → ℕ) (r : Reports) (addr k w : ℕ)
    (leads : Leads cs sz addr k w) (id ptr : ℕ) (s : Ports) (at : At cs sz r s) where
  abbrev call : Bool → Access
  call is_write = record {
    is_write = is_write;
    ptr = ptr;
    addr = u32 addr;
    len = 4;
    socket = k;
    region = leads.region;
  }

  routed :
      (b : Bool)
      → IsRouted (system id s).devices.0.initiators_config (sizes (system id s).devices.1) (call b)
  routed b =
      rw (at.config, at.size)
        (record {
          at = leads.at;
          covers = leads.covers;
          free = leads.free;
          inside = omega (arith, leads.place, leads.inside);
          wide = omega arith;
          small = omega arith;
        })

  place : (b : Bool) → offset (call b) ≡ 4 * w
  place b = omega (arith, leads.place)

  written_there :
      (f : Space) → value_of (4 * w) ((flat_access (call true) f).cells k) ≡ value_of ptr f.host
  written_there f =
      let self : (k == k) ≡ true = (==_iff k k).1 refl in
      rw (self, place true) (value_of-memcpy (4 * w) ptr (f.cells k) f.host)

  written_others :
      (f : Space) (j u : ℕ)
      → (j ≢ k) ⊎ (u ≢ w)
      → value_of (4 * u) ((flat_access (call true) f).cells j) ≡ value_of (4 * u) (f.cells j)
  written_others f j u other = elim (Bool-cases (j == k)) [
    | inr apart ↦ rw apart refl
    | inl same ↦
        let moved : Apart (4 * w) (4 * u) = ground (arith, (==_iff j k).0 same) in
        rw (same, place true) (value_of-memcpy-Apart (4 * w) ptr (4 * u) (f.cells j) f.host moved)
  ]

  pub dowrite_lem : Returns (λ t. At cs sz r t × Wrote k w ptr s t) (dowrite throws id ptr addr s)
  unfolding dowrite access
  dowrite_lem =
      let (t, run, config, size, rows, same) =
        access-Refines throws id (system id s) (call true) (routed true) in
      let cell = λ (j : ℕ). ap (λ (f : Space). f.cells j) same in
      done-Returns {a = back_from id s t} (ap (on_system id s) run) (
        record { config = config ∙ at.config; size = size ∙ at.size; same = at.same },
        record {
          there = ap (value_of (4 * w)) (cell k) ∙ written_there (view (system id s));
          others = λ j u other.
              ap (value_of (4 * u)) (cell j) ∙ written_others (view (system id s)) j u other;
          counted = λ j. ap (λ (f : Space). f.writes j) same;
          reads = λ j. ap (λ (f : Space). f.reads j) same;
          host = ap (λ (f : Space). f.host) same;
        },
      )

  pub doread_lem : Returns (λ t. At cs sz r t × Got k w ptr s t) (doread throws id ptr addr s)
  unfolding doread access
  doread_lem =
      let (t, run, config, size, rows, same) =
        access-Refines throws id (system id s) (call false) (routed false) in
      let cell = λ (j : ℕ). ap (λ (f : Space). f.cells j) same in
      let host = ap (λ (f : Space). f.host) same in
      done-Returns {a = back_from id s t} (ap (on_system id s) run) (
        record { config = config ∙ at.config; size = size ∙ at.size; same = at.same },
        record {
          there =
              ap (value_of ptr) host
              ∙ rw (place false) (value_of-memcpy ptr (4 * w) s.host (s.banks k).mem);
          others = λ q apart.
              ap (value_of q) host
              ∙ value_of-memcpy-Apart ptr (offset (call false)) q s.host (s.banks k).mem apart;
          words = λ j u. ap (value_of (4 * u)) (cell j);
          counted = λ j. ap (λ (f : Space). f.reads j) same;
          writes = λ j. ap (λ (f : Space). f.writes j) same;
        },
      )

-- A check of two equal numbers goes on.
check_passes :
    (throws : Handler) (x y : ℕ) (msg : Text) (s : Ports) → x ≡ y → check throws x y msg s ≡ done s
unfolding check
check_passes throws x y msg s e = rw (check, equal_match hex throws x y msg s.reports e) refl

pub check-Returns :
    (throws : Handler) (P : Ports → Type 0) (x y : ℕ) (msg : Text) (s : Ports)
    → x ≡ y
    → P s
    → Returns P (check throws x y msg s)
check-Returns throws P x y msg s e p = done-Returns (check_passes throws x y msg s e) p
