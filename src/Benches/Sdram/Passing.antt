-- ===== src/Benches/Sdram/Passing.antt =====
-- The tests of models/memories/tests/test_sdram.cpp pass.
use mathlib.Core.List.{Memᴰ}
use mathlib.Core.List.Memᴰ
use deltamodels.Base.{
  ℕ, ◌/◌, ◌^◌, ◌<◌, ◌≡◌, ◌⊎◌, inl, inr, refl, sym, ap, ◌∙◌, List, [], ◌∷◌, arith, Handler, ◌==◌,
  ==_iff, Bool-cases, Returns, returns, Returns-bind, Returns-map,
}
use deltamodels.Or1k.Text.{codes}
use deltamodels.Checks.{Reports}
use deltamodels.Sdram.{Geometry}
use deltamodels.Sdram.History.{Plain, put}
use deltamodels.Sdram.Array.{IsWired}
use deltamodels.Sdram.Accesses.{IsReached}
use deltamodels.Benches.Sdram.{
  Bench, dump, test_simple_sequence, write_phase, reads_after, interleaved,
  test_interleaved_sequence,
}
use deltamodels.Benches.Sdram.Parts.{
  At, IsCleared, cleared, dump-At, check-At, check_mem-At, start-At, settle-At, write-At, read-At,
}

-- Entries at addresses of the memory whose row numbers have bit 10 low, with 32-bit values; two
-- entries for one word have one value.
pub record IsUsable (g : Geometry) (values : List (ℕ × ℕ)) : Type 0 where
  pub reached : (e : ℕ × ℕ) → Memᴰ e values → IsReached g e.0
  pub small : (e : ℕ × ℕ) → Memᴰ e values → e.1 < 2 ^ 32
  pub agree : (d e : ℕ × ℕ) → Memᴰ d values → Memᴰ e values → d.0 / 4 ≡ e.0 / 4 → d.1 ≡ e.1

-- The array has the entries' values.
abbrev Holds : List (ℕ × ℕ) → Plain → Type 0
Holds values f = (e : ℕ × ℕ) → Memᴰ e values → f (e.0 / 4) ≡ e.1

put_self : (a v : ℕ) (f : Plain) → put a v f a ≡ v
put_self a v f = ground arith

module _ (g : Geometry) (values : List (ℕ × ℕ)) (usable : IsUsable g values) where
  -- An entry written keeps what the array has of the others.
  put-keeps :
      (w e : ℕ × ℕ) (f : Plain)
      → Memᴰ w values
      → Memᴰ e values
      → (e ≡ w) ⊎ (f (e.0 / 4) ≡ e.1)
      → put (w.0 / 4) w.1 f (e.0 / 4) ≡ e.1
  put-keeps w e f here there known = elim (Bool-cases (e.0 / 4 == w.0 / 4)) [
    | inl same ↦ rw same (usable.agree w e here there (sym ((==_iff (e.0 / 4) (w.0 / 4)).0 same)))
    | inr apart ↦ elim known [
      | inl equal ↦
          let same = (==_iff (e.0 / 4) (w.0 / 4)).1 (ap (λ (d : ℕ × ℕ). d.0 / 4) equal) in cc
      | inr held ↦ rw apart held
    ]
  ]

  module _ (throws : Handler) (a_size ba_size : ℕ) (wired : IsWired a_size ba_size g)
      (r : Reports) where
    write_phase-At :
        (rest : List (ℕ × ℕ)) (f : Plain) (s : Bench)
        → ((e : ℕ × ℕ) → Memᴰ e rest → Memᴰ e values)
        → At ba_size g r f s
        → Returns
            (λ t.
              (h : Plain) × At ba_size g r h t
              × ((e : ℕ × ℕ)
                  → Memᴰ e values
                  → Memᴰ e rest ⊎ (f (e.0 / 4) ≡ e.1)
                  → h (e.0 / 4) ≡ e.1))
            (write_phase throws a_size ba_size rest s)
    unfolding write_phase
    write_phase-At [] f s part at = returns (
      f,
      at,
      λ e here known. elim known [ inl none ↦ absurd (Memᴰ.not-nil none) | inr held ↦ held ],
    )
    write_phase-At ((addr, val) ∷ rest) f s part at =
        let here = part (addr, val) (Memᴰ.head refl) in
        let g' = put (addr / 4) val f in
        Returns-bind (settle-At ba_size g r a_size f s at) λ s1 at1.
          Returns-bind
            (write-At ba_size g r a_size wired addr val f s1 at1 (usable.reached (addr, val) here)
              (usable.small (addr, val) here))
            λ s2 at2.
              Returns-bind
                (check_mem-At ba_size g r throws (addr / 4) val (codes "check_write") g' s2 at2.0
                  (put_self (addr / 4) val f))
                λ s3 at3.
                  Returns-map (write_phase-At rest g' s3 (λ e m. part e (Memᴰ.tail m)) at3) λ t end.
                    (
                      end.0,
                      end.1,
                      λ e there known. end.2 e there (elim known [
                        | inl m ↦ elim (Memᴰ.cases_cons m) [
                          | inl equal ↦ inr (put-keeps (addr, val) e f here there (inl equal))
                          | inr later ↦ inl later
                        ]
                        | inr held ↦ inr (put-keeps (addr, val) e f here there (inr held))
                      ]),
                    )

    abbrev Stays : Bench → Type 0
    Stays t = (h : Plain) × At ba_size g r h t × Holds values h

    reads_after-Stays :
        (w : ℕ × ℕ) (rest : List (ℕ × ℕ)) (f : Plain) (s : Bench)
        → Memᴰ w values
        → ((e : ℕ × ℕ) → Memᴰ e rest → Memᴰ e values)
        → At ba_size g r f s
        → Holds values f
        → Returns Stays (reads_after throws a_size ba_size w rest s)
    unfolding reads_after
    reads_after-Stays w [] f s here part at held = returns (f, at, held)
    reads_after-Stays (waddr, wval) ((raddr, rval) ∷ rest) f s here part at held =
        let there = part (raddr, rval) (Memᴰ.head refl) in
        let h = put (waddr / 4) wval f in
        let held' : Holds values h = λ e m. put-keeps (waddr, wval) e f here m (inr (held e m)) in
        Returns-bind (settle-At ba_size g r a_size f s at) λ s1 at1.
          Returns-bind
            (write-At ba_size g r a_size wired waddr wval f s1 at1
              (usable.reached (waddr, wval) here) (usable.small (waddr, wval) here))
            λ s2 at2. Returns-bind (start-At ba_size g r 5 h s2 at2.0 at2.1) λ s3 at3.
              Returns-bind
                (read-At ba_size g r a_size wired raddr h s3 at3
                  (usable.reached (raddr, rval) there))
                λ (value, s4) at4.
                  Returns-bind
                    (check_mem-At ba_size g r throws (waddr / 4) wval (codes "check_write") h s4
                      at4.1 (put_self (waddr / 4) wval f))
                    λ s5 at5.
                      Returns-bind
                        (check-At ba_size g r throws value rval (codes "check_read") h s5 at5
                          (at4.0 ∙ held' (raddr, rval) there))
                        λ s6 at6.
                          reads_after-Stays (waddr, wval) rest h s6 here
                            (λ e m. part e (Memᴰ.tail m)) at6 held'

    interleaved-Stays :
        (ws : List (ℕ × ℕ)) (f : Plain) (s : Bench)
        → ((e : ℕ × ℕ) → Memᴰ e ws → Memᴰ e values)
        → At ba_size g r f s
        → Holds values f
        → Returns Stays (interleaved throws a_size ba_size ws values s)
    unfolding interleaved
    interleaved-Stays [] f s part at held = returns (f, at, held)
    interleaved-Stays (w ∷ ws) f s part at held =
        Returns-bind (reads_after-Stays w values f s (part w (Memᴰ.head refl)) (λ e m. m) at held)
          λ t (h, at', held'). interleaved-Stays ws h t (λ e m. part e (Memᴰ.tail m)) at' held'

    pub test_interleaved_sequence-IsCleared :
        (f : Plain) (s : Bench)
        → At ba_size g r f s
        → Returns (IsCleared ba_size g r) (test_interleaved_sequence throws a_size ba_size values s)
    unfolding test_interleaved_sequence
    test_interleaved_sequence-IsCleared f s at =
        Returns-bind (write_phase-At values f s (λ e m. m) at) λ t (h, at', held).
          Returns-bind (interleaved-Stays values h t (λ e m. m) at' (λ e m. held e m (inl m)))
            λ u (k, at'', held'). returns (cleared ba_size g r k u at'')

    pub test_simple_sequence-IsCleared :
        (w : ℕ × ℕ) (f : Plain) (s : Bench)
        → IsReached g w.0
        → w.1 < 2 ^ 32
        → At ba_size g r f s
        → Returns (IsCleared ba_size g r) (test_simple_sequence throws a_size ba_size w s)
    unfolding test_simple_sequence
    test_simple_sequence-IsCleared (addr, val) f s reached small at =
        let h = put (addr / 4) val f in
        Returns-bind (settle-At ba_size g r a_size f s at) λ s1 at1.
          Returns-bind (write-At ba_size g r a_size wired addr val f s1 at1 reached small) λ s2 at2.
            Returns-bind (start-At ba_size g r 5 h s2 at2.0 at2.1) λ s3 at3.
              Returns-bind (read-At ba_size g r a_size wired addr h s3 at3 reached)
                λ (value, s4) at4.
                  Returns-bind
                    (check_mem-At ba_size g r throws (addr / 4) val (codes "check_write") h
                      (dump s4) (dump-At ba_size g r h s4 at4.1) (put_self (addr / 4) val f))
                    λ s5 at5.
                      Returns-bind
                        (check-At ba_size g r throws value val (codes "check_read") h s5 at5
                          (at4.0 ∙ put_self (addr / 4) val f))
                        λ s6 at6. returns (cleared ba_size g r h s6 at6)
