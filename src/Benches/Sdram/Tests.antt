-- ===== src/Benches/Sdram/Tests.antt =====
-- The program of models/memories/tests/test_sdram.cpp with the source's addresses and values, and the
-- first eight bytes of models/memories/tests/image_for_storage.img.
use mathlib.Core.Path.{subst}
use mathlib.Core.List.{Memᴰ}
use deltamodels.Base.{
  ℕ, ◌^◌, ◌/◌, ◌<◌, ◌≡◌, refl, sym, ap, ◌∙◌, none, List, [], ◌∷◌, arith, done, raised, inl,
  default_handler,
}
use deltamodels.Sdram.{Pins}
use deltamodels.Sdram.History.{Plain, put}
use deltamodels.Sdram.Accesses.{IsReached, low_row_lem}
use deltamodels.Benches.Sdram.{Bench, sc_main, simple, values}
use deltamodels.Benches.Sdram.Passing.{IsUsable}
use deltamodels.Benches.Sdram.Main.{IsImage, geometry, sc_main_passes}
use deltamodels.Benches.Sdram.Failing.{failed, sc_main_rejects}

each :
    (P : ℕ × ℕ → Type 0)
    → P (0x10, 0xfefefefe)
    → P (0x1000, 0xbabecafe)
    → P (0x3000, 0xfafafafa)
    → P (0x10000, 0xbabababa)
    → (e : ℕ × ℕ) → Memᴰ e values
    → P e
each P a b c d e (Memᴰ.head p) = subst P (sym p) a
each P a b c d e (Memᴰ.tail (Memᴰ.head p)) = subst P (sym p) b
each P a b c d e (Memᴰ.tail (Memᴰ.tail (Memᴰ.head p))) = subst P (sym p) c
each P a b c d e (Memᴰ.tail (Memᴰ.tail (Memᴰ.tail (Memᴰ.head p)))) = subst P (sym p) d
each P a b c d e (Memᴰ.tail (Memᴰ.tail (Memᴰ.tail (Memᴰ.tail m)))) = elim m [ ]

abbrev written : Plain
written =
    put 0x4 0xfefefefe
      (put 0x400 0xbabecafe (put 0xc00 0xfafafafa (put 0x4000 0xbabababa (λ j. 0))))

values-IsUsable : IsUsable geometry values
values-IsUsable =
    let held = each (λ e. written (e.0 / 4) ≡ e.1) refl refl refl refl in
    record {
      reached =
          each (λ e. IsReached geometry e.0)
            (record { inside = omega arith; low_row = low_row_lem geometry 0x10 refl })
            (record { inside = omega arith; low_row = low_row_lem geometry 0x1000 refl })
            (record { inside = omega arith; low_row = low_row_lem geometry 0x3000 refl })
            (record { inside = omega arith; low_row = low_row_lem geometry 0x10000 refl });
      small = each (λ e. e.1 < 2 ^ 32) (omega arith) (omega arith) (omega arith) (omega arith);
      agree = λ d e m n same. sym (held d m) ∙ ap written same ∙ held e n;
    }

abbrev image : List ℕ
image = 0x00 ∷ 0x00 ∷ 0x00 ∷ 0x1e ∷ 0x6d ∷ 0x61 ∷ 0x63 ∷ 0x00 ∷ []

image-IsImage : IsImage image
image-IsImage = record {
  bytes = (
    omega arith,
    (
      omega arith,
      (omega arith, (omega arith, (omega arith, (omega arith, (omega arith, (omega arith, tt)))))),
    ),
  );
  long = omega arith;
  fits = omega arith;
  first = refl;
  second = refl;
}

abbrev low : Pins
low = record {
  ck = 0;
  cke = 0;
  cs_n = 0;
  ras_n = 0;
  cas_n = 0;
  we_n = 0;
  a = 0;
  ba = 0;
  dq = 0;
  dm = 0;
}

sc_main_passes_example :
    (t : Bench) × (sc_main default_handler low image (λ j. 0) simple values ≡ done t)
    × (t.reports ≡ [])
    × (t.board.sdram.mem ≡ (λ a. none))
sc_main_passes_example =
    sc_main_passes default_handler low image (λ j. 0) simple values image-IsImage (λ j. omega arith)
      (record { inside = omega arith; low_row = low_row_lem geometry 0x300 refl }) (omega arith)
      values-IsUsable

abbrev blank_image : List ℕ
blank_image = 0 ∷ 0 ∷ 0 ∷ 0 ∷ 0 ∷ 0 ∷ 0 ∷ 0 ∷ []

sc_main_rejects_example :
    (t : Bench) × (sc_main default_handler low blank_image (λ j. 0) simple values ≡ raised failed t)
sc_main_rejects_example =
    sc_main_rejects default_handler low blank_image (λ j. 0) simple values refl
      (
        omega arith,
        (
          omega arith,
          (
            omega arith,
            (omega arith, (omega arith, (omega arith, (omega arith, (omega arith, tt))))),
          ),
        ),
      )
      (λ j. omega arith) (omega arith) (omega arith) (inl (λ e. omega arith))
