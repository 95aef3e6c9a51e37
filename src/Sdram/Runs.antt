-- ===== src/Sdram/Runs.antt =====
-- Runs of the processes of models/memories/sdram/generic_sdram.hpp, on chips whose addresses fit.
use deltamodels.Base.{
  length-replicate, ℕ, zero, suc, ◌+◌, ◌*◌, ◌^◌, ◌<◌, ◌≤◌, ◌≡◌, refl, ap, some, List, [], ◌∷◌,
  arith, shr, length, set, get_elem?, map, Run, done, ◌>>=◌, replicate,
}
use native.Mathlib.Nat.{one-le-pow}
use deltamodels.Sdram.{Geometry, init, Sdram, Pins, sdram_handler}
use deltamodels.Sdram.Backdoor.{Backdoor, from_wishbone, backdoor_handler}

-- What a process is called with.
pub data Event : Type 0 where
  edge : Pins → Event
  backdoor : Backdoor → Event

unfoldable pub run_event : Event → Sdram → Run Sdram Sdram
run_event (edge p) s = sdram_handler p s
run_event (backdoor b) s = done (backdoor_handler b s)

unfoldable pub run_events : List Event → Sdram → Run Sdram Sdram
unfolding run_event
run_events [] s = done s
run_events (e ∷ es) s = run_event e s >>= run_events es

abbrev pub AllBelow : ℕ → List ℕ → Type 0
AllBelow n [] = Unit
AllBelow n (x ∷ xs) = (x < n) × AllBelow n xs

-- A chip with address pins of the given widths: a bank for each bank address, rows that fit the
-- address pins, and word addresses below 2^30.
pub record Fits (a_size ba_size : ℕ) (s : Sdram) : Type 0 where
  pub banks : length s.row_addr ≡ 2 ^ ba_size
  pub rows : AllBelow (2 ^ a_size) s.row_addr
  pub room :
      2 ^ a_size * 2 ^ (s.geometry.bank_bits + s.geometry.col_bits)
        + 2 ^ ba_size * 2 ^ s.geometry.col_bits
        + 2 ^ a_size
      ≤ 2 ^ 30
  pub low : s.offset < 2 ^ 32

-- Pins of these widths, and copies that end below word address 2^30.
abbrev pub Drives : ℕ → ℕ → ℕ → Event → Type 0
Drives a_size ba_size offset (edge p) = (p.a < 2 ^ a_size) × (p.ba < 2 ^ ba_size)
Drives a_size ba_size offset (backdoor b) =
    from_wishbone offset b.copy_to + shr b.copy_size 2 ≤ 2 ^ 30

abbrev pub AllDrive : ℕ → ℕ → ℕ → List Event → Type 0
AllDrive a_size ba_size offset [] = Unit
AllDrive a_size ba_size offset (e ∷ es) =
    Drives a_size ba_size offset e × AllDrive a_size ba_size offset es

pub AllBelow-set : (n i v : ℕ) (xs : List ℕ) → AllBelow n xs → v < n → AllBelow n (set xs i v)
AllBelow-set n i v [] h k = tt
AllBelow-set n zero v (x ∷ xs) h k = (k, h.1)
AllBelow-set n (suc i) v (x ∷ xs) h k = (h.0, AllBelow-set n i v xs h.1 k)

pub AllBelow-get_elem? : (n i x : ℕ) (xs : List ℕ) → AllBelow n xs → get_elem? xs i ≡ some x → x < n
AllBelow-get_elem? n i x [] h e = absurd (cc)
AllBelow-get_elem? n zero x (y ∷ ys) h e = ground (arith, h.0)
AllBelow-get_elem? n (suc i) x (y ∷ ys) h e = AllBelow-get_elem? n i x ys h.1 e

pub AllBelow-map : (n : ℕ) (xs : List ℕ) → 0 < n → AllBelow n (map (λ _. 0) xs)
AllBelow-map n [] h = tt
AllBelow-map n (x ∷ xs) h = (h, AllBelow-map n xs h)

AllBelow-replicate : (n k : ℕ) → 0 < n → AllBelow n (replicate k 0)
AllBelow-replicate n zero h = tt
AllBelow-replicate n (suc k) h = (h, AllBelow-replicate n k h)

pub length-map_zero : (xs : List ℕ) → length {A = ℕ} (map (λ (x : ℕ). 0) xs) ≡ length xs
length-map_zero [] = refl
length-map_zero (x ∷ xs) = ap suc (length-map_zero xs)

-- Word addresses: a row, a bank and a column below their bounds.
pub address_bound :
    (r b c R B P Q M : ℕ) → r < R → b < B → c < R → R * P + B * Q + R ≤ M → r * P + b * Q + c < M
address_bound r b c R B P Q M hr hb hc room = grind arith

pub init-Fits :
    (a_size ba_size offset : ℕ) (g : Geometry)
    → 2 ^ a_size * 2 ^ (g.bank_bits + g.col_bits) + 2 ^ ba_size * 2 ^ g.col_bits + 2 ^ a_size
      ≤ 2 ^ 30
    → offset < 2 ^ 32
    → Fits a_size ba_size (init ba_size g offset)
unfolding init
init-Fits a_size ba_size offset g room low = record {
  banks = length-replicate {A = ℕ} (2 ^ ba_size) 0;
  rows = AllBelow-replicate (2 ^ a_size) (2 ^ ba_size) (one-le-pow a_size 2 (omega arith));
  room = room;
  low = low;
}
