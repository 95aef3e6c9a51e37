-- ===== src/Benches/Multiport/Stored.antt =====
-- The state of tlms/tlm_router/tests/test_multiport.cpp between its accesses.
use native.Mathlib.Decide.{ℕ_discrete}
use deltamodels.Base.{
  ℕ, zero, suc, ◌+◌, ◌*◌, ◌^◌, ◌<◌, ◌≤◌, ◌≡◌, ◌≢◌, refl, ap, ◌∙◌, inr, inl, List, [], ◌∷◌, arith,
  bit_and, u32, ◌==◌, ◌&&◌, Bool, true, if◌then◌else◌, Handler, Returns, Returns-map, ◌/◌,
}
use deltamodels.Checks.{Reports}
use deltamodels.Router.{Region}
use deltamodels.Router.Decode.{Uncovered}
use deltamodels.Initiator.Banks.{count}
use deltamodels.Benches.Routing.{Ports, value_of, dowrite, doread}
use deltamodels.Benches.Routing.Words.{Apart}
use deltamodels.Benches.Routing.Steps.{word, Leads, At, dowrite_lem, doread_lem}
use deltamodels.Benches.Multiport.{mem1_config, mem2_config, mem3_config}

abbrev pub regions : List Region
regions = mem1_config ∷ mem2_config ∷ mem3_config ∷ []

-- Where the region of each socket starts.
abbrev pub base : ℕ → ℕ
base k = if k == 0 then 0 else if k == 1 then 0x1000 else 0x10000

-- Behind socket `k` the first `i k` words are their numbers, from the region's start on, and so many
-- writes and reads have been counted.
pub record Stored (sz : ℕ → ℕ) (r : Reports) (i wr rd : ℕ → ℕ) (s : Ports) : Type 0 where
  pub at : At regions sz r s
  pub words : (k j : ℕ) → k < 3 → j < i k → word s k j ≡ j + base k
  pub writes : (k : ℕ) → k < 3 → (s.banks k).wr_ops ≡ wr k
  pub reads : (k : ℕ) → k < 3 → (s.banks k).rd_ops ≡ rd k

pub Stored-ext :
    {sz : ℕ → ℕ} {r : Reports} {i wr rd i' wr' rd' : ℕ → ℕ} {s : Ports}
    → ((k : ℕ) → k < 3 → (i k ≡ i' k) × (wr k ≡ wr' k) × (rd k ≡ rd' k))
    → Stored sz r i wr rd s
    → Stored sz r i' wr' rd' s
Stored-ext same h = record {
  at = h.at;
  words = λ k j below lt. h.words k j below (omega (arith, (same k below).0));
  writes = λ k below. h.writes k below ∙ (same k below).1;
  reads = λ k below. h.reads k below ∙ (same k below).2;
}

-- A property of numbers below a bound, tested on each.
all_below : ℕ → (ℕ → Bool) → Bool
all_below zero p = true
all_below (suc n) p = p n && all_below n p

all_below_lem : (n i : ℕ) (p : ℕ → Bool) → all_below n p ≡ true → i < n → p i ≡ true
unfolding all_below
all_below_lem zero i p all lt = absurd (omega arith)
all_below_lem (suc n) i p all lt = elim (ℕ_discrete i n) [
  | yes same ↦ ground (arith, ap p same)
  | no apart ↦ all_below_lem n i p (ground arith) (omega (arith, apart))
]

masks :
    (i : ℕ)
    → i < 64
    → (bit_and (i * 4) 0xfff / 4 ≡ i)
      × (bit_and (i * 4 + 0x1000) 0xefff / 4 ≡ i)
      × (bit_and (i * 4 + 0x10000) 0xeffff / 4 ≡ i)
unfolding all_below
masks i lt =
    let p = λ (j : ℕ).
      (bit_and (j * 4) 0xfff / 4 == j)
      && (bit_and (j * 4 + 0x1000) 0xefff / 4 == j)
      && (bit_and (j * 4 + 0x10000) 0xeffff / 4 == j) in
    let tested : p i ≡ true = all_below_lem 64 i p refl lt in ground (arith, tested)

-- The masks take the start of a region away.
place_lem : (m addr i : ℕ) → addr < 2 ^ 32 → bit_and addr m / 4 ≡ i → bit_and (u32 addr) m / 4 ≡ i
place_lem m addr i small e = let whole : u32 addr ≡ addr = omega arith in rw whole e

before : (k addr : ℕ) → k < 3 → base k ≤ addr → addr < 2 ^ 32 → Uncovered regions k (u32 addr)
before k addr three above small zero c lt e covered = ground arith
before k addr three above small (suc zero) c lt e covered = ground arith
before k addr three above small (suc (suc j)) c lt e covered = absurd (omega arith)

pub leads_lem :
    (sz : ℕ → ℕ) (k i : ℕ) → k < 3 → i < 64 → i < sz k → Leads regions sz (i * 4 + base k) k i
leads_lem sz zero i three lt room =
    let start : i * 4 + 0 ≡ i * 4 = omega arith in
    record {
      region = mem1_config;
      at = refl;
      covers = (omega arith, omega arith);
      free = before 0 (i * 4 + 0) three (omega arith) (omega arith);
      place = place_lem 0xfff (i * 4 + 0) i (omega arith) (rw start (masks i lt).0);
      inside = room;
    }
leads_lem sz (suc zero) i three lt room = record {
  region = mem2_config;
  at = refl;
  covers = (omega arith, omega arith);
  free = before 1 (i * 4 + 0x1000) three (omega arith) (omega arith);
  place = place_lem 0xefff (i * 4 + 0x1000) i (omega arith) (masks i lt).1;
  inside = room;
}
leads_lem sz (suc (suc zero)) i three lt room = record {
  region = mem3_config;
  at = refl;
  covers = (omega arith, omega arith);
  free = before 2 (i * 4 + 0x10000) three (omega arith) (omega arith);
  place = place_lem 0xeffff (i * 4 + 0x10000) i (omega arith) (masks i lt).2;
  inside = room;
}
leads_lem sz (suc (suc (suc k))) i three lt room = absurd (omega arith)

count_self : (k : ℕ) (f : ℕ → ℕ) → count k f k ≡ f k + 1
count_self k f = ground arith

count_other : (k l : ℕ) (f : ℕ → ℕ) → l ≢ k → count k f l ≡ f l
count_other k l f apart = ground arith

Leads-at :
    {sz : ℕ → ℕ} {addr k m : ℕ}
    → k < 3
    → m < 64
    → m < sz k
    → addr ≡ m * 4 + base k
    → Leads regions sz addr k m
Leads-at {sz = sz} {k = k} {m = m} three few room e = rw e (leads_lem sz k m three few room)

module _ (throws : Handler) (sz : ℕ → ℕ) (r : Reports) (i wr rd : ℕ → ℕ) (id ptr addr k m : ℕ)
    (three : k < 3) (few : m < 64) (room : m < sz k) (e : addr ≡ m * 4 + base k) (s : Ports)
    (h : Stored sz r i wr rd s) where
  -- The next word of a socket.
  pub dowrite-Stored :
      i k ≡ m
      → value_of ptr s.host ≡ m + base k
      → Returns
          (λ t. Stored sz r (count k i) (count k wr) rd t × (t.host ≡ s.host))
          (dowrite throws id ptr addr s)
  dowrite-Stored next holds =
      Returns-map
        (dowrite_lem throws regions sz r addr k m (Leads-at three few room e) id ptr s h.at)
        λ t (at, wrote). (
          record {
            at = at;
            words = λ l j below lt. elim (ℕ_discrete l k) [
              | no apart ↦
                  wrote.others l j (inl apart)
                  ∙ h.words l j below (omega (arith, count_other k l i apart))
              | yes same ↦ elim (ℕ_discrete j m) [
                | no apart ↦
                    wrote.others l j (inr apart)
                    ∙ h.words l j below
                        (omega (arith, count_self k i, ap (count k i) same, ap i same))
                | yes last ↦
                    ap (λ (x : ℕ). word t x j) same
                    ∙ ap (word t k) last
                    ∙ wrote.there
                    ∙ holds
                    ∙ omega (arith, ap base same)
              ]
            ];
            writes = λ l below.
                wrote.counted l ∙ ap (λ (x : ℕ). if l == k then x + 1 else x) (h.writes l below);
            reads = λ l below. wrote.reads l ∙ h.reads l below;
          },
          wrote.host,
        )

  pub doread-Stored :
      m < i k
      → Returns
          (λ t.
            Stored sz r i wr (count k rd) t
            × (value_of ptr t.host ≡ m + base k)
            × ((q : ℕ) → Apart ptr q → value_of q t.host ≡ value_of q s.host))
          (doread throws id ptr addr s)
  doread-Stored stored =
      Returns-map
        (doread_lem throws regions sz r addr k m (Leads-at three few room e) id ptr s h.at)
        λ t (at, got). (
          record {
            at = at;
            words = λ l j below lt. got.words l j ∙ h.words l j below lt;
            writes = λ l below. got.writes l ∙ h.writes l below;
            reads = λ l below.
                got.counted l ∙ ap (λ (x : ℕ). if l == k then x + 1 else x) (h.reads l below);
          },
          got.there ∙ h.words k m three stored,
          got.others,
        )
