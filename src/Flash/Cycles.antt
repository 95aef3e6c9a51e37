-- ===== src/Flash/Cycles.antt =====
-- Single phases over consecutive clock cycles (models/memories/flash/N25QX.hpp).
use mathlib.Core.Path.{fun_ext}
use mathlib.Core.List.{append_assoc, append-nil}
use deltamodels.Base.{
  zero, suc, sym, u32, ◌/◌, ℕ, ◌+◌, ◌*◌, ◌%◌, ◌^◌, ◌<◌, ◌≡◌, refl, ap, ◌∙◌, inl, inr, Bool-cases,
  true, false, List, [], ◌∷◌, ◌++◌, arith, ◌==◌, if◌then◌else◌, bit_or-shl, length,
}
use deltamodels.Flash.{
  Flash, Pins, Nibbles, idle_phase, quad_read_addr_phase, quad_read_dummy_phase,
  quad_read_resp_phase, fetch, touch, store, flash_handler, Row, row_of,
}

-- The flash with the row of its falling edge.
abbrev pub logged : Flash → Flash
logged f = record f { log = f.log ++ (row_of f ∷ []) }

-- Clock cycles: a rising and a falling edge on the same pins.
unfoldable pub cycles : List Pins → Flash → Flash
cycles [] f = f
cycles (p ∷ ps) f = cycles ps (flash_handler false p (flash_handler true p f))

pub cycles-++ : (ps qs : List Pins) (f : Flash) → cycles (ps ++ qs) f ≡ cycles qs (cycles ps f)
unfolding cycles
cycles-++ [] qs f = refl
cycles-++ (p ∷ ps) qs f = cycles-++ ps qs (flash_handler false p (flash_handler true p f))

-- A flash that is not selected stays idle.
pub rests_idle :
    (n : ℕ) (f : Flash) → f.phase ≡ idle_phase → cycles (record { cs_n = 1; dq = n } ∷ []) f ≡ f
unfolding cycles flash_handler
rests_idle n f idle = rw idle refl

-- Selected pins with the given half-byte on the data lines.
abbrev pub selected : ℕ → Pins
selected n = record { cs_n = 0; dq = n }

unfoldable pub selects : List ℕ → List Pins
selects [] = []
selects (n ∷ ns) = selected n ∷ selects ns

pub addr_one :
    (n : ℕ) (f : Flash)
    → f.phase ≡ quad_read_addr_phase
    → f.cnt < 6
    → f.addr < 2 ^ 28
    → n < 16
    → cycles (selected n ∷ []) f ≡ record f { cnt = f.cnt + 1; addr = 16 * f.addr + n }
unfolding cycles flash_handler
addr_one n f ph c a h = ground (arith, bit_or-shl 4 f.addr n)

-- The cycle after the last half-byte of the address starts the dummy cycles.
pub addr_last :
    (p : Pins) (f : Flash)
    → f.phase ≡ quad_read_addr_phase
    → f.cnt ≡ 6
    → cycles (p ∷ []) f ≡ record f { phase = quad_read_dummy_phase; cnt = 2; dq_out = 0 }
unfolding cycles flash_handler
addr_last p f ph c = ground arith

dummy_one :
    (p : Pins) (f : Flash)
    → f.phase ≡ quad_read_dummy_phase
    → f.cnt + 1 < f.dummy_cycles
    → f.cnt + 1 < 2 ^ 32
    → cycles (p ∷ []) f ≡ record f { cnt = f.cnt + 1; dq_out = 0 }
unfolding cycles flash_handler
dummy_one p f ph c small = ground arith

-- After the last dummy cycle.
abbrev pub answering : Flash → Flash
answering f =
    logged (record f { phase = quad_read_resp_phase; cnt = 0; idx = 0; word = 0; dq_out = 0 })

dummy_last :
    (p : Pins) (f : Flash)
    → f.phase ≡ quad_read_dummy_phase
    → f.cnt + 1 ≡ f.dummy_cycles
    → f.cnt + 1 < 2 ^ 32
    → cycles (p ∷ []) f ≡ answering f
unfolding cycles flash_handler
dummy_last p f ph c small = ground arith

pub resp_one :
    (n : ℕ) (f : Flash)
    → f.phase ≡ quad_read_resp_phase
    → f.addr * 2 + f.cnt + 1 < 2 ^ 32
    → cycles (selected n ∷ []) f
      ≡ logged (record f {
        idx = f.addr * 2 + f.cnt;
        word = fetch (f.addr * 2 + f.cnt) f.conf_memory;
        conf_memory = touch (f.addr * 2 + f.cnt) f.conf_memory;
        cnt = f.cnt + 1;
        dq_out = fetch (f.addr * 2 + f.cnt) f.conf_memory % 2 ^ 4;
      })
unfolding cycles flash_handler
resp_one n f ph small = ground arith

pub dummies :
    (ps : List Pins) (f : Flash)
    → f.phase ≡ quad_read_dummy_phase
    → 0 < length ps
    → f.cnt + length ps ≡ f.dummy_cycles
    → f.dummy_cycles < 2 ^ 32
    → cycles ps f ≡ answering f
unfolding cycles
dummies [] f ph pos d small = absurd (omega arith)
dummies (p ∷ []) f ph pos d small = dummy_last p f ph (omega arith) (omega arith)
dummies (p ∷ q ∷ qs) f ph pos d small =
    let here = dummy_one p f ph (omega arith) (omega arith) in
    let rest =
      dummies (q ∷ qs) (record f { cnt = f.cnt + 1; dq_out = 0 }) ph (omega arith) (omega arith)
        small in
    ap (cycles (q ∷ qs)) here ∙ rest

pub fetch-store :
    (a b v : ℕ) (mem : Nibbles) → fetch a (store b v mem) ≡ (if a == b then v else fetch a mem)
unfolding fetch
fetch-store a b v mem = elim (Bool-cases (a == b)) [ inl e ↦ rw (e, fetch) | inr e ↦ rw (e, fetch) ]

fetch-touch : (a b : ℕ) (mem : Nibbles) → fetch a (touch b mem) ≡ fetch a mem
unfolding touch
fetch-touch a b mem = fetch-store a b (fetch b mem) mem ∙ ground arith

-- The half-bytes as reads see them.
abbrev pub view : Nibbles → ℕ → ℕ
view mem i = fetch i mem

view-touch : (a : ℕ) (mem : Nibbles) → view (touch a mem) ≡ view mem
view-touch a mem = fun_ext λ i. fetch-touch i a mem

-- The rows of `n` answers from the `k`-th half-byte after address `a` on: each has the half-byte's
-- number and value, and the address of the byte that the next half-byte belongs to.
abbrev pub answer_rows : ℕ → ℕ → ℕ → (ℕ → ℕ) → List Row
answer_rows a k zero half = []
answer_rows a k (suc n) half =
    record { address = a + (k + 1) / 2; idx = a * 2 + k; word = half (a * 2 + k) }
    ∷ answer_rows a (k + 1) n half

-- The flash `g` answers as `f` does, `k` half-bytes further on.
pub record Reading (f : Flash) (k : ℕ) (g : Flash) : Type 0 where
  pub responds : g.phase ≡ quad_read_resp_phase
  pub addressed : g.addr ≡ f.addr
  pub counted : g.cnt ≡ f.cnt + k
  pub kept : view g.conf_memory ≡ view f.conf_memory
  pub shown : g.log ≡ f.log ++ answer_rows f.addr f.cnt k (view f.conf_memory)

pub responses :
    (ns : List ℕ) (f : Flash)
    → f.phase ≡ quad_read_resp_phase
    → f.addr * 2 + f.cnt + length ns < 2 ^ 32
    → Reading f (length ns) (cycles (selects ns) f)
unfolding cycles selects
responses [] f ph small = record {
  responds = ph;
  addressed = refl;
  counted = omega arith;
  kept = refl;
  shown = sym (append-nil f.log);
}
responses (n ∷ ns) f ph small =
    let g : Flash = cycles (selected n ∷ []) f in
    let e = resp_one n f ph (omega arith) in
    let addr_e : g.addr ≡ f.addr = ap (λ (t : Flash). t.addr) e in
    let cnt_e : g.cnt ≡ f.cnt + 1 = ap (λ (t : Flash). t.cnt) e in
    let kept_e : view g.conf_memory ≡ view f.conf_memory =
      ap (λ (t : Flash). view t.conf_memory) e ∙ view-touch (f.addr * 2 + f.cnt) f.conf_memory in
    let row : Row = record {
      address = f.addr + (f.cnt + 1) / 2;
      idx = f.addr * 2 + f.cnt;
      word = fetch (f.addr * 2 + f.cnt) f.conf_memory;
    } in
    let place : u32 (f.addr + (f.cnt + 1) / 2) ≡ f.addr + (f.cnt + 1) / 2 = omega arith in
    let row_e : record row { address = u32 (f.addr + (f.cnt + 1) / 2) } ≡ row = rw place refl in
    let r = responses ns g (ap (λ (t : Flash). t.phase) e ∙ ph) (omega (arith, addr_e, cnt_e)) in
    record {
      responds = r.responds;
      addressed = r.addressed ∙ addr_e;
      counted = omega (arith, r.counted, cnt_e);
      kept = r.kept ∙ kept_e;
      shown =
          r.shown
          ∙ ap (λ (l : List Row). l ++ answer_rows g.addr g.cnt (length ns) (view g.conf_memory))
              (ap (λ (t : Flash). t.log) e ∙ ap (λ (row : Row). f.log ++ (row ∷ [])) row_e)
          ∙ append_assoc f.log (row ∷ [])
              (answer_rows g.addr g.cnt (length ns) (view g.conf_memory))
          ∙ rw (addr_e, cnt_e, kept_e) refl;
    }
