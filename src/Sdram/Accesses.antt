-- ===== src/Sdram/Accesses.antt =====
-- Sequences of `_write` and `_read` of models/memories/tests/test_sdram.cpp on the chip of
-- models/memories/sdram/generic_sdram.hpp.
use deltamodels.Base.{
  bit_and, shr, ones, ◌+◌, ℕ, ◌/◌, ◌^◌, ◌<◌, ◌≡◌, refl, ap, ◌∙◌, false, List, [], ◌∷◌, ◌++◌, arith,
  get_bit, Run, done, ◌>>=◌,
}
use deltamodels.Sdram.{Geometry, to_row_bank_column}
use deltamodels.Sdram.Address.{words, to_row_bank_column_lem}
use deltamodels.Sdram.History.{Plain, put, view, view-store, view-touch}
use deltamodels.Sdram.Controller.{Board, activate_bank, do_write, do_read, write_at, read_at}
use deltamodels.Sdram.Array.{IsWired, IsReady, activates, writes, reads}

pub data Access : Type 0 where
  put_word : ℕ → ℕ → Access
  get_word : ℕ → Access

-- An address of the memory whose row number has bit 10 low.
pub record IsReached (g : Geometry) (addr : ℕ) : Type 0 where
  pub inside : addr / 4 < words g
  pub low_row : get_bit (to_row_bank_column g addr).0 10 ≡ false

-- Bit 10 of the row number, by the address.
pub low_row_lem :
    (g : Geometry) (addr : ℕ)
    → get_bit (bit_and (shr (shr addr 2) (g.bank_bits + g.col_bits)) (ones g.row_bits)) 10 ≡ false
    → get_bit (to_row_bank_column g addr).0 10 ≡ false
unfolding to_row_bank_column
low_row_lem g addr low = low

abbrev pub IsAccess : Geometry → Access → Type 0
IsAccess g (put_word addr v) = IsReached g addr × (v < 2 ^ 32)
IsAccess g (get_word addr) = IsReached g addr

abbrev pub AllAccesses : Geometry → List Access → Type 0
AllAccesses g [] = Unit
AllAccesses g (o ∷ os) = IsAccess g o × AllAccesses g os

-- The specification: an array of words; the answers are those of the reads.
abbrev pub plain_access : Access → Plain → List ℕ × Plain
plain_access (put_word addr v) f = ([], put (addr / 4) v f)
plain_access (get_word addr) f = (f (addr / 4) ∷ [], f)

abbrev pub plain_accesses : List Access → Plain → List ℕ × Plain
plain_accesses [] f = ([], f)
plain_accesses (o ∷ os) f =
    let (vs, f') = plain_access o f in let (ws, f'') = plain_accesses os f' in (vs ++ ws, f'')

module _ (a_size ba_size : ℕ) where
  access : Access → Board → Run Board (List ℕ × Board)
  access (put_word addr v) b = write_at a_size ba_size addr v b >>= λ t. done ([], t)
  access (get_word addr) b = read_at a_size ba_size addr b >>= λ (v, t). done (v ∷ [], t)

  pub accesses : List Access → Board → Run Board (List ℕ × Board)
  unfolding access
  accesses [] b = done ([], b)
  accesses (o ∷ os) b = do (vs, t) ← access o b; (ws, u) ← accesses os t; done (vs ++ ws, u)

  module _ (g : Geometry) (wired : IsWired a_size ba_size g) where
    abbrev Refines : Access → Board → Type 0
    Refines o b =
        let (vs, f) = plain_access o (view b.sdram.mem) in
        (t : Board) × (access o b ≡ done (vs, t)) × IsReady ba_size g t × (view t.sdram.mem ≡ f)

    -- The parts of the address, in the chip's geometry.
    write_at_parts :
        (addr v : ℕ) (b : Board)
        → IsReady ba_size g b
        → let (row, bank, col) = to_row_bank_column g addr in
          write_at a_size ba_size addr v b
          ≡ (activate_bank a_size ba_size bank row b >>= do_write a_size ba_size bank col v)
    unfolding write_at
    write_at_parts addr v b ready =
        ap
          (λ (k : Geometry).
            let (row, bank, col) = to_row_bank_column k addr in
            activate_bank a_size ba_size bank row b >>= do_write a_size ba_size bank col v)
          ready.same

    read_at_parts :
        (addr : ℕ) (b : Board)
        → IsReady ba_size g b
        → let (row, bank, col) = to_row_bank_column g addr in
          read_at a_size ba_size addr b
          ≡ (activate_bank a_size ba_size bank row b >>= do_read a_size ba_size bank col)
    unfolding read_at
    read_at_parts addr b ready =
        ap
          (λ (k : Geometry).
            let (row, bank, col) = to_row_bank_column k addr in
            activate_bank a_size ba_size bank row b >>= do_read a_size ba_size bank col)
          ready.same

    -- `_write` changes the one word.
    pub write_at_lem :
        (addr v : ℕ) (b : Board)
        → IsReady ba_size g b
        → IsReached g addr
        → v < 2 ^ 32
        → (t : Board) × (write_at a_size ba_size addr v b ≡ done t)
          × IsReady ba_size g t
          × (view t.sdram.mem ≡ put (addr / 4) v (view b.sdram.mem))
    write_at_lem addr v b ready ok small =
        let (row, bank, col) = to_row_bank_column g addr in
        let (word, row_small, bank_small, col_small) =
          to_row_bank_column_lem g addr wired.size ok.inside in
        let bank_pins : bank < 2 ^ ba_size = omega (arith, wired.banks) in
        let (t, run, ready', mem, open_row) =
          activates a_size ba_size g wired b bank row ready (omega (arith, wired.rows)) bank_pins
            ok.low_row in
        let (u, runs, ready'', mem') =
          writes a_size ba_size g wired t bank row col v ready' open_row bank_pins col_small
            small in
        (
          u,
          rw (write_at_parts addr v b ready, run) runs,
          ready'',
          rw (mem', mem, word) (view-store (addr / 4) v b.sdram.mem),
        )

    -- `_read` answers the word, and changes none.
    pub read_at_lem :
        (addr : ℕ) (b : Board)
        → IsReady ba_size g b
        → IsReached g addr
        → (t : Board) × (read_at a_size ba_size addr b ≡ done (view b.sdram.mem (addr / 4), t))
          × IsReady ba_size g t
          × (view t.sdram.mem ≡ view b.sdram.mem)
    read_at_lem addr b ready ok =
        let (row, bank, col) = to_row_bank_column g addr in
        let (word, row_small, bank_small, col_small) =
          to_row_bank_column_lem g addr wired.size ok.inside in
        let bank_pins : bank < 2 ^ ba_size = omega (arith, wired.banks) in
        let (t, run, ready', mem, open_row) =
          activates a_size ba_size g wired b bank row ready (omega (arith, wired.rows)) bank_pins
            ok.low_row in
        let (u, runs, ready'', mem') =
          reads a_size ba_size g wired t bank row col ready' open_row bank_pins col_small in
        (
          u,
          rw (read_at_parts addr b ready, run, runs, word, mem) refl,
          ready'',
          rw (mem', mem) (view-touch _ b.sdram.mem),
        )

    access-Refines : (o : Access) (b : Board) → IsReady ba_size g b → IsAccess g o → Refines o b
    unfolding access
    access-Refines (put_word addr v) b ready ok =
        let (t, run, ready', same) = write_at_lem addr v b ready ok.0 ok.1 in
        (t, rw run refl, ready', same)
    access-Refines (get_word addr) b ready ok =
        let (t, run, ready', same) = read_at_lem addr b ready ok in (t, rw run refl, ready', same)

    -- Through the controller, on a chip that has a bank for every bank address and no pending reads,
    -- whose geometry fits the pins, has at most 2^30 words and keeps column numbers below address
    -- bit 10, any sequence of writes of 32-bit words and of reads at addresses of the memory whose
    -- row numbers have bit 10 low runs to its end. The reads answer what they answer on a plain
    -- array of words, the memory is that array as later reads see it, and the chip is again as it
    -- was required to be.
    pub controller_refines :
        (os : List Access) (b : Board)
        → IsReady ba_size g b
        → AllAccesses g os
        → let (vs, f) = plain_accesses os (view b.sdram.mem) in
          (t : Board) × (accesses os b ≡ done (vs, t))
          × IsReady ba_size g t
          × (view t.sdram.mem ≡ f)
    unfolding accesses
    controller_refines [] b ready ok = (b, refl, ready, refl)
    controller_refines (o ∷ os) b ready ok =
        let (t, run, ready', same) = access-Refines o b ready ok.0 in
        let (u, runs, ready'', same') = controller_refines os t ready' ok.1 in
        (
          u,
          rw (run, runs, same) refl,
          ready'',
          same' ∙ ap (λ (f : Plain). (plain_accesses os f).1) same,
        )
