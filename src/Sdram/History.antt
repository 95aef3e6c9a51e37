-- ===== src/Sdram/History.antt =====
-- The log of models/memories/sdram/generic_sdram.hpp read as the history of a plain memory of words.
use mathlib.Core.Path.{fun_ext}
use mathlib.Core.List.{append_assoc, append-nil}
use deltamodels.Base.{
  ℕ, ◌^◌, ◌<◌, ◌≡◌, refl, sym, ap, ◌∙◌, List, [], ◌∷◌, ◌++◌, arith, ◌==◌, if◌then◌else◌,
}
use deltamodels.Sdram.Sequences.{fetch-store, fetch-touch}
use deltamodels.Sdram.{
  Sdram, Words, Line, read_requested, word_written, backdoor_copied, backdoor_cleared, fetch, touch,
  store, to_wishbone,
}
use deltamodels.Sdram.Backdoor.{from_wishbone}

abbrev pub Plain : Type 0
Plain = ℕ → ℕ

abbrev pub put : ℕ → ℕ → Plain → Plain
put a v f j = if j == a then v else f j

module _ (offset : ℕ) where
  -- What a line says that happened to the memory.
  abbrev pub apply_line : Line → Plain → Plain
  apply_line (word_written a v) f = put (from_wishbone offset a) v f
  apply_line (backdoor_copied a v) f = put (from_wishbone offset a) v f
  apply_line (backdoor_cleared a) f = put (from_wishbone offset a) 0 f
  apply_line _ f = f

  -- A line about a read names the word that the memory has.
  abbrev pub Agrees : Line → Plain → Type 0
  Agrees (read_requested a v) f = f (from_wishbone offset a) ≡ v
  Agrees _ f = Unit

  abbrev pub replay : List Line → Plain → Plain
  replay [] f = f
  replay (l ∷ ls) f = replay ls (apply_line l f)

  abbrev pub Legal : List Line → Plain → Type 0
  Legal [] f = Unit
  Legal (l ∷ ls) f = Agrees l f × Legal ls (apply_line l f)

  replay-append : (ls ms : List Line) (f : Plain) → replay (ls ++ ms) f ≡ replay ms (replay ls f)
  replay-append [] ms f = refl
  replay-append (l ∷ ls) ms f = replay-append ls ms (apply_line l f)

  Legal-append :
      (ls ms : List Line) (f : Plain) → Legal ls f → Legal ms (replay ls f) → Legal (ls ++ ms) f
  Legal-append [] ms f h k = k
  Legal-append (l ∷ ls) ms f h k = (h.0, Legal-append ls ms (apply_line l f) h.1 k)

-- The memory as reads see it.
abbrev pub view : Words → Plain
view mem a = fetch a mem

pub view-store : (a v : ℕ) (mem : Words) → view (store a v mem) ≡ put a v (view mem)
view-store a v mem = fun_ext λ j. fetch-store j a v mem

pub view-touch : (a : ℕ) (mem : Words) → view (touch a mem) ≡ view mem
view-touch a mem = fun_ext λ j. fetch-touch j a mem

-- Below 2^30 words, the log's addresses name words.
pub from_wishbone-to_wishbone :
    (offset w : ℕ) → offset < 2 ^ 32 → w < 2 ^ 30 → from_wishbone offset (to_wishbone offset w) ≡ w
unfolding from_wishbone to_wishbone
from_wishbone-to_wishbone offset w small low = omega arith

-- The lines that lead from one state to another tell what its memory went through.
pub record History (s t : Sdram) : Type 0 where
  pub lines : List Line
  pub logged : t.log ≡ s.log ++ lines
  pub legal : Legal s.offset lines (view s.mem)
  pub told : replay s.offset lines (view s.mem) ≡ view t.mem
  pub kept : t.offset ≡ s.offset

pub one_line :
    (s t : Sdram) (l : Line)
    → t.log ≡ s.log ++ (l ∷ [])
    → Agrees s.offset l (view s.mem)
    → apply_line s.offset l (view s.mem) ≡ view t.mem
    → t.offset ≡ s.offset
    → History s t
one_line s t l logged agrees told kept = record {
  lines = l ∷ [];
  logged = logged;
  legal = (agrees, tt);
  told = told;
  kept = kept;
}

pub no_lines : (s : Sdram) → History s s
no_lines s = record {
  lines = [];
  logged = sym (append-nil s.log);
  legal = tt;
  told = refl;
  kept = refl;
}

pub then_lines : (s t u : Sdram) → History s t → History t u → History s u
then_lines s t u h k =
    let legal : Legal s.offset k.lines (replay s.offset h.lines (view s.mem)) =
      rw (h.told, sym h.kept) k.legal in
    record {
      lines = h.lines ++ k.lines;
      logged =
          k.logged
          ∙ ap (λ (ls : List Line). ls ++ k.lines) h.logged
          ∙ append_assoc s.log h.lines k.lines;
      legal = Legal-append s.offset h.lines k.lines (view s.mem) h.legal legal;
      told = rw (replay-append s.offset h.lines k.lines (view s.mem), h.told, sym h.kept) k.told;
      kept = k.kept ∙ h.kept;
    }
