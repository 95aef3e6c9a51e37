-- ===== src/Benches/Sdram/Parts.antt =====
-- The steps of the tests of models/memories/tests/test_sdram.cpp on a board that is ready: what the
-- chip's memory is afterwards, seen as a plain array of words.
use mathlib.Core.Path.{subst}
use deltamodels.Base.{
  ℕ, none, ◌/◌, ◌^◌, ◌<◌, ◌≡◌, refl, ap, ◌∙◌, Run, done, Handler, ◌>>=◌, Returns, done-Returns,
  Returns-inv, Ensures,
}
use deltamodels.Or1k.Text.{Text, hex}
use deltamodels.Checks.{Reports}
use deltamodels.Checks.Passing.{equal_match}
use deltamodels.Sdram.{Geometry, touch}
use deltamodels.Sdram.History.{Plain, put, view, view-touch}
use deltamodels.Sdram.Controller.{Board, do_nop}
use deltamodels.Sdram.Array.{IsWired, IsReady}
use deltamodels.Sdram.Waiting.{
  IsQuiet, waits, write_at-IsQuiet, do_nop-IsQuiet, do_nop-IsReady, do_nop-sdram,
}
use deltamodels.Sdram.Accesses.{IsReached, write_at_lem, read_at_lem}
use deltamodels.Benches.Sdram.{
  Bench, with_mem, clear, dump, on_board, start, check, check_mem, settle, write, read,
}

module _ (ba_size : ℕ) (g : Geometry) where
  -- The board is ready, these are the reports, and the memory reads as `f`.
  pub record At (r : Reports) (f : Plain) (s : Bench) : Type 0 where
    pub ready : IsReady ba_size g s.board
    pub same : s.reports ≡ r
    pub holds : view s.board.sdram.mem ≡ f

module _ (ba_size : ℕ) (g : Geometry) (r : Reports) where
  -- At the end of a test.
  pub record IsCleared (s : Bench) : Type 0 where
    pub ready : IsReady ba_size g s.board
    pub same : s.reports ≡ r
    pub empty : s.board.sdram.mem ≡ (λ a. none)

  pub cleared : (f : Plain) (s : Bench) → At ba_size g r f s → IsCleared (clear s)
  cleared f s at = record {
    ready = record { idle = at.ready.idle; banks = at.ready.banks; same = at.ready.same };
    same = at.same;
    empty = refl;
  }

  pub start_over : (s : Bench) → IsCleared s → At ba_size g r (view s.board.sdram.mem) s
  start_over s c = record { ready = c.ready; same = c.same; holds = refl }

  pub dump-At : (f : Plain) (s : Bench) → At ba_size g r f s → At ba_size g r f (dump s)
  dump-At f s at = record { ready = at.ready; same = at.same; holds = at.holds }

  check_passes :
      (throws : Handler) (x y : ℕ) (msg : Text) (s : Bench)
      → x ≡ y
      → check throws x y msg s ≡ done s
  unfolding check
  check_passes throws x y msg s e = rw (check, equal_match hex throws x y msg s.reports e) refl

  pub check-At :
      (throws : Handler) (x y : ℕ) (msg : Text) (f : Plain) (s : Bench)
      → At ba_size g r f s
      → x ≡ y
      → Returns (At ba_size g r f) (check throws x y msg s)
  check-At throws x y msg f s at e = done-Returns (check_passes throws x y msg s e) at

  pub check_mem-At :
      (throws : Handler) (word val : ℕ) (msg : Text) (f : Plain) (s : Bench)
      → At ba_size g r f s
      → f word ≡ val
      → Returns (At ba_size g r f) (check_mem throws word val msg s)
  unfolding check_mem check
  check_mem-At throws word val msg f s at e =
      check-At throws _ val msg f (with_mem (touch word s.board.sdram.mem) s)
        (record {
          ready = record { idle = at.ready.idle; banks = at.ready.banks; same = at.ready.same };
          same = at.same;
          holds = view-touch word s.board.sdram.mem ∙ at.holds;
        })
        (ap (λ (h : Plain). h word) at.holds ∙ e)

  pub start-At :
      (n : ℕ) (f : Plain) (s : Bench)
      → At ba_size g r f s
      → IsQuiet s.board
      → Returns (At ba_size g r f) (start n s)
  unfolding start
  start-At n f s at quiet =
      let (b, run, waited) = Returns-inv (waits ba_size g n s.board at.ready quiet) in
      done-Returns {a = record s { board = b }}
        (ap (λ (m : Run Board Board). on_board (λ b. b) s m >>= λ (b, t). done t) run)
        (record { ready = waited.0.0; same = at.same; holds = ap view waited.1 ∙ at.holds })

  module _ (a_size : ℕ) where
    pub settle-At :
        (f : Plain) (s : Bench)
        → At ba_size g r f s
        → Returns (At ba_size g r f) (settle a_size ba_size s)
    unfolding settle
    settle-At f s at =
        start-At 5 f (record s { board = do_nop a_size ba_size s.board })
          (record {
            ready = do_nop-IsReady a_size ba_size g s.board at.ready;
            same = at.same;
            holds = ap (λ d. view d.mem) (do_nop-sdram a_size ba_size s.board) ∙ at.holds;
          })
          (do_nop-IsQuiet a_size ba_size s.board)

    module _ (wired : IsWired a_size ba_size g) where
      pub write-At :
          (addr v : ℕ) (f : Plain) (s : Bench)
          → At ba_size g r f s
          → IsReached g addr
          → v < 2 ^ 32
          → Returns
              (λ t. At ba_size g r (put (addr / 4) v f) t × IsQuiet t.board)
              (write a_size ba_size addr v s)
      unfolding write
      write-At addr v f s at ok small =
          let (b, run, ready, same) =
            write_at_lem a_size ba_size g wired addr v s.board at.ready ok small in
          let quiet : IsQuiet b =
            subst (Ensures IsQuiet) run (write_at-IsQuiet a_size ba_size addr v s.board) in
          done-Returns {a = record s { board = b }} (rw run refl) (
            record { ready = ready; same = at.same; holds = same ∙ ap (put (addr / 4) v) at.holds },
            quiet,
          )

      pub read-At :
          (addr : ℕ) (f : Plain) (s : Bench)
          → At ba_size g r f s
          → IsReached g addr
          → Returns (λ (v, t). (v ≡ f (addr / 4)) × At ba_size g r f t) (read a_size ba_size addr s)
      unfolding read
      read-At addr f s at ok =
          let (b, run, ready, same) = read_at_lem a_size ba_size g wired addr s.board at.ready ok in
          done-Returns {a = (view s.board.sdram.mem (addr / 4), record s { board = b })}
            (rw run refl)
            (
              ap (λ (h : Plain). h (addr / 4)) at.holds,
              record { ready = ready; same = at.same; holds = same ∙ at.holds },
            )
