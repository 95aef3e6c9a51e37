-- ===== src/Sdram/Replay.antt =====
-- What the log of models/memories/sdram/generic_sdram.hpp tells of its memory.
use deltamodels.Base.{
  ℕ, zero, suc, ◌+◌, ◌-◌, ◌^◌, ◌<◌, ◌≤◌, ◌≡◌, refl, sym, Bool, true, false, List, [], ◌∷◌, ◌++◌,
  arith, ◌==◌, if◌then◌else◌, u32, shr, done,
}
use deltamodels.Sdram.{
  Sdram, Line, backdoor_copied, backdoor_cleared, fetch, touch, store, info, to_wishbone,
}
use deltamodels.Sdram.Backdoor.{
  Backdoor, from_wishbone, copy_word, copy_words, clear_words, backdoor_handler,
}
use deltamodels.Sdram.History.{
  History, no_lines, one_line, then_lines, view, view-store, view-touch, put,
  from_wishbone-to_wishbone, Legal, replay,
}
use deltamodels.Sdram.Runs.{Event, edge, backdoor, run_event, run_events, Fits, Drives, AllDrive}
use deltamodels.Sdram.Steps.{Goes, refit, sdram_handler-Goes}

module _ (a_size ba_size : ℕ) where
  copy_word-History :
      (from to : ℕ) (s : Sdram) → s.offset < 2 ^ 32 → to < 2 ^ 30 → History s (copy_word from to s)
  unfolding copy_word
  copy_word-History from to s small low =
      let mem' = touch from s.mem in
      one_line s _ (backdoor_copied (to_wishbone s.offset to) (fetch from mem')) refl tt
        (rw (from_wishbone-to_wishbone s.offset to small low, sym (view-touch from s.mem))
          (sym (view-store to (fetch from mem') mem')))
        refl

  abbrev Moves : Sdram → Sdram → Type 0
  Moves s t = History s t × Fits a_size ba_size t

  if-Moves :
      (b : Bool) (s t : Sdram) → Fits a_size ba_size s → Moves s t → Moves s (if b then t else s)
  if-Moves true s t fits moves = moves
  if-Moves false s t fits moves = (no_lines s, fits)

  copy_words-Moves :
      (n i from to : ℕ) (s : Sdram)
      → Fits a_size ba_size s
      → to + i + n ≤ 2 ^ 30
      → Moves s (copy_words n i from to s)
  unfolding copy_words
  copy_words-Moves zero i from to s fits room = (no_lines s, fits)
  copy_words-Moves (suc n) i from to s fits room =
      let one = copy_word (u32 (from + i)) (u32 (to + i)) s in
      let (h, fits') =
        copy_words-Moves n (i + 1) from to one (refit a_size ba_size s one refl refl refl fits)
          (omega arith) in
      (then_lines s one _ (copy_word-History _ _ s fits.low (omega arith)) h, fits')

  clear_words-Moves :
      (n i : ℕ) (s : Sdram) → Fits a_size ba_size s → i + n ≤ 2 ^ 30 → Moves s (clear_words n i s)
  unfolding clear_words
  clear_words-Moves zero i s fits room = (no_lines s, fits)
  clear_words-Moves (suc n) i s fits room =
      let l = backdoor_cleared (to_wishbone s.offset i) in
      let one : Sdram = record (info l s) { mem = store i 0 s.mem } in
      let (h, fits') =
        clear_words-Moves n (i + 1) one (refit a_size ba_size s one refl refl refl fits)
          (omega arith) in
      let word = from_wishbone-to_wishbone s.offset i fits.low (omega arith) in
      let told : put (from_wishbone s.offset (to_wishbone s.offset i)) 0 (view s.mem)
          ≡ view one.mem =
        rw word (sym (view-store i 0 s.mem)) in
      (then_lines s one _ (one_line s one l refl tt told refl) h, fits')

  backdoor_handler-Moves :
      (b : Backdoor) (s : Sdram)
      → Fits a_size ba_size s
      → Drives a_size ba_size s.offset (backdoor b)
      → Moves s (backdoor_handler b s)
  unfolding backdoor_handler
  backdoor_handler-Moves b s fits room =
      let from : ℕ = from_wishbone s.offset b.clear_from in
      let n : ℕ = from_wishbone s.offset b.clear_to - from in
      let (h, fits') = if-Moves (b.copy == 1) s _ fits (
        copy_words-Moves (shr b.copy_size 2) 0 (from_wishbone s.offset b.copy_from)
          (from_wishbone s.offset b.copy_to) s fits (omega arith)) in
      let (k, fits'') =
        if-Moves (b.clear == 1) _ _ fits' (clear_words-Moves n from _ fits' (omega arith)) in
      (then_lines s _ _ h k, fits'')

  run_event-Goes :
      (e : Event) (s : Sdram)
      → Fits a_size ba_size s
      → Drives a_size ba_size s.offset e
      → Goes a_size ba_size (run_event e s) s
  unfolding run_event
  run_event-Goes (edge p) s fits pins = sdram_handler-Goes a_size ba_size p s fits pins.0 pins.1
  run_event-Goes (backdoor b) s fits room =
      let (h, fits') = backdoor_handler-Moves b s fits room in
      (backdoor_handler b s, refl, h, fits')

  run_events-Goes :
      (es : List Event) (s : Sdram)
      → Fits a_size ba_size s
      → AllDrive a_size ba_size s.offset es
      → Goes a_size ba_size (run_events es s) s
  unfolding run_events
  run_events-Goes [] s fits pins = (s, refl, no_lines s, fits)
  run_events-Goes (e ∷ es) s fits pins =
      let (t, run, h, fits') = run_event-Goes e s fits pins.0 in
      let (u, runs, k, fits'') = run_events-Goes es t fits' (rw h.kept pins.1) in
      (u, rw run runs, then_lines s t u h k, fits'')

  -- A chip with a bank for every bank address, rows that fit the address pins, a 32-bit offset and
  -- word addresses below 2^30 never fails under any sequence of clock edges and backdoor requests,
  -- if the address and bank pins keep to their widths and copies end below word address 2^30. The
  -- lines that it adds to the log are a history of its memory: each requested read names the word
  -- that the lines before it left at its address, and all the lines together, applied to the memory
  -- before, give the memory after it, as reads see it. The chip's rows still fit.
  pub log_replays :
      (es : List Event) (s : Sdram)
      → Fits a_size ba_size s
      → AllDrive a_size ba_size s.offset es
      → (t : Sdram) × (lines : List Line) × (run_events es s ≡ done t)
        × (t.log ≡ s.log ++ lines)
        × Legal s.offset lines (view s.mem)
        × (replay s.offset lines (view s.mem) ≡ view t.mem)
        × Fits a_size ba_size t
  log_replays es s fits pins =
      let (t, run, h, fits') = run_events-Goes es s fits pins in
      (t, h.lines, run, h.logged, h.legal, h.told, fits')
