-- ===== src/Wishbone/Refine.antt =====
-- Sequences of calls on the bus against a plain array of bytes
-- (tlms/tlm_adapters/tlm2wishbone.hpp and models/wishbone/wbram.hpp).
use mathlib.Core.Path.{fun_ext}
use deltamodels.Base.{
  ℕ, ◌+◌, ◌-◌, ◌*◌, ◌/◌, ◌%◌, ◌<◌, ◌≡◌, ◌⊎◌, inl, inr, refl, ap, ◌∙◌, ◌&&◌, Option, none, some,
  List, [], ◌∷◌, arith, ◌==◌, if◌then◌else◌, get_byte, get_byte-lt, Run, done, Handler, ◌>>=◌,
}
use deltamodels.Tlm.{Bytes, Payload, Command, memcpy}
use deltamodels.WbRam.{WbRam, merge, update, find_word}
use deltamodels.Bridge.{idle, pack_data, pack_enables, unpack_data}
use deltamodels.Bridge.Lanes.{unpack_data_lanes}
use deltamodels.Wishbone.{Bus, one_beat_call}
use deltamodels.Wishbone.Calls.{IsBeat, IsFree, call_writes, call_reads}
use deltamodels.Wishbone.Flat.{
  Flat, selected, flat_ext, flat_call, flat_calls, AllBeats, merged_byte,
}

module _ (throws : Handler) (x_word : ℕ) where
  -- What the memory stores, byte by byte; the first byte of a word is its highest lane.
  abbrev pub stored : WbRam → Bytes
  stored r j = get_byte (find_word throws x_word (j / 4) r) (3 - j % 4)

  abbrev pub view : Bus → Flat
  view s = record { cells = stored s.ram; host = s.host }

  -- One call after the other.
  pub calls : List Payload → Bus → Run Bus Bus
  calls [] s = done s
  calls (p ∷ ps) s = one_beat_call throws x_word p s >>= calls ps

  stored_at :
      (r : WbRam) (a k j : ℕ)
      → k < 4
      → j ≡ 4 * a + k
      → get_byte (find_word throws x_word a r) (3 - k) ≡ stored r j
  stored_at r a k j h at =
      let word : j / 4 ≡ a = omega arith in
      let byte : j % 4 ≡ k = omega arith in rw (word, byte) refl

  update-stored :
      (r t : WbRam) (a w : ℕ) (j : ℕ)
      → t.memory ≡ update r.memory a w
      → stored t j ≡ (if j / 4 == a then get_byte w (3 - j % 4) else stored r j)
  unfolding find_word
  update-stored r t a w j h =
      ap
        (λ (m : ℕ → Option ℕ).
          get_byte (elim (m (j / 4)) [ some v ↦ v | none ↦ x_word ]) (3 - j % 4))
        h
      ∙ ground arith

  write_refines :
      (s t : Bus) (p : Payload)
      → p.command ≡ Command.write
      → ((j : ℕ) → s.host j < 256)
      → t.host ≡ s.host
      → t.ram.memory
        ≡ update s.ram.memory (p.address / 4) (
            merge
              (find_word throws x_word (p.address / 4) s.ram)
              (pack_data s.host p.data_ptr s.bridge.bv_data)
              (pack_enables s.host p.byte_enable_ptr s.bridge.bv_byteen))
      → view t ≡ flat_call p (view s)
  write_refines s t p asks bytes host mem =
      let w = find_word throws x_word (p.address / 4) s.ram in
      let cell : (j : ℕ)
          → stored t.ram j ≡ (
              if j / 4 == p.address / 4 && selected s.host p.byte_enable_ptr (j % 4)
              then s.host (p.data_ptr + j % 4)
              else stored s.ram j) =
        λ j.
          update-stored s.ram t.ram (p.address / 4) _ j mem
          ∙ ground (
            arith,
            merged_byte s.host p.data_ptr s.bridge.bv_data s.bridge.bv_byteen w p.byte_enable_ptr
                bytes (j % 4) (omega arith),
          ) in
      rw asks (flat_ext (fun_ext cell) host)

  read_refines :
      (s t : Bus) (p : Payload)
      → p.command ≡ Command.read
      → t.ram.memory ≡ s.ram.memory
      → t.host ≡ unpack_data s.host p.data_ptr (find_word throws x_word (p.address / 4) s.ram)
      → view t ≡ flat_call p (view s)
  unfolding find_word
  read_refines s t p asks mem host =
      let a = p.address / 4 in
      let w = find_word throws x_word a s.ram in
      let cell : (j : ℕ) → t.host j ≡ memcpy s.host p.data_ptr (stored s.ram) (4 * a) 4 j = λ j.
        ap (λ (m : Bytes). m j) host
        ∙ unpack_data_lanes s.host (stored s.ram) p.data_ptr (4 * a) w j (
          stored_at s.ram a 3 (4 * a + 3) (omega arith) refl,
          stored_at s.ram a 2 (4 * a + 2) (omega arith) refl,
          stored_at s.ram a 1 (4 * a + 1) (omega arith) refl,
          stored_at s.ram a 0 (4 * a) (omega arith) (omega arith),
        ) in
      rw asks (
        flat_ext
          (fun_ext λ j.
            ap
              (λ (m : ℕ → Option ℕ).
                get_byte (elim (m (j / 4)) [ some v ↦ v | none ↦ x_word ]) (3 - j % 4))
              mem)
          (fun_ext cell))

  -- Reading keeps the caller's bytes bytes.
  read-bytes :
      (f : Flat) (p : Payload)
      → ((j : ℕ) → f.host j < 256)
      → ((j : ℕ) → f.cells j < 256)
      → (j : ℕ) → memcpy f.host p.data_ptr f.cells (4 * (p.address / 4)) 4 j < 256
  read-bytes f p host cells j =
      ground (arith, host j, cells (4 * (p.address / 4) + (j - p.data_ptr)))

  one_refines :
      (s : Bus) (p : Payload)
      → IsFree s
      → ((j : ℕ) → s.host j < 256)
      → (IsBeat s.ram.mem_size Command.write p) ⊎ (IsBeat s.ram.mem_size Command.read p)
      → (t : Bus) × (one_beat_call throws x_word p s ≡ done t)
        × (t.bridge.waiting ≡ none)
        × IsFree t
        × (t.ram.mem_size ≡ s.ram.mem_size)
        × ((j : ℕ) → t.host j < 256)
        × (view t ≡ flat_call p (view s))
  one_refines s p free bytes (inl w) =
      let (t, run, over, free', size, host, mem) = call_writes throws x_word s p free w in
      (t, run, over, free', size, λ j. rw host (bytes j), write_refines s t p w.asks bytes host mem)
  one_refines s p free bytes (inr r) =
      let (t, run, over, free', size, mem, host) = call_reads throws x_word s p free r in
      let same : view t ≡ flat_call p (view s) = read_refines s t p r.asks mem host in
      let read : flat_call p (view s) ≡ record (view s) {
        host = memcpy s.host p.data_ptr (stored s.ram) (4 * (p.address / 4)) 4;
      } =
        rw r.asks refl in
      let bytes' : (j : ℕ) → t.host j < 256 = λ j.
        rw (ap (λ (f : Flat). f.host j) (same ∙ read))
          (read-bytes (view s) p bytes (λ k. get_byte-lt _ _) j) in
      (t, run, over, free', size, bytes', same)

  -- Any sequence of reads and writes of one beat, with a positive streaming width equal to the data
  -- length and word addresses up to the memory's size, with any byte enables, started on a free bus
  -- with a 32-bit memory size, a time-out above 2 and a host of bytes, runs to its end with three
  -- edges for each call. The last callback has then returned, the bridge's process is idle, and the
  -- bus is free again; the memory's and the caller's bytes are those that the same calls leave in a
  -- plain array of bytes and its caller.
  pub calls_refine :
      (ps : List Payload) (s : Bus)
      → IsFree s
      → ((j : ℕ) → s.host j < 256)
      → AllBeats s.ram.mem_size ps
      → (t : Bus) × (calls ps s ≡ done t)
        × (t.bridge.waiting ≡ none)
        × (t.bridge.state ≡ idle)
        × IsFree t
        × (view t ≡ flat_calls ps (view s))
  unfolding calls
  calls_refine [] s free bytes beats = (s, refl, free.returned, free.resting, free, refl)
  calls_refine (p ∷ ps) s free bytes beats =
      let (t, run, over, free', size, bytes', same) = one_refines s p free bytes beats.0 in
      let (u, runs, over', rests, free'', all) = calls_refine ps t free' bytes' (rw size beats.1) in
      (u, rw run runs, over', rests, free'', all ∙ ap (flat_calls ps) same)
