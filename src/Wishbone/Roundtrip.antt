-- ===== src/Wishbone/Roundtrip.antt =====
-- A word written through the bridge and read back through it
-- (tlms/tlm_adapters/tlm2wishbone.hpp and models/wishbone/wbram.hpp).
use deltamodels.Base.{
  ℕ, ◌+◌, ◌-◌, ◌/◌, ◌<◌, ◌≡◌, ap, ◌∙◌, some, none, ◌&&◌, leb, ltb, if◌then◌else◌, arith, done,
  Handler, SameLanes,
}
use deltamodels.Tlm.{Bytes, Payload, Command}
use deltamodels.WbRam.{merge, update, find_word}
use deltamodels.WbRam.Words.{merge_lanes}
use deltamodels.Bridge.{pack_data, pack_enables, unpack_data}
use deltamodels.Bridge.Lanes.{pack_data_lanes, pack_enables_all, unpack_data_lanes}
use deltamodels.Wishbone.{Bus, one_beat_call}
use deltamodels.Wishbone.Calls.{IsBeat, IsFree, call_writes, call_reads}

-- With every byte enabled the merged word's lanes are the caller's bytes.
stored_lanes :
    (host : Bytes) (p w d e : ℕ)
    → ((j : ℕ) → host j < 256)
    → SameLanes
        (merge w (pack_data host p d) (pack_enables host none e))
        (host (p + 3))
        (host (p + 2))
        (host (p + 1))
        (host p)
stored_lanes host p w d e bytes = ground (
  arith,
  merge_lanes w (pack_data host p d) (pack_enables host none e),
  pack_data_lanes host p d bytes,
  pack_enables_all host e,
)

-- The call's payload asks for one beat on a word of the memory, with every byte enabled.
pub record IsOneBeat (s : Bus) (c : Command) (p : Payload) : Type 0 where
  pub beat : IsBeat s.ram.mem_size c p
  pub all_bytes : p.byte_enable_ptr ≡ none

module _ (throws : Handler) (x_word : ℕ) where
  read_back :
      (s t v : Bus) (w r : Payload) (j : ℕ)
      → ((i : ℕ) → s.host i < 256)
      → r.address / 4 ≡ w.address / 4
      → t.host ≡ s.host
      → t.ram.memory
        ≡ update s.ram.memory (w.address / 4) (
            merge
              (find_word throws x_word (w.address / 4) s.ram)
              (pack_data s.host w.data_ptr s.bridge.bv_data)
              (pack_enables s.host none s.bridge.bv_byteen))
      → v.host ≡ unpack_data t.host r.data_ptr (find_word throws x_word (r.address / 4) t.ram)
      → v.host j ≡ (
          if leb r.data_ptr j && ltb j (r.data_ptr + 4)
          then s.host (w.data_ptr + (j - r.data_ptr))
          else s.host j)
  unfolding find_word
  read_back s t v w r j bytes same host mem read =
      let stored : ℕ =
        merge (find_word throws x_word (w.address / 4) s.ram)
          (pack_data s.host w.data_ptr s.bridge.bv_data)
          (pack_enables s.host none s.bridge.bv_byteen) in
      let cell : t.ram.memory (w.address / 4) ≡ some stored = rw mem (ground arith) in
      let found : find_word throws x_word (r.address / 4) t.ram ≡ stored =
        rw same (rw (cell, find_word)) in
      ap (λ (h : Bytes). h j) read
      ∙ rw (found, host)
          (unpack_data_lanes s.host s.host r.data_ptr w.data_ptr stored j
            (stored_lanes s.host w.data_ptr _ _ _ bytes))

  -- On a bus with no strobe and no acknowledge pending, a time-out above 2 and a host of bytes, a
  -- one-beat write call with every byte enabled, to a word of the memory, returns after three
  -- edges, and a one-beat read call of the same word then returns after three more; the reader's
  -- four bytes are then the writer's, in order, and the rest of the host's memory is as it was.
  call_roundtrip :
      (s : Bus) (w r : Payload) (j : ℕ)
      → IsFree s
      → ((i : ℕ) → s.host i < 256)
      → IsOneBeat s Command.write w
      → IsOneBeat s Command.read r
      → r.address / 4 ≡ w.address / 4
      → (t : Bus) × (v : Bus) × (one_beat_call throws x_word w s ≡ done t)
        × (t.bridge.waiting ≡ none)
        × (one_beat_call throws x_word r t ≡ done v)
        × (v.bridge.waiting ≡ none)
        × (v.host j ≡ (
            if leb r.data_ptr j && ltb j (r.data_ptr + 4)
            then s.host (w.data_ptr + (j - r.data_ptr))
            else s.host j))
  call_roundtrip s w r j free bytes ws rs same =
      let (t, run, over, free', size, host, mem) = call_writes throws x_word s w free ws.beat in
      let rs' : IsBeat t.ram.mem_size Command.read r = record {
        asks = rs.beat.asks;
        word = rw size rs.beat.word;
        positive = rs.beat.positive;
        single = rs.beat.single;
      } in
      let (v, run', over', free'', size', mem', host') = call_reads throws x_word t r free' rs' in
      let all : t.ram.memory
          ≡ update s.ram.memory (w.address / 4) (
              merge (find_word throws x_word (w.address / 4) s.ram)
                (pack_data s.host w.data_ptr s.bridge.bv_data)
                (pack_enables s.host none s.bridge.bv_byteen)) =
        rw (← ws.all_bytes) mem in
      (t, v, run, over, run', over', read_back s t v w r j bytes same host all host')
