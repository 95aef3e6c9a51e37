-- ===== src/Rom/Tests.antt =====
-- Runs of the models of tlms/tlm_memories/tlm_rom.hpp on a file of three bytes.
use deltamodels.Base.{
  ◌+◌, ◌-◌, ◌≤◌, ◌<◌, ◌⊎◌, ◌&&◌, leb, ltb, if◌then◌else◌, raised, undefined, error, ℕ, ◌≡◌, refl,
  none, [], ◌∷◌, arith, false, get_or, done, default_handler,
}
use deltamodels.Tlm.{Bytes, Call, Command, Response, respond}
use deltamodels.Rom.{Rom, b_transport}
use deltamodels.Rom.Access.{b_transport_reads}

abbrev rom : Rom
rom = record { base_address = 0x100; bytes = 7 ∷ 8 ∷ 9 ∷ [] }

abbrev call : Command → ℕ → ℕ → Call
call cmd address len = record {
  host = λ j. 0;
  trans = record {
    command = cmd;
    address = address;
    data_ptr = 0;
    data_length = len;
    streaming_width = len;
    byte_enable_ptr = none;
    dmi_allowed = false;
    response = Response.incomplete;
  };
  delay = 0;
}

-- The last byte of the file is read.
b_transport_reads_example :
    ((0x100 ≤ 0x101)
      × (0x101 + 2 ≤ 0x100 + 3)
      × (host : Bytes) × (b_transport default_handler (rom, call Command.read 0x101 2)
          ≡ done (rom, respond Response.ok (record (call Command.read 0x101 2) { host = host })))
      × ((j : ℕ)
          → host j ≡ (
              if leb 0 j && ltb j (0 + 2)
              then get_or (7 ∷ 8 ∷ 9 ∷ []) (0x101 - 0x100 + (j - 0)) 0
              else 0)))
    ⊎ (((0x101 < 0x100) ⊎ (0x100 + 3 ≤ 0x101))
        × (b_transport default_handler (rom, call Command.read 0x101 2)
            ≡ raised
                (record { severity = error; msg_type = "TLM_ROM" })
                (rom, call Command.read 0x101 2)))
    ⊎ ((0x100 ≤ 0x101)
        × (0x101 < 0x100 + 3)
        × (0x100 + 3 < 0x101 + 2)
        × (b_transport default_handler (rom, call Command.read 0x101 2) ≡ undefined))
b_transport_reads_example =
    b_transport_reads default_handler rom (call Command.read 0x101 2) refl (omega arith)
      (omega arith) (omega arith)
