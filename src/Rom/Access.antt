-- ===== src/Rom/Access.antt =====
-- What a transport call to `TLM_ROM` promises: tlms/tlm_memories/tlm_rom.hpp.
use deltamodels.Base.{
  ◌+◌, ◌-◌, ◌^◌, ◌≤◌, ◌<◌, ◌≡◌, ◌⊎◌, inl, inr, refl, ℕ, ◌&&◌, leb, ltb, Bool-cases, arith,
  if◌then◌else◌, length, get_or, done, raised, undefined, Handler, error,
}
use deltamodels.Tlm.{Bytes, Call, Command, Response, memcpy, respond, address_error}
use deltamodels.Rom.{Rom, b_transport}

lt_or_ge : (a b : ℕ) → (a < b) ⊎ (b ≤ a)
lt_or_ge a b = elim (Bool-cases (ltb a b)) [
  | inl e ↦ inl (ground (arith, e))
  | inr e ↦ inr (ground (arith, e))
]

module _ (throws : Handler) (m : Rom) (c : Call) where
  -- A read of at least one byte, at a 64-bit address, that lies in the file succeeds and copies the
  -- file's bytes from the address, counted from the base address, into the caller's buffer; the
  -- report handler plays no part.
  b_transport_inside :
      c.trans.command ≡ Command.read
      → c.trans.address < 2 ^ 64
      → m.base_address ≤ c.trans.address
      → 0 < c.trans.data_length
      → c.trans.address - m.base_address + c.trans.data_length ≤ length m.bytes
      → b_transport throws (m, c)
        ≡ done (
          m,
          respond Response.ok (record c {
            host =
                memcpy c.host c.trans.data_ptr
                  (λ i. get_or m.bytes i 0)
                  (c.trans.address - m.base_address)
                  c.trans.data_length;
          }),
        )
  unfolding b_transport
  b_transport_inside cmd word base pos inside = ground arith

  -- A 64-bit address below the base or past the file is refused, where the base and the file lie
  -- below 2^64: the ROM's error is raised, or, where the report handler does not throw, the call
  -- returns with an address error; no byte moves.
  b_transport_outside :
      c.trans.address < 2 ^ 64
      → m.base_address < 2 ^ 64
      → length m.bytes + m.base_address ≤ 2 ^ 64
      → (c.trans.address < m.base_address) ⊎ (m.base_address + length m.bytes ≤ c.trans.address)
      → b_transport throws (m, c) ≡ (
          if throws error
          then raised (record { severity = error; msg_type = "TLM_ROM" }) (m, c)
          else done (m, respond address_error c))
  unfolding b_transport
  b_transport_outside word base room off = ground arith

  -- A write inside the file changes no byte. With a report handler that throws it ends in the ROM's
  -- error with an address-error response; with one that does not, the caller is told it succeeded.
  b_transport_writes :
      c.trans.command ≡ Command.write
      → c.trans.address < 2 ^ 64
      → m.base_address ≤ c.trans.address
      → c.trans.address < m.base_address + length m.bytes
      → b_transport throws (m, c) ≡ (
          if throws error
          then raised
              (record { severity = error; msg_type = "TLM_ROM" })
              (m, respond address_error c)
          else done (m, respond Response.ok c))
  unfolding b_transport
  b_transport_writes cmd word base inside = ground arith

  -- Only a read's first byte is checked: one that starts in the file and runs past its end leaves
  -- the vector.
  b_transport_overrun :
      c.trans.command ≡ Command.read
      → c.trans.address < 2 ^ 64
      → m.base_address ≤ c.trans.address
      → c.trans.address < m.base_address + length m.bytes
      → length m.bytes < c.trans.address - m.base_address + c.trans.data_length
      → b_transport throws (m, c) ≡ undefined
  unfolding b_transport
  b_transport_overrun cmd word base inside over = ground arith

  -- A read of at least one byte at a 64-bit address, of a file that lies below 2^64 from its base on,
  -- has one of three ends. Inside the file it returns with an OK response, each byte of the buffer
  -- is the file's byte as far behind the address's distance from the base, and no other byte of the
  -- host has changed. Starting below the base or behind the file it raises the ROM's error, or
  -- returns with an address error where that does not throw; no byte moves. Starting in the file and
  -- running past its end it leaves the vector.
  pub b_transport_reads :
      c.trans.command ≡ Command.read
      → c.trans.address < 2 ^ 64
      → length m.bytes + m.base_address < 2 ^ 64
      → 0 < c.trans.data_length
      → ((m.base_address ≤ c.trans.address)
          × (c.trans.address + c.trans.data_length ≤ m.base_address + length m.bytes)
          × (host : Bytes) × (b_transport throws (m, c)
              ≡ done (m, respond Response.ok (record c { host = host })))
          × ((j : ℕ)
              → host j ≡ (
                  if leb c.trans.data_ptr j && ltb j (c.trans.data_ptr + c.trans.data_length)
                  then get_or m.bytes (c.trans.address - m.base_address + (j - c.trans.data_ptr)) 0
                  else c.host j)))
        ⊎ (((c.trans.address < m.base_address)
              ⊎ (m.base_address + length m.bytes ≤ c.trans.address))
            × (b_transport throws (m, c) ≡ (
                if throws error
                then raised (record { severity = error; msg_type = "TLM_ROM" }) (m, c)
                else done (m, respond address_error c))))
        ⊎ ((m.base_address ≤ c.trans.address)
            × (c.trans.address < m.base_address + length m.bytes)
            × (m.base_address + length m.bytes < c.trans.address + c.trans.data_length)
            × (b_transport throws (m, c) ≡ undefined))
  b_transport_reads cmd word room pos =
      let size = length m.bytes in
      let a = c.trans.address in
      let base = m.base_address in
      let outside : (a < base) ⊎ (base + size ≤ a)
          → b_transport throws (m, c) ≡ (
              if throws error
              then raised (record { severity = error; msg_type = "TLM_ROM" }) (m, c)
              else done (m, respond address_error c)) =
        λ off. b_transport_outside word (omega arith) (omega arith) off in
      elim (lt_or_ge a base) [
        | inl below ↦ inr (inl (inl below, outside (inl below)))
        | inr above ↦ elim (lt_or_ge a (base + size)) [
          | inr behind ↦ inr (inl (inr behind, outside (inr behind)))
          | inl starts ↦ elim (lt_or_ge (base + size) (a + c.trans.data_length)) [
            | inl over ↦
                inr (
                  inr
                    (above, starts, over, b_transport_overrun cmd word above starts (omega arith)))
            | inr fits ↦
                inl (above, fits, _, b_transport_inside cmd word above pos (omega arith), λ j. refl)
          ]
        ]
      ]
