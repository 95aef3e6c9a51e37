-- ===== src/Tlm.antt =====
-- What the blocks of tlms/ exchange: the fields of `tlm_generic_payload` that they read or write,
-- the bytes that its pointers point to, and the blocking transport call. A pointer is an address of
-- the host's bytes; the caller's buffers are taken to be large enough for what a block copies.
use deltamodels.Base.{ℕ, ◌+◌, ◌-◌, Bool, true, false, ◌&&◌, Option, leb, ltb, if◌then◌else◌, Run}

-- `tlm_command`
pub data Command : Type 0 where
  read write ignore : Command

-- The values of `tlm_response_status` that the blocks set.
pub data Response : Type 0 where
  ok incomplete address_error byte_enable_error burst_error : Response

-- `is_response_error`: every status but TLM_OK_RESPONSE, the initial one included.
abbrev pub is_response_error : Response → Bool
is_response_error Response.ok = false
is_response_error _ = true

pub record Payload : Type 0 where
  pub command : Command
  pub address : ℕ
  pub data_ptr : ℕ
  pub data_length : ℕ
  pub streaming_width : ℕ
  pub byte_enable_ptr : Option ℕ
  pub dmi_allowed : Bool
  pub response : Response

abbrev pub Bytes : Type 0
Bytes = ℕ → ℕ

-- `memcpy(dst + d, src + s, n)` between different objects.
abbrev pub memcpy : Bytes → ℕ → Bytes → ℕ → ℕ → Bytes
memcpy dst d src s n j = if leb d j && ltb j (d + n) then src (s + (j - d)) else dst j

-- The arguments of `b_transport(trans, delay)`, with the host's bytes. The delay is in ns.
pub record Call : Type 0 where
  pub host : Bytes
  pub trans : Payload
  pub delay : ℕ

-- A block with state `D` behind a target socket.
abbrev pub Transport : Type 0 → Type 0
Transport D = D × Call → Run (D × Call) (D × Call)

abbrev pub respond : Response → Call → Call
respond r c = record c { trans = record c.trans { response = r } }
