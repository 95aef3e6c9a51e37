-- ===== src/Initiator/Calls.antt =====
-- The helpers of tlms/commons/initiator.h in front of a target that returns, and of a memory that
-- refuses.
use mathlib.Core.Path.{fun_ext}
use deltamodels.Base.{
  ap, ◌∙◌, ℕ, ◌/◌, ◌<◌, ◌≡◌, ◌≢◌, ◌⊎◌, inl, inr, refl, true, false, Option, none, arith, u32, done,
  raised, Handler, error,
}
use deltamodels.Tlm.{Bytes, Call, Command, Payload, Response, Transport, memcpy, respond}
use deltamodels.Memory.{Memory, b_transport}
use deltamodels.Memory.Access.{b_transport_rejects}
use deltamodels.Initiator.{Initiator, Bench, settle, do_write, do_read}

-- The payload of a helper's call.
abbrev pub word : Command → ℕ → ℕ → ℕ → Option ℕ → Payload
word cmd p addr wid mask = record {
  command = cmd;
  address = addr;
  data_ptr = p;
  data_length = 4;
  streaming_width = u32 wid;
  byte_enable_ptr = mask;
  dmi_allowed = false;
  response = Response.incomplete;
}

settled :
    {D : Type 0} (throws : Handler) (target : Transport D) (s : Bench D) (d : D) (c : Call)
    → c.trans.response ≡ Response.ok
    → settle throws target s (done (d, c)) ≡ done (record s { devices = d; host = c.host })
unfolding settle
settled throws target s d c ok = rw ok refl

-- A call whose target returns with an OK response ends with the target's state and bytes.
pub write_returns :
    {D : Type 0} (throws : Handler) (target : Transport D) (s : Bench D) (p addr len wid : ℕ)
    (mask : Option ℕ) (d : D) (c : Call)
    → target
        (s.devices, record { host = s.host; trans = word Command.write p addr wid mask; delay = 0 })
      ≡ done (d, c)
    → c.trans.response ≡ Response.ok
    → do_write throws target p addr len wid mask s
      ≡ done (record {
        init = record { addr = addr; wid = wid; ptr = p; byt = mask };
        devices = d;
        host = c.host;
      })
unfolding do_write
write_returns throws target s p addr len wid mask d c ret ok =
    let i : Initiator = record { addr = addr; wid = wid; ptr = p; byt = mask } in
    ap (settle throws target (record s { init = i })) ret
    ∙ settled throws target (record s { init = i }) d c ok

pub read_returns :
    {D : Type 0} (throws : Handler) (target : Transport D) (s : Bench D) (p addr len wid : ℕ)
    (d : D) (c : Call)
    → target
        (s.devices, record { host = s.host; trans = word Command.read p addr len none; delay = 0 })
      ≡ done (d, c)
    → c.trans.response ≡ Response.ok
    → do_read throws target p addr len wid s
      ≡ done (record {
        init = record s.init { addr = addr; wid = len; ptr = p };
        devices = d;
        host = c.host;
      })
unfolding do_read
read_returns throws target s p addr len wid d c ret ok =
    let i : Initiator = record s.init { addr = addr; wid = len; ptr = p } in
    ap (settle throws target (record s { init = i })) ret
    ∙ settled throws target (record s { init = i }) d c ok

-- What was copied into an array and back out of it is what was there first.
pub memcpy-memcpy :
    (host mem src : Bytes) (q a p n : ℕ)
    → memcpy host q (memcpy mem a src p n) a n ≡ memcpy host q src p n
memcpy-memcpy host mem src q a p n = fun_ext λ j. ground arith

refused :
    (throws : Handler) (target : Transport Memory) (s : Bench Memory) (c : Call) (r : Response)
    → throws error ≡ true
    → r ≢ Response.ok
    → c.host ≡ s.host
    → settle throws target s (done (s.devices, respond r c))
      ≡ raised (record { severity = error; msg_type = "TLM-2" }) s
unfolding settle
refused throws target s c Response.ok halts ne same = absurd (ne refl)
refused throws target s c _ halts ne same = rw (halts, same) refl

-- The memory's reasons, for a payload of four bytes.
rejected :
    (m : Memory) (c : Call)
    → (m.size < c.trans.address / 4)
      ⊎ (c.trans.byte_enable_ptr ≢ none)
      ⊎ (c.trans.streaming_width < c.trans.data_length)
    → (m.size < c.trans.address / 4)
      ⊎ (c.trans.byte_enable_ptr ≢ none)
      ⊎ (4 < c.trans.data_length)
      ⊎ (c.trans.streaming_width < c.trans.data_length)
rejected m c (inl far) = inl far
rejected m c (inr (inl enables)) = inr (inl enables)
rejected m c (inr (inr narrow)) = inr (inr (inr narrow))

-- A write that a memory refuses, for an address past its end, for byte enables or for a streaming
-- width below 4, reaches the test bench as the initiator's error where an error report throws, with
-- the memory and the host's bytes as they were.
pub do_write_refused :
    (throws : Handler) (s : Bench Memory) (p addr len wid : ℕ) (mask : Option ℕ)
    → throws error ≡ true
    → (s.devices.size < addr / 4) ⊎ (mask ≢ none) ⊎ (u32 wid < 4)
    → do_write throws b_transport p addr len wid mask s
      ≡ raised
          (record { severity = error; msg_type = "TLM-2" })
          (record s { init = record { addr = addr; wid = wid; ptr = p; byt = mask } })
unfolding do_write
do_write_refused throws s p addr len wid mask halts bad =
    let s' : Bench Memory = record s {
      init = record { addr = addr; wid = wid; ptr = p; byt = mask };
    } in
    let c : Call = record {
      host = s.host;
      trans = word Command.write p addr wid mask;
      delay = 0;
    } in
    let (r, ret, ne) = b_transport_rejects s.devices c (rejected s.devices c bad) in
    ap (settle throws b_transport s') ret ∙ refused throws b_transport s' c r halts ne refl
