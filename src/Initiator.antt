-- ===== src/Initiator.antt =====
-- tlms/commons/initiator.h: `Initiator` and the helpers that start it, in front of any transport
-- function. Raising `we` or `re` runs one round of the thread that waits for it; the target is taken
-- to return without waiting, as the memories and the router do. Console output is left out.
pub mod Calls
pub mod Banks
pub mod Space
pub mod Stops
pub mod System
pub mod Tests
use deltamodels.Base.{
  ℕ, Bool, true, false, Option, none, some, if◌then◌else◌, u32, Run, done, raised, undefined,
  Handler, error, report, ◌>>=◌,
}
use deltamodels.Tlm.{Bytes, Call, Command, Payload, Response, Transport, is_response_error}

pub record Initiator : Type 0 where
  pub addr : ℕ
  pub wid : ℕ
  pub ptr : ℕ
  pub byt : Option ℕ

-- The initiator, what stands behind its socket and the host's bytes.
pub record Bench (D : Type 0) : Type 0 where
  pub init : Initiator
  pub devices : D
  pub host : Bytes

-- The payload of one round; only writes have byte enables.
payload_of : Command → Option ℕ → Initiator → Payload
payload_of cmd byt i = record {
  command = cmd;
  address = i.addr;
  data_ptr = i.ptr;
  data_length = 4;
  streaming_width = u32 i.wid;
  byte_enable_ptr = byt;
  dmi_allowed = false;
  response = Response.incomplete;
}

module _ {D : Type 0} (throws : Handler) (target : Transport D) where
  back : Bench D → D × Call → Bench D
  back s (d, c) = record s { devices = d; host = c.host }

  -- The check of the response after the call.
  check : Bench D → D × Call → Run (Bench D) (Bench D)
  unfolding back
  check s (d, c) =
      if is_response_error c.trans.response
      then (report throws error "TLM-2" (back s (d, c)) >>= λ _. done (back s (d, c)))
      else done (back s (d, c))

  -- How the thread goes on when the call ends.
  pub settle : Bench D → Run (D × Call) (D × Call) → Run (Bench D) (Bench D)
  unfolding back check
  settle s (done r) = check s r
  settle s (raised e r) = raised e (back s r)
  settle s undefined = undefined

  send : Payload → Bench D → Run (Bench D) (Bench D)
  unfolding settle
  send p s = settle s (target (s.devices, record { host = s.host; trans = p; delay = 0 }))

  pwrite : Bench D → Run (Bench D) (Bench D)
  unfolding payload_of send
  pwrite s = send (payload_of Command.write s.init.byt s.init) s

  pread : Bench D → Run (Bench D) (Bench D)
  unfolding payload_of send
  pread s = send (payload_of Command.read none s.init) s

  -- `_initiator_dowrite` with all its arguments; `len` is not used.
  pub do_write : ℕ → ℕ → ℕ → ℕ → Option ℕ → Bench D → Run (Bench D) (Bench D)
  unfolding pwrite
  do_write ptr addr len wid mask s =
      pwrite (record s { init = record { addr = addr; wid = wid; ptr = ptr; byt = mask } })

  pub do_write_len : ℕ → ℕ → ℕ → Bench D → Run (Bench D) (Bench D)
  unfolding do_write
  do_write_len ptr addr len s = do_write ptr addr len len none s

  -- `_initiator_doread`: `wid` is not used, and the streaming width is `len`.
  pub do_read : ℕ → ℕ → ℕ → ℕ → Bench D → Run (Bench D) (Bench D)
  unfolding pread
  do_read ptr addr len wid s =
      pread (record s { init = record s.init { addr = addr; wid = len; ptr = ptr } })

  pub do_read_len : ℕ → ℕ → ℕ → Bench D → Run (Bench D) (Bench D)
  unfolding do_read
  do_read_len ptr addr len s = do_read ptr addr len len s
