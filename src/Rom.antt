-- ===== src/Rom.antt =====
-- tlms/tlm_memories/tlm_rom.hpp: `TLM_ROM`. The bytes of the file that the constructor reads are a
-- parameter; a read past their end is undefined, as `std::vector`'s operator[] is.
pub mod Access
pub mod Tests
use deltamodels.Base.{
  ℕ, ◌+◌, Bool, true, List, leb, if◌then◌else◌, sub64, length, get_or, Run, done, Handler, error,
  report, in_bounds, ◌>>=◌, ◌>>◌,
}
use deltamodels.Tlm.{Call, Command, Response, Transport, memcpy, respond, address_error}

pub record Rom : Type 0 where
  pub base_address : ℕ
  pub bytes : List ℕ

-- The loop over `ptr[i] = ROM[addr+i]`.
copy_out : ℕ → Rom × Call → Run (Rom × Call) (Rom × Call)
copy_out addr (m, c) = do
  let len = c.trans.data_length
  in_bounds (leb (addr + len) (length m.bytes))
  done (m, record c { host = memcpy c.host c.trans.data_ptr (λ i. get_or m.bytes i 0) addr len })

-- What each command does before the response is set to OK.
serve : Handler → Command → ℕ → Rom × Call → Run (Rom × Call) (Rom × Call)
unfolding copy_out
serve throws Command.read addr s = copy_out addr s
serve throws Command.write addr (m, c) = do
  report throws error "TLM_ROM" (m, respond address_error c)
  done (m, respond address_error c)
serve throws Command.ignore addr s = done s

pub b_transport : Handler → Transport Rom
unfolding serve
b_transport throws (m, c) =
    let addr = sub64 c.trans.address m.base_address in
    let outside = do report throws error "TLM_ROM" (m, c); done (m, respond address_error c)
    in let inside = do
      (m', c') ← serve throws c.trans.command addr (m, c)
      done (m', respond Response.ok c')
      in if leb (length m.bytes) addr then outside else inside
