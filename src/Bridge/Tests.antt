-- ===== src/Bridge/Tests.antt =====
-- Runs of the models of tlms/tlm_adapters/tlm2wishbone.hpp.
use deltamodels.Base.{
  ℕ, ◌+◌, ◌-◌, ◌^◌, ◌≡◌, refl, none, some, arith, true, false, raised, default_handler, error,
}
use deltamodels.Bridge.{Bridge, Side, idle, executing_write, waiting_for_ack, wishbone_handler}
use deltamodels.Bridge.Beats.{resumes, Progress, resumes-Progress, resumes_finish, resumes_overrun}
use deltamodels.Bridge.Edges.{handler_times_out}

-- In the middle of a write, waiting for an acknowledge, with streaming width `n` and length 4.
abbrev writing : ℕ → Bridge
writing n = record {
  state = waiting_for_ack;
  adr = 8;
  ptr = 100;
  len = 4;
  byt = none;
  wid = n;
  wnr = true;
  bv_data = 0;
  bv_byteen = 0;
  timeout = 3;
  elapsed = 2;
  waiting = some executing_write;
  adr_o = 8;
  dat_o = 0;
  we_o = true;
  sel_o = 15;
  stb_o = true;
  cyc_o = true;
}

resumes-Progress_example : Progress 2 (writing 12) (resumes 2 executing_write (writing 12))
resumes-Progress_example =
    resumes-Progress 2 executing_write (writing 12) (omega arith) (omega arith) (omega arith)
      (omega arith)

resumes_finish_example :
    ((resumes 2 executing_write (writing 12)).waiting ≡ some executing_write)
    × ((resumes 3 executing_write (writing 12)).waiting ≡ none)
resumes_finish_example =
    resumes_finish 2 executing_write (writing 12) (omega arith) refl (omega arith) (omega arith)

resumes_overrun_example :
    ((resumes 3 executing_write (writing 10)).waiting ≡ some executing_write)
    × ((resumes 3 executing_write (writing 10)).wid ≡ 2 ^ 32 + 10 - 12)
resumes_overrun_example =
    resumes_overrun 2 executing_write (writing 10) (omega arith) (omega arith) (omega arith)
      (omega arith) (omega arith)

handler_times_out_example :
    (s : Side) × (wishbone_handler default_handler true 0 (writing 4) (λ j. 0)
      ≡ raised (record { severity = error; msg_type = "TLM2WB" }) s)
    × (s.notified ≡ true)
    × (s.bridge.state ≡ idle)
    × (s.bridge.stb_o ≡ false)
handler_times_out_example =
    handler_times_out default_handler true 0 (writing 4) (λ j. 0) refl refl (omega arith)
      (omega arith)
