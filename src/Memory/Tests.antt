-- ===== src/Memory/Tests.antt =====
-- Runs of the models of tlms/commons/memory.h on a memory of four words.
use deltamodels.Base.{ℕ, ◌+◌, ◌≡◌, refl, none, arith, false, done, undefined}
use deltamodels.Tlm.{Call, Command, Response, memcpy}
use deltamodels.Memory.{Memory, b_transport, get_direct_mem_ptr}
use deltamodels.Memory.Access.{IsServed, completed, b_transport_roundtrip, b_transport_past_end}

abbrev four_words : Memory
four_words = record { size = 4; mem = λ j. 0; rd_ops = 0; wr_ops = 0 }

abbrev call : Command → ℕ → ℕ → Call
call cmd address len = record {
  host = λ j. j + 1;
  trans = record {
    command = cmd;
    address = address;
    data_ptr = 100;
    data_length = len;
    streaming_width = len;
    byte_enable_ptr = none;
    dmi_allowed = false;
    response = Response.incomplete;
  };
  delay = 5;
}

served : (cmd : Command) → IsServed 4 (call cmd 8 4).trans
served cmd = record {
  in_range = omega arith;
  all_bytes = refl;
  one_word = omega arith;
  no_stream = omega arith;
}

abbrev after_write : Memory
after_write = record four_words { mem = memcpy (λ j. 0) 8 (λ j. j + 1) 100 4; wr_ops = 1 }

abbrev written : Call
written = record (call Command.write 8 4) {
  trans = completed (call Command.write 8 4).trans;
  delay = 15;
}

ran : b_transport (four_words, call Command.write 8 4) ≡ done (after_write, written)
unfolding b_transport
ran = refl

b_transport_roundtrip_example :
    (out : Memory × Call) × (b_transport (after_write, call Command.read 8 4) ≡ done out)
    × (out.1.trans.response ≡ Response.ok)
    × (out.1.host 102 ≡ memcpy (λ j. j + 1) 100 (λ j. j + 1) 100 4 102)
b_transport_roundtrip_example =
    b_transport_roundtrip four_words after_write (call Command.write 8 4) written
      (call Command.read 8 4) 102 (served Command.write) refl ran (served Command.read) refl refl
      refl

b_transport_past_end_example : b_transport (four_words, call Command.read 16 4) ≡ undefined
b_transport_past_end_example =
    b_transport_past_end four_words (call Command.read 16 4) refl refl (λ e. cc) (omega arith)
      (omega arith) (omega arith)

-- The direct-memory hint spans the whole array.
dmi_span : (get_direct_mem_ptr four_words).1.end_address ≡ 15
unfolding get_direct_mem_ptr
dmi_span = refl
