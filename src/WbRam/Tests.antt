-- ===== src/WbRam/Tests.antt =====
-- Runs of the models of models/wishbone/wbram.hpp on a memory of sixteen words.
use deltamodels.Base.{ℕ, ◌≡◌, refl, none, Bool, true, false, done, default_handler}
use deltamodels.WbRam.{init, WbRam, WbIn, update, handleop}

abbrev ram : WbRam
ram = init 16

abbrev request : Bool → Bool → ℕ → WbIn
request stb we address = record {
  adr_i = address;
  dat_i = 0x01020304;
  cyc_i = stb;
  stb_i = stb;
  we_i = we;
  sel_i = 5;
}

abbrev after_write : WbRam
after_write = record ram {
  memory = update (λ a. none) 3 0xff02ff04;
  word = 0xff02ff04;
  dat_o = 0xff02ff04;
  n_tran = true;
  ack_o = true;
  wr_ops = 1;
}

abbrev released : WbRam
released = record after_write { n_tran = false; ack_o = false }

abbrev withdrawn : WbRam
withdrawn = record after_write { ack_o = false }

abbrev after_read : WbRam
after_read = record released { n_tran = true; ack_o = true; rd_ops = 1 }

edge_rest : handleop default_handler 0xffffffff (request false false 3) after_write ≡ done withdrawn
unfolding handleop
edge_rest = refl

edge_late : handleop default_handler 0xffffffff (request true false 3) withdrawn ≡ done released
unfolding handleop
edge_late = refl
