-- ===== src/WbRam.antt =====
-- models/wishbone/wbram.hpp: `WBRAM<32>`, a memory on a wishbone bus. The word that setting every
-- bit of an `sc_bv` to 'X' gives is SystemC's: the parameter `x_word`. Console output is left out,
-- and the operation counters do not wrap. The map's key is the address cast to int32_t, which loses
-- nothing of a 32-bit address.
pub mod Words
pub mod Handshake
pub mod Tests
use deltamodels.Base.{
  ℕ, ◌+◌, Bool, true, false, ◌&&◌, Option, none, some, ltb, ◌==◌, if◌then◌else◌, get_byte, put_byte,
  get_bit, Run, done, Handler, fatal, report, ◌>>=◌, ◌>>◌,
}

pub record WbRam : Type 0 where
  pub memory : ℕ → Option ℕ
  pub word : ℕ
  pub n_tran : Bool
  pub mem_size : ℕ
  pub wr_ops : ℕ
  pub rd_ops : ℕ
  pub ack_o : Bool
  pub dat_o : ℕ

-- The constructor.
abbrev pub init : ℕ → WbRam
init mem_size = record {
  memory = λ a. none;
  word = 0;
  n_tran = false;
  mem_size = mem_size;
  wr_ops = 0;
  rd_ops = 0;
  ack_o = false;
  dat_o = 0;
}

-- The input ports, as the process reads them at a clock edge.
pub record WbIn : Type 0 where
  pub adr_i : ℕ
  pub dat_i : ℕ
  pub cyc_i : Bool
  pub stb_i : Bool
  pub we_i : Bool
  pub sel_i : ℕ

-- The loop of `set_word` for lanes 0 to 3.
pub lane : ℕ → ℕ → ℕ → ℕ → ℕ
lane value sel i w = if get_bit sel i then put_byte w i (get_byte value i) else w

pub merge : ℕ → ℕ → ℕ → ℕ
merge w value sel =
    let w0 = lane value sel 0 w in
    let w1 = lane value sel 1 w0 in let w2 = lane value sel 2 w1 in lane value sel 3 w2

abbrev pub update : (ℕ → Option ℕ) → ℕ → ℕ → ℕ → Option ℕ
update memory address w a = if a == address then some w else memory a

module _ (throws : Handler) (x_word : ℕ) where
  check_bound : ℕ → WbRam → Run WbRam (Unit {0})
  check_bound address r =
      if ltb r.mem_size address then report throws fatal "TLM-ROUTER" r else done tt

  unfoldable pub find_word : ℕ → WbRam → ℕ
  find_word address r = elim (r.memory address) [ some w ↦ w | none ↦ x_word ]

  retrieve_word : ℕ → WbRam → Run WbRam ℕ
  unfolding check_bound find_word
  retrieve_word address r = do check_bound address r; done (find_word address r)

  set_word : ℕ → ℕ → ℕ → WbRam → Run WbRam ℕ
  unfolding check_bound merge retrieve_word
  set_word address value sel r = do
    check_bound address r
    w ← retrieve_word address r
    done (merge w value sel)

  -- The two branches of a transfer, after `ack_o.write(false)`.
  write_op : WbIn → WbRam → Run WbRam WbRam
  unfolding set_word
  write_op i r = do
    w ← set_word i.adr_i i.dat_i i.sel_i r
    done (record r { word = w; wr_ops = r.wr_ops + 1; memory = update r.memory i.adr_i w })

  read_op : WbIn → WbRam → Run WbRam WbRam
  unfolding retrieve_word
  read_op i r = do w ← retrieve_word i.adr_i r; done (record r { word = w; rd_ops = r.rd_ops + 1 })

  transfer : WbIn → WbRam → Run WbRam WbRam
  unfolding write_op read_op
  transfer i r = do
    r' ← if i.we_i then write_op i r else read_op i r
    done (record r' { n_tran = true; ack_o = true; dat_o = r'.word })

  -- The process at a rising edge of the clock.
  pub handleop : WbIn → WbRam → Run WbRam WbRam
  unfolding transfer
  handleop i r0 =
      let r = record r0 { ack_o = false } in
      if i.cyc_i && i.stb_i
      then if r.n_tran then done (record r { n_tran = false }) else transfer i r
      else done r
