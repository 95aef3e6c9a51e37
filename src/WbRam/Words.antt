-- ===== src/WbRam/Words.antt =====
-- The words that `WBRAM` stores: lanes, bounds, and a write seen by a later read
-- (models/wishbone/wbram.hpp).
use deltamodels.Base.{
  ℕ, ◌+◌, ◌≤◌, ◌<◌, ◌≡◌, true, false, arith, if◌then◌else◌, get_byte, get_bit, SameLanes,
  get_byte-lt, put_byte_zero, put_byte_one, put_byte_two, put_byte_three, done, raised, Handler,
  fatal,
}
use deltamodels.WbRam.{WbRam, WbIn, lane, update, merge, find_word, handleop}

module _ (value sel w : ℕ) where
  -- The byte that lane `i` ends with.
  abbrev chosen : ℕ → ℕ
  chosen i = if get_bit sel i then get_byte value i else get_byte w i

  lane_zero : SameLanes (lane value sel 0 w) (chosen 0) (get_byte w 1) (get_byte w 2) (get_byte w 3)
  unfolding lane
  lane_zero = ground (arith, put_byte_zero w (get_byte value 0) (get_byte-lt value 0))

  lane_one : SameLanes (lane value sel 1 w) (get_byte w 0) (chosen 1) (get_byte w 2) (get_byte w 3)
  unfolding lane
  lane_one = ground (arith, put_byte_one w (get_byte value 1) (get_byte-lt value 1))

  lane_two : SameLanes (lane value sel 2 w) (get_byte w 0) (get_byte w 1) (chosen 2) (get_byte w 3)
  unfolding lane
  lane_two = ground (arith, put_byte_two w (get_byte value 2) (get_byte-lt value 2))

  lane_three :
      SameLanes (lane value sel 3 w) (get_byte w 0) (get_byte w 1) (get_byte w 2) (chosen 3)
  unfolding lane
  lane_three = ground (arith, put_byte_three w (get_byte value 3) (get_byte-lt value 3))

-- A masked write takes each of the four bytes from the written word where its select bit is set,
-- and keeps the stored one elsewhere.
pub merge_lanes :
    (w value sel : ℕ)
    → SameLanes
        (merge w value sel)
        (chosen value sel w 0)
        (chosen value sel w 1)
        (chosen value sel w 2)
        (chosen value sel w 3)
unfolding merge
merge_lanes w value sel =
    let w0 = lane value sel 0 w in
    let w1 = lane value sel 1 w0 in
    let w2 = lane value sel 2 w1 in
    ground (
      arith,
      lane_zero value sel w,
      lane_one value sel w0,
      lane_two value sel w1,
      lane_three value sel w2,
    )

module _ (throws : Handler) (x_word : ℕ) where
  -- A write request inside the bound is acknowledged at its first edge: the addressed word becomes
  -- the masked merge of the stored word (or of the word of an unset location) with the input, no
  -- other word changes, and the new word is driven on the output.
  pub handleop_writes :
      (i : WbIn) (r : WbRam)
      → i.cyc_i ≡ true
      → i.stb_i ≡ true
      → i.we_i ≡ true
      → r.n_tran ≡ false
      → i.adr_i ≤ r.mem_size
      → let w = merge (find_word throws x_word i.adr_i r) i.dat_i i.sel_i in
        handleop throws x_word i r
        ≡ done (record r {
          memory = update r.memory i.adr_i w;
          word = w;
          dat_o = w;
          n_tran = true;
          ack_o = true;
          wr_ops = r.wr_ops + 1;
        })
  unfolding handleop
  handleop_writes i r cyc stb we ready inside = ground arith

  pub handleop_reads :
      (i : WbIn) (r : WbRam)
      → i.cyc_i ≡ true
      → i.stb_i ≡ true
      → i.we_i ≡ false
      → r.n_tran ≡ false
      → i.adr_i ≤ r.mem_size
      → let w = find_word throws x_word i.adr_i r in
        handleop throws x_word i r
        ≡ done
            (record r { word = w; dat_o = w; n_tran = true; ack_o = true; rd_ops = r.rd_ops + 1 })
  unfolding handleop
  handleop_reads i r cyc stb we ready inside = ground arith

  -- A request for an address above the bound ends in the block's fatal report, where that leaves
  -- the process, with no word changed.
  handleop_outside :
      (i : WbIn) (r : WbRam)
      → throws fatal ≡ true
      → i.cyc_i ≡ true
      → i.stb_i ≡ true
      → r.n_tran ≡ false
      → r.mem_size < i.adr_i
      → handleop throws x_word i r
        ≡ raised (record { severity = fatal; msg_type = "TLM-ROUTER" }) (record r { ack_o = false })
  unfolding handleop
  handleop_outside i r halts cyc stb ready outside = ground arith

  pub handleop_waits :
      (i : WbIn) (r : WbRam)
      → i.cyc_i ≡ true
      → i.stb_i ≡ true
      → r.n_tran ≡ true
      → handleop throws x_word i r ≡ done (record r { n_tran = false; ack_o = false })
  unfolding handleop
  handleop_waits i r cyc stb busy = ground arith

  pub handleop_rests :
      (i : WbIn) (r : WbRam)
      → i.stb_i ≡ false
      → handleop throws x_word i r ≡ done (record r { ack_o = false })
  unfolding handleop
  handleop_rests i r stb = ground arith
