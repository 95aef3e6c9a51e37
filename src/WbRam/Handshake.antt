-- ===== src/WbRam/Handshake.antt =====
-- The acknowledge line of `WBRAM` over consecutive clock edges (models/wishbone/wbram.hpp).
use deltamodels.Base.{ℕ, ◌≡◌, true, false, not, ◌&&◌, arith, done, Handler}
use deltamodels.WbRam.{WbRam, WbIn, handleop}

module _ (throws : Handler) (x_word : ℕ) where
  -- An edge acknowledges exactly when a cycle is requested and the edge before it did not already
  -- serve it; and the block then remembers that it did.
  handleop_acks :
      (i : WbIn) (r r' : WbRam)
      → handleop throws x_word i r ≡ done r'
      → (r'.ack_o ≡ (i.cyc_i && i.stb_i && not r.n_tran)) × (r'.ack_o ≡ true → r'.n_tran ≡ true)
  unfolding handleop
  handleop_acks i r r' h = ground arith

  -- No two consecutive edges acknowledge.
  pub handleop_acks_once :
      (i j : WbIn) (r r1 r2 : WbRam)
      → handleop throws x_word i r ≡ done r1
      → handleop throws x_word j r1 ≡ done r2
      → r1.ack_o ≡ true
      → r2.ack_o ≡ false
  handleop_acks_once i j r r1 r2 h k ack =
      ground (arith, handleop_acks i r r1 h, handleop_acks j r1 r2 k)

  -- A request that is withdrawn right after it was acknowledged makes the next request wait one
  -- edge, at which it is not acknowledged.
  handleop_late :
      (i j k : WbIn) (r r1 r2 r3 : WbRam)
      → handleop throws x_word i r ≡ done r1
      → r1.ack_o ≡ true
      → j.stb_i ≡ false
      → handleop throws x_word j r1 ≡ done r2
      → k.cyc_i ≡ true
      → k.stb_i ≡ true
      → handleop throws x_word k r2 ≡ done r3
      → (r3.ack_o ≡ false) × (r3.memory ≡ r2.memory) × (r3.n_tran ≡ false)
  unfolding handleop
  handleop_late i j k r r1 r2 r3 a ack stb b cyc strobe c = ground arith
