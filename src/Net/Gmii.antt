-- ===== src/Net/Gmii.antt =====
-- `MockGMII` of models/network/mock_gmii.hpp: the thread `send_pkt`, cut at its waits.
use deltamodels.Base.{ℕ, Bool, true, false, List, [], ◌∷◌, if◌then◌else◌}

-- Where the thread waits: for `start`, for the edge that takes the next byte of the rest of `pkt`,
-- for the last edge after the packet; or it has ended.
pub data Stage : Type 0 where
  waiting : Stage
  sending : List ℕ → Stage
  closing stopped : Stage

pub record Gmii : Type 0 where
  pub pkt : List ℕ
  pub stage : Stage
  pub tx_new_pkt : Bool
  pub tx_pkt : ℕ

-- The constructor.
abbrev pub init : List ℕ → Gmii
init pkt = record { pkt = pkt; stage = waiting; tx_new_pkt = false; tx_pkt = 0 }

resume : Bool → Stage → Gmii → Gmii
resume start waiting g = if start then record g { tx_pkt = 0; stage = sending g.pkt } else g
resume start (sending (b ∷ rest)) g = record g {
  tx_new_pkt = true;
  tx_pkt = b;
  stage = sending rest;
}
resume start (sending []) g = record g { tx_new_pkt = false; stage = closing }
resume start closing g = record g { stage = stopped }
resume start stopped g = g

-- The thread at a rising edge of the clock, with `start` as it stands.
unfoldable pub send_pkt : Bool → Gmii → Gmii
unfolding resume
send_pkt start g = resume start g.stage g
