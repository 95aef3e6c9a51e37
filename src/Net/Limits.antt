-- ===== src/Net/Limits.antt =====
-- Packets that the buffer of models/network/ethbridge.hpp has no room for.
use deltamodels.Base.{
  ℕ, zero, suc, ◌+◌, ◌≤◌, ◌<◌, ◌≡◌, refl, ap, sym, ◌∙◌, true, false, List, [], ◌∷◌, arith, length,
  Run, done, undefined, Handler, ◌>>=◌, >>=_assoc,
}
use deltamodels.Net.Packet.{Buffer, set_byte}
use deltamodels.Net.Gmii.{Gmii, waiting}
use deltamodels.Net.EthBridge.{EthBridge, Sockets, idle, pack, receive}
use deltamodels.Net.Wire.{
  Wire, clock_edge, clock_edges, Hears, at, shown, collecting, rest_of, edge_lem, collect_next,
  opens, first_byte,
}

module _ {N : Type 0} (throws : Handler) (os : Sockets N) where
  collect_full :
      (g : Gmii) (buf : Buffer) (cnt byte : ℕ) (rest : List ℕ) (s t : EthBridge × N)
      → receive throws os s ≡ done t
      → clock_edge throws os false
          (at throws os (shown throws os g byte rest) (collecting throws os buf 1024 cnt) s)
        ≡ undefined
  unfolding rest_of pack
  collect_full g buf cnt byte rest s t heard =
      edge_lem throws os false (shown throws os g byte rest) (collecting throws os buf 1024 cnt) s t
        heard

  -- With `k` places left and more bytes to come than that.
  collect_over :
      (k : ℕ) (g : Gmii) (buf : Buffer) (idx cnt byte : ℕ) (rest : List ℕ) (s t : EthBridge × N)
      → idx + k ≡ 1024
      → k ≤ length rest
      → Hears throws os k s t
      → clock_edges throws os
          (suc k)
          (at throws os (shown throws os g byte rest) (collecting throws os buf idx cnt) s)
        ≡ undefined
  unfolding clock_edges
  collect_over zero g buf idx cnt byte rest s t full more heard =
      let place : idx ≡ 1024 = omega arith in
      rw (place) (
        ap (λ (m : Run (EthBridge × N) (Wire N)). m >>= clock_edges throws os 0)
          (collect_full g buf cnt byte rest s t heard))
  collect_over (suc k) g buf idx cnt byte [] s t full more heard = absurd (omega arith)
  collect_over (suc k) g buf idx cnt byte (x ∷ rest) s t full more (u, first, later) =
      ap (λ (m : Run (EthBridge × N) (Wire N)). m >>= clock_edges throws os (suc k))
        (collect_next throws os g buf idx cnt byte x rest s u (omega arith) first)
      ∙ collect_over k g (set_byte buf idx byte) (idx + 1) cnt x rest u t (omega arith)
          (omega arith) later

  -- A packet of more than 1,024 bytes, started by an interface that waits with its flag low on a
  -- bridge whose packer is idle, writes behind the buffer: the edge that takes byte 1,025 has no
  -- defined behaviour. The receiving thread gets through the edges up to then by itself.
  pub packet_overruns :
      (w : Wire N) (pkt : List ℕ) (t : EthBridge × N)
      → w.gmii.stage ≡ waiting
      → w.gmii.pkt ≡ pkt
      → w.gmii.tx_new_pkt ≡ false
      → w.bridge.tx_state ≡ idle
      → 1024 < length pkt
      → Hears throws os 1026 (w.bridge, w.system) t
      → (clock_edge throws os true w >>= clock_edges throws os 1026) ≡ undefined
  unfolding clock_edges
  packet_overruns w [] t st pkt new ready many heard = absurd (omega arith)
  packet_overruns w (byte ∷ rest) t st pkt new ready many (s0, e0, (s1, e1, (s2, e2, later))) =
      sym (
        >>=_assoc (clock_edge throws os true w) (clock_edge throws os false)
          (clock_edges throws os 1025))
      ∙ ap (λ (m : Run (EthBridge × N) (Wire N)). m >>= clock_edges throws os 1025)
          (opens throws os w byte rest s0 s1 st pkt new ready e0 e1)
      ∙ ap (λ (m : Run (EthBridge × N) (Wire N)). m >>= clock_edges throws os 1024)
          (first_byte throws os w.bridge w.gmii byte rest s1 s2 ready e2)
      ∙ collect_over 1024 w.gmii w.bridge.tx_buffer 0 w.bridge.tx_pkt_cnt byte rest s1 t refl
          (omega arith) (s2, e2, later)
