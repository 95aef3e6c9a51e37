-- ===== src/Net/Wire.antt =====
-- The mock interface and the bridge on one clock, as the test benches of models/network/tests/ wire
-- them: at a rising edge all processes read the signals as they stood before it. The process that
-- `pack` spawns runs after the two of the bridge, so `receive` stands before `pack`: the two share
-- nothing else, and the simulator may also run them the other way round.
use deltamodels.Base.{
  ℕ, zero, suc, ◌+◌, ◌≤◌, ◌<◌, ◌≡◌, refl, ap, sym, ◌∙◌, Bool, true, false, List, [], ◌∷◌, arith,
  length, Run, done, Handler, ◌>>=◌, >>=_assoc, lt→ltb,
}
use mathlib.Core.Path.{subst}
use deltamodels.Net.Packet.{Buffer, bytes_from, set_byte}
use deltamodels.Net.Gmii.{Gmii, waiting, sending, closing, stopped, send_pkt}
use deltamodels.Net.EthBridge.{
  EthBridge, Sockets, idle, processing, finalizing, pack, transmit, receive,
}
use deltamodels.Net.Sides.{TxSide, over, on_run, receive-over}

-- The interface with the bridge and the system behind it.
pub record Wire (N : Type 0) : Type 0 where
  pub gmii : Gmii
  pub bridge : EthBridge
  pub system : N

-- The buffer with the bytes stored one after another from `p` on.
filled : Buffer → ℕ → List ℕ → Buffer
filled b p [] = b
filled b p (x ∷ xs) = filled (set_byte b p x) (p + 1) xs

filled_below : (b : Buffer) (p j : ℕ) (xs : List ℕ) → j < p → filled b p xs j ≡ b j
unfolding filled
filled_below b p j [] h = refl
filled_below b p j (x ∷ xs) h =
    filled_below (set_byte b p x) (p + 1) j xs (omega arith) ∙ ground arith

bytes_from-filled :
    (b : Buffer) (p : ℕ) (xs : List ℕ) → bytes_from (filled b p xs) p (length xs) ≡ xs
unfolding filled bytes_from
bytes_from-filled b p [] = refl
bytes_from-filled b p (x ∷ xs) =
    let first : filled (set_byte b p x) (p + 1) xs p ≡ x =
      filled_below (set_byte b p x) (p + 1) p xs (omega arith) ∙ ground arith in
    cc (first, bytes_from-filled (set_byte b p x) (p + 1) xs)

module _ {N : Type 0} (throws : Handler) (os : Sockets N) where
  unfoldable pub clock_edge : Bool → Wire N → Run (EthBridge × N) (Wire N)
  clock_edge start w = do
    s ← receive throws os (w.bridge, w.system)
    (b, n) ← pack throws os w.gmii.tx_new_pkt w.gmii.tx_pkt s
    done (record { gmii = send_pkt start w.gmii; bridge = b; system = n })

  unfoldable pub clock_edges : ℕ → Wire N → Run (EthBridge × N) (Wire N)
  unfolding clock_edge
  clock_edges zero w = done w
  clock_edges (suc k) w = clock_edge false w >>= clock_edges k

  -- The thread `receive` alone leads from `s` to `t` in one edge and `k` more.
  abbrev pub Hears : ℕ → EthBridge × N → EthBridge × N → Type 0
  Hears zero s t = receive throws os s ≡ done t
  Hears (suc k) s t = (u : EthBridge × N) × (receive throws os s ≡ done u) × Hears k u t

  -- The wire with these on the packer's side, and the rest of the bridge and the system as in `s`.
  abbrev pub at : Gmii → TxSide → EthBridge × N → Wire N
  at g x s = record { gmii = g; bridge = (over x s).0; system = s.1 }

  abbrev pub side_of : EthBridge → TxSide
  side_of b = record {
    state = b.tx_state;
    buffer = b.tx_buffer;
    idx = b.tx_idx;
    sent = b.tx_pkt_cnt;
  }

  -- The rest of an edge, after `receive`.
  unfoldable pub rest_of : Bool → Gmii → EthBridge × N → Run (EthBridge × N) (Wire N)
  rest_of start g s = pack throws os g.tx_new_pkt g.tx_pkt s >>= λ (b, n).
      done (record { gmii = send_pkt start g; bridge = b; system = n })

  pub edge_lem :
      (start : Bool) (g : Gmii) (x : TxSide) (s t : EthBridge × N)
      → receive throws os s ≡ done t
      → clock_edge start (at g x s) ≡ rest_of start g (over x t)
  unfolding clock_edge rest_of
  edge_lem start g x s t e =
      ap (λ (m : Run (EthBridge × N) (EthBridge × N)). m >>= rest_of start g)
        (receive-over throws os x s ∙ ap (on_run x) e)

  -- While a packet is being collected: the interface with the byte on the port and the rest to come.
  abbrev pub shown : Gmii → ℕ → List ℕ → Gmii
  shown g byte rest = record g { tx_new_pkt = true; tx_pkt = byte; stage = sending rest }

  abbrev pub collecting : Buffer → ℕ → ℕ → TxSide
  collecting buf idx cnt = record { state = processing; buffer = buf; idx = idx; sent = cnt }

  pub collect_next :
      (g : Gmii) (buf : Buffer) (idx cnt byte y : ℕ) (rest : List ℕ) (s t : EthBridge × N)
      → idx < 1024
      → receive throws os s ≡ done t
      → clock_edge false (at (shown g byte (y ∷ rest)) (collecting buf idx cnt) s)
        ≡ done (at (shown g y rest) (collecting (set_byte buf idx byte) (idx + 1) cnt) t)
  unfolding rest_of pack send_pkt
  collect_next g buf idx cnt byte y rest s t h e =
      edge_lem false (shown g byte (y ∷ rest)) (collecting buf idx cnt) s t e
      ∙ rw (lt→ltb idx 1024 h) refl

  -- The interface once the packet is on its way.
  abbrev ended : Gmii → ℕ → Gmii
  ended g byte = record g { tx_new_pkt = false; tx_pkt = byte; stage = closing }

  collect_last :
      (g : Gmii) (buf : Buffer) (idx cnt byte : ℕ) (s t : EthBridge × N)
      → idx < 1024
      → receive throws os s ≡ done t
      → clock_edge false (at (shown g byte []) (collecting buf idx cnt) s)
        ≡ done (at (ended g byte) (collecting (set_byte buf idx byte) (idx + 1) cnt) t)
  unfolding rest_of pack send_pkt
  collect_last g buf idx cnt byte s t h e =
      edge_lem false (shown g byte []) (collecting buf idx cnt) s t e ∙ rw (lt→ltb idx 1024 h) refl

  -- What is left once a packet is sent.
  abbrev pub IsSent : Wire N → ℕ → N → Type 0
  IsSent t cnt n =
      (t.system ≡ n)
      × (t.bridge.tx_pkt_cnt ≡ cnt + 1)
      × (t.bridge.tx_state ≡ idle)
      × (t.gmii.stage ≡ stopped)

  closes :
      (g : Gmii) (buf : Buffer) (idx cnt byte : ℕ) (s t : EthBridge × N) (n : N)
      → t.0.config.trace_on ≡ false
      → os.send_to t.0.sockfd (bytes_from buf 0 idx) t.0.sockstr t.1 ≡ (true, n)
      → Hears 1 s t
      → (w : Wire N) × (clock_edges 2 (at (ended g byte) (collecting buf idx cnt) s) ≡ done w)
        × IsSent w cnt n
  unfolding clock_edges rest_of pack send_pkt transmit
  closes g buf idx cnt byte s t n quiet sent (u, first, second) =
      let final : TxSide = record { state = finalizing; buffer = buf; idx = idx; sent = cnt } in
      let end : Gmii = record (ended g byte) { stage = stopped } in
      let idled : TxSide = record { state = idle; buffer = buf; idx = idx; sent = cnt + 1 } in
      let last : clock_edge false (at end final u) ≡ done (at end idled (t.0, n)) =
        edge_lem false end final u t second ∙ rw (quiet, sent) refl in
      (
        at end idled (t.0, n),
        ap (λ (m : Run (EthBridge × N) (Wire N)). m >>= clock_edges 1)
              (edge_lem false (ended g byte) (collecting buf idx cnt) s u first)
            ∙ ap (λ (m : Run (EthBridge × N) (Wire N)). m >>= clock_edges 0) last,
        (refl, refl, refl, refl),
      )

  collect :
      (g : Gmii) (rest : List ℕ) (buf : Buffer) (idx cnt byte : ℕ) (s t : EthBridge × N) (n : N)
      → idx + length rest < 1024
      → t.0.config.trace_on ≡ false
      → os.send_to t.0.sockfd
          (bytes_from (filled buf idx (byte ∷ rest)) 0 (idx + suc (length rest)))
          t.0.sockstr
          t.1
        ≡ (true, n)
      → Hears (suc (length rest + 1)) s t
      → (w : Wire N) × (clock_edges
            (suc (length rest + 2))
            (at (shown g byte rest) (collecting buf idx cnt) s)
          ≡ done w)
        × IsSent w cnt n
  unfolding clock_edges filled
  collect g [] buf idx cnt byte s t n h quiet sent (u, first, later) =
      let (w, run, left) =
        closes g (set_byte buf idx byte) (idx + 1) cnt byte u t n quiet sent later in
      (
        w,
        ap (λ (m : Run (EthBridge × N) (Wire N)). m >>= clock_edges 2)
              (collect_last g buf idx cnt byte s u (omega arith) first)
            ∙ run,
        left,
      )
  collect g (y ∷ rest) buf idx cnt byte s t n h quiet sent (u, first, later) =
      let count : idx + 1 + suc (length rest) ≡ idx + suc (suc (length rest)) = omega arith in
      let more : suc (length rest) + 1 ≡ suc (length rest + 1) = omega arith in
      let more' : suc (length rest) + 2 ≡ suc (length rest + 2) = omega arith in
      let (w, run, left) =
        collect g rest (set_byte buf idx byte) (idx + 1) cnt y u t n (omega arith) quiet
          (ap
              (λ (k : ℕ).
                os.send_to t.0.sockfd
                  (bytes_from (filled (set_byte buf idx byte) (idx + 1) (y ∷ rest)) 0 k) t.0.sockstr
                  t.1)
              count
            ∙ sent)
          (subst (λ k. Hears k u t) more later) in
      (
        w,
        ap (λ (m : Run (EthBridge × N) (Wire N)). m >>= clock_edges (suc (length rest) + 2))
              (collect_next g buf idx cnt byte y rest s u (omega arith) first)
            ∙ ap
                (λ (k : ℕ).
                  clock_edges k
                    (at (shown g y rest) (collecting (set_byte buf idx byte) (idx + 1) cnt) u))
                more'
            ∙ run,
        left,
      )

  -- The two edges before the first byte is on the port.
  pub opens :
      (w : Wire N) (byte : ℕ) (rest : List ℕ) (s t : EthBridge × N)
      → w.gmii.stage ≡ waiting
      → w.gmii.pkt ≡ byte ∷ rest
      → w.gmii.tx_new_pkt ≡ false
      → w.bridge.tx_state ≡ idle
      → receive throws os (w.bridge, w.system) ≡ done s
      → receive throws os s ≡ done t
      → (clock_edge true w >>= clock_edge false)
        ≡ done (at (shown w.gmii byte rest) (side_of w.bridge) t)
  unfolding rest_of pack send_pkt
  opens w byte rest s t st pkt new ready first second =
      let started : Gmii = record w.gmii { tx_pkt = 0; stage = sending (byte ∷ rest) } in
      let begins : clock_edge true w ≡ done (at started (side_of w.bridge) s) =
        edge_lem true w.gmii (side_of w.bridge) (w.bridge, w.system) s first
        ∙ rw (st, new, ready, pkt) refl in
      ap (λ (m : Run (EthBridge × N) (Wire N)). m >>= clock_edge false) begins
      ∙ edge_lem false started (side_of w.bridge) s t second
      ∙ rw (new, ready) refl

  -- The bridge takes the first byte as it takes the others, from position 0 on.
  pub first_byte :
      (b : EthBridge) (g : Gmii) (byte : ℕ) (rest : List ℕ) (s t : EthBridge × N)
      → b.tx_state ≡ idle
      → receive throws os s ≡ done t
      → clock_edge false (at (shown g byte rest) (side_of b) s)
        ≡ clock_edge false (at (shown g byte rest) (collecting b.tx_buffer 0 b.tx_pkt_cnt) s)
  unfolding rest_of pack send_pkt
  first_byte b g byte rest s t ready heard =
      edge_lem false (shown g byte rest) (side_of b) s t heard
      ∙ rw ready refl
      ∙ sym (edge_lem false (shown g byte rest) (collecting b.tx_buffer 0 b.tx_pkt_cnt) s t heard)

  -- A packet of one to 1,024 bytes, started by an interface that waits with its flag low on a bridge
  -- whose packer is idle, is handed to the operating system once, whole and in order, within three
  -- edges more than it has bytes after the edge that started it, whatever the bridge receives
  -- meanwhile. The receiving thread gets through these edges by itself; at the last one the system
  -- sends the packet, to the peer that this thread has left, and no packets are traced. The packet is
  -- then counted, the packer is idle again and the interface has stopped.
  pub packet_sent :
      (w : Wire N) (pkt : List ℕ) (t : EthBridge × N) (n : N)
      → w.gmii.stage ≡ waiting
      → w.gmii.pkt ≡ pkt
      → w.gmii.tx_new_pkt ≡ false
      → w.bridge.tx_state ≡ idle
      → 0 < length pkt
      → length pkt ≤ 1024
      → Hears (length pkt + 3) (w.bridge, w.system) t
      → t.0.config.trace_on ≡ false
      → os.send_to t.0.sockfd pkt t.0.sockstr t.1 ≡ (true, n)
      → (v : Wire N) × ((clock_edge true w >>= clock_edges (length pkt + 3)) ≡ done v)
        × (v.system ≡ n)
        × (v.bridge.tx_pkt_cnt ≡ w.bridge.tx_pkt_cnt + 1)
        × (v.bridge.tx_state ≡ idle)
        × (v.gmii.stage ≡ stopped)
  unfolding clock_edges
  packet_sent w [] t n st pkt new ready pos few heard quiet sent = absurd (omega arith)
  packet_sent w (byte ∷ rest) t n st pkt new ready pos few heard quiet sent =
      let count : suc (length rest) + 3 ≡ suc (suc (suc (length rest + 1))) = omega arith in
      let count' : suc (length rest) + 3 ≡ suc (suc (length rest + 2)) = omega arith in
      let (s0, e0, from0) = subst (λ k. Hears k (w.bridge, w.system) t) count heard in
      let (s1, e1, from1) = from0 in
      let (s2, e2, later) = from1 in
      let idx : 0 + suc (length rest) ≡ length (byte ∷ rest) = omega arith in
      let buf = w.bridge.tx_buffer in
      let handed : os.send_to t.0.sockfd
            (bytes_from (filled buf 0 (byte ∷ rest)) 0 (0 + suc (length rest))) t.0.sockstr t.1
          ≡ (true, n) =
        rw (idx, bytes_from-filled buf 0 (byte ∷ rest)) sent in
      let (v, run, left) =
        collect w.gmii rest buf 0 w.bridge.tx_pkt_cnt byte s1 t n (omega arith) quiet handed
          (s2, e2, later) in
      (
        v,
        ap (λ (k : ℕ). clock_edge true w >>= clock_edges k) count'
            ∙ sym (
                >>=_assoc (clock_edge true w) (clock_edge false)
                  (clock_edges (suc (length rest + 2))))
            ∙ ap (λ (m : Run (EthBridge × N) (Wire N)). m >>= clock_edges (suc (length rest + 2)))
                (opens w byte rest s0 s1 st pkt new ready e0 e1)
            ∙ ap (λ (m : Run (EthBridge × N) (Wire N)). m >>= clock_edges (length rest + 2))
                (first_byte w.bridge w.gmii byte rest s1 s2 ready e2)
            ∙ run,
        left.0,
        left.1,
        left.2,
        left.3,
      )
