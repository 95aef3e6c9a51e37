-- ===== src/Net/Sides.antt =====
-- The two sides of models/network/ethbridge.hpp: what `receive` does whatever the packer holds.
use deltamodels.Base.{
  ℕ, ◌-◌, ◌≡◌, refl, Bool-cases, Option-cases, inl, inr, false, Option, none, some, List, ltb, ◌==◌,
  length, get_or, Run, done, raised, undefined, Handler,
}
use deltamodels.Net.Packet.{Buffer, copy_in, is_echo, print_ip_packet}
use deltamodels.Net.EthBridge.{
  EthBridge, Peer, Sockets, TxState, RxStage, polling, driving, accept, received, poll, drive,
  receive_in, receive,
}

-- What `pack` and `transmit` write.
pub record TxSide : Type 0 where
  pub state : TxState
  pub buffer : Buffer
  pub idx : ℕ
  pub sent : ℕ

module _ {N : Type 0} where
  abbrev pub over : TxSide → EthBridge × N → EthBridge × N
  over x (b, n) = (
    record b { tx_state = x.state; tx_buffer = x.buffer; tx_idx = x.idx; tx_pkt_cnt = x.sent },
    n,
  )

  abbrev pub on_run :
      TxSide → Run (EthBridge × N) (EthBridge × N) → Run (EthBridge × N) (EthBridge × N)
  on_run x (done s) = done (over x s)
  on_run x (raised e s) = raised e (over x s)
  on_run x undefined = undefined

module _ {N : Type 0} (throws : Handler) (os : Sockets N) (x : TxSide) where
  accept-over :
      (pkt : List ℕ) (s : EthBridge × N)
      → accept throws os pkt (over x s) ≡ on_run x (accept throws os pkt s)
  unfolding accept
  accept-over pkt (b, n) = elim (Bool-cases (ltb 0 (length pkt))) [
    | inr none_left ↦ rw (none_left) refl
    | inl some_left ↦ elim (Bool-cases (is_echo b.rx_buffer b.config.bridge_port)) [
      | inl echo ↦ rw (some_left, echo) refl
      | inr new ↦ elim (Bool-cases b.config.trace_on) [
        | inr quiet ↦ rw (some_left, new, quiet) refl
        | inl traced ↦ elim (Option-cases (print_ip_packet b.rx_buffer (length pkt) false)) [
          | inl short ↦ rw (some_left, new, traced, short) refl
          | inr (lines, whole) ↦ rw (some_left, new, traced, whole) refl
        ]
      ]
    ]
  ]

  received-over :
      (r : Option (List ℕ × Peer)) (s : EthBridge × N)
      → received throws os r (over x s) ≡ on_run x (received throws os r s)
  unfolding received
  received-over none s = refl
  received-over (some (pkt, from)) (b, n) = accept-over pkt (
    record b {
      rec_len = some (length pkt);
      sockstr = from;
      rx_buffer = copy_in b.rx_buffer 0 (λ j. get_or pkt j 0) (length pkt);
    },
    n,
  )

  drive-over :
      (rem : ℕ) (s : EthBridge × N)
      → drive throws os rem (over x s) ≡ on_run x (drive throws os rem s)
  unfolding drive
  drive-over rem (b, n) = elim (Bool-cases (ltb rem 1024)) [
    | inr outside ↦ rw (outside) refl
    | inl inside ↦ elim (Bool-cases (rem - 1 == 0)) [
      | inl last ↦ rw (inside, last) refl
      | inr more ↦ rw (inside, more) refl
    ]
  ]

  receive_in-over :
      (st : RxStage) (s : EthBridge × N)
      → receive_in throws os st (over x s) ≡ on_run x (receive_in throws os st s)
  unfolding receive_in poll
  receive_in-over polling (b, n) =
      received-over (os.receive_from b.sockfd 1024 n).0 (b, (os.receive_from b.sockfd 1024 n).1)
  receive_in-over (driving rem) s = drive-over rem s

  -- The thread does the same whatever the packer holds, and leaves that alone.
  pub receive-over :
      (s : EthBridge × N) → receive throws os (over x s) ≡ on_run x (receive throws os s)
  unfolding receive
  receive-over s = receive_in-over s.0.rx_stage s
