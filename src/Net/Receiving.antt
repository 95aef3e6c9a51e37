-- ===== src/Net/Receiving.antt =====
-- What the thread `receive` of models/network/ethbridge.hpp drives for a packet, and what it ignores.
use deltamodels.Base.{
  ℕ, zero, suc, ◌+◌, ◌≤◌, ◌<◌, ◌≡◌, refl, Bool, true, false, some, List, [], ◌∷◌, map, arith,
  length, get_or, ltb, ◌==◌, if◌then◌else◌, Run, done, Handler, ◌>>=◌, lt→ltb,
}
use deltamodels.Net.Packet.{Buffer, copy_in, is_echo}
use deltamodels.Net.EthBridge.{EthBridge, Peer, Sockets, polling, driving, receive}

-- The positions from `n` down to 1.
abbrev countdown : ℕ → List ℕ
countdown zero = []
countdown (suc n) = suc n ∷ countdown n

module _ {N : Type 0} (throws : Handler) (os : Sockets N) where
  -- The flag and the byte on the port after each of `k` edges, and the state after them.
  pub receives : ℕ → EthBridge × N → Run (EthBridge × N) (List (Bool × ℕ) × EthBridge × N)
  receives zero s = done ([], s.0, s.1)
  receives (suc k) s = do
    (b, n) ← receive throws os s
    (out, b', n') ← receives k (b, n)
    done ((b.rx_new_pkt, b.rx_pkt) ∷ out, b', n')

  drive_one :
      (b : EthBridge) (n : N) (m : ℕ)
      → b.rx_stage ≡ driving (suc (suc m))
      → suc (suc m) < 1024
      → receive throws os (b, n)
        ≡ done (
          record b {
            rx_new_pkt = true;
            rx_pkt = b.rx_buffer (suc (suc m));
            rx_stage = driving (suc m);
          },
          n,
        )
  unfolding receive
  drive_one b n m st h = ground arith

  drive_last :
      (b : EthBridge) (n : N)
      → b.rx_stage ≡ driving 1
      → receive throws os (b, n)
        ≡ done (
          record b {
            rx_new_pkt = false;
            rx_pkt = b.rx_buffer 1;
            rx_stage = polling;
            rx_pkt_cnt = b.rx_pkt_cnt + 1;
          },
          n,
        )
  unfolding receive
  drive_last b n st = rw st refl

  drives :
      (m : ℕ) (b : EthBridge) (n : N) (f : Buffer)
      → b.rx_stage ≡ driving (suc m)
      → suc m < 1024
      → ((j : ℕ) → j ≤ suc m → b.rx_buffer j ≡ f j)
      → receives (suc m) (b, n)
        ≡ done (
          map (λ j. (ltb 1 j, f j)) (countdown (suc m)),
          record b {
            rx_new_pkt = false;
            rx_pkt = f 1;
            rx_stage = polling;
            rx_pkt_cnt = b.rx_pkt_cnt + 1;
          },
          n,
        )
  unfolding receives
  drives zero b n f st h same = rw (drive_last b n st, same 1 (omega arith)) refl
  drives (suc m) b n f st h same =
      let c : EthBridge = record b {
        rx_new_pkt = true;
        rx_pkt = b.rx_buffer (suc (suc m));
        rx_stage = driving (suc m);
      } in
      rw
        (
          drive_one b n m st h,
          drives m c n f refl (omega arith) (λ j le. same j (omega arith)),
          same (suc (suc m)) (omega arith),
          lt→ltb 1 (suc (suc m)) (omega arith),
        )
        refl

  -- A datagram on the polled socket that is not an echo, with the trace off: the bridge takes the
  -- sender for its peer, and the thread turns to the datagram's last position.
  polled :
      (b : EthBridge) (n n' : N) (pkt : List ℕ) (from : Peer)
      → b.rx_stage ≡ polling
      → b.config.trace_on ≡ false
      → os.receive_from b.sockfd 1024 n ≡ (some (pkt, from), n')
      → 0 < length pkt
      → is_echo (copy_in b.rx_buffer 0 (λ j. get_or pkt j 0) (length pkt)) b.config.bridge_port
        ≡ false
      → receive throws os (b, n)
        ≡ done (
          record b {
            rec_len = some (length pkt);
            sockstr = from;
            rx_buffer = copy_in b.rx_buffer 0 (λ j. get_or pkt j 0) (length pkt);
            rx_new_pkt = false;
            rx_stage = driving (length pkt);
          },
          n',
        )
  unfolding receive
  polled b n n' pkt from st quiet got pos new =
      rw (st, got, lt→ltb 0 (length pkt) pos, new, quiet) refl

  -- On a bridge that polls and does not trace, a datagram of one to 1,023 bytes that is no echo is
  -- driven backwards over as many edges as it has bytes, and one place late: first the byte that
  -- the buffer holds just behind it, then its bytes from the last one down to the second, the
  -- second without the flag; its first byte is never driven. It is counted, and later packets go to
  -- its sender.
  pub received_backwards :
      (b : EthBridge) (n n' : N) (pkt : List ℕ) (from : Peer)
      → b.rx_stage ≡ polling
      → b.config.trace_on ≡ false
      → os.receive_from b.sockfd 1024 n ≡ (some (pkt, from), n')
      → 0 < length pkt
      → length pkt < 1024
      → is_echo (copy_in b.rx_buffer 0 (λ j. get_or pkt j 0) (length pkt)) b.config.bridge_port
        ≡ false
      → (c : EthBridge) × ((receive throws os (b, n) >>= receives (length pkt))
          ≡ done (
            map
                (λ j. (ltb 1 j, if j == length pkt then b.rx_buffer j else get_or pkt j 0))
                (countdown (length pkt)),
            c,
            n',
          ))
        × (c.rx_pkt_cnt ≡ b.rx_pkt_cnt + 1)
        × (c.sockstr ≡ from)
        × (c.rx_stage ≡ polling)
  received_backwards b n n' [] from st quiet got pos few new = absurd (omega arith)
  received_backwards b n n' (x ∷ xs) from st quiet got pos few new =
      let pkt = x ∷ xs in
      let buf : Buffer = copy_in b.rx_buffer 0 (λ j. get_or pkt j 0) (length pkt) in
      let f : Buffer = λ j. if j == length pkt then b.rx_buffer j else get_or pkt j 0 in
      let c : EthBridge = record b {
        rec_len = some (length pkt);
        sockstr = from;
        rx_buffer = buf;
        rx_new_pkt = false;
        rx_stage = driving (length pkt);
      } in
      (
        record c {
          rx_new_pkt = false;
          rx_pkt = f 1;
          rx_stage = polling;
          rx_pkt_cnt = b.rx_pkt_cnt + 1;
        },
        rw (polled b n n' pkt from st quiet got pos new)
            (drives (length xs) c n' f refl few λ j le. ground arith),
        refl,
        refl,
        refl,
      )

  -- An echo, a datagram from the bridge's own port, changes nothing on the port and is not counted;
  -- but its sender becomes the bridge's peer all the same.
  pub echo_ignored :
      (b : EthBridge) (n n' : N) (pkt : List ℕ) (from : Peer)
      → b.rx_stage ≡ polling
      → os.receive_from b.sockfd 1024 n ≡ (some (pkt, from), n')
      → 0 < length pkt
      → is_echo (copy_in b.rx_buffer 0 (λ j. get_or pkt j 0) (length pkt)) b.config.bridge_port
        ≡ true
      → receive throws os (b, n)
        ≡ done (
          record b {
            rec_len = some (length pkt);
            sockstr = from;
            rx_buffer = copy_in b.rx_buffer 0 (λ j. get_or pkt j 0) (length pkt);
          },
          n',
        )
  unfolding receive
  echo_ignored b n n' pkt from st got pos echo = rw (st, got, lt→ltb 0 (length pkt) pos, echo) refl
