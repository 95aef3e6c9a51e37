-- ===== src/Net/EthBridge.antt =====
-- `EthBridge` of models/network/ethbridge.hpp. The calls of the operating system are a parameter,
-- `Sockets`; console output is left out, and the packet counters do not wrap.
use Prim.Native.String.{String}
use deltamodels.Base.{
  ℕ, ◌+◌, ◌-◌, Bool, true, false, Option, none, some, List, ltb, ◌==◌, if◌then◌else◌, length,
  get_or, Run, done, raised, Handler, error, report, in_bounds, ◌>>=◌, ◌>>◌,
}
use deltamodels.Net.Packet.{Buffer, bytes_from, set_byte, copy_in, is_echo, print_ip_packet}

-- `PROTOCOL_TYPE`
pub data Protocol : Type 0 where
  udp tcp : Protocol

-- What `sockstr` holds.
pub record Peer : Type 0 where
  pub ip : String
  pub port : ℕ

-- A negative descriptor, count or length is `none` or `false`.
pub record Sockets (N : Type 0) : Type 0 where
  pub open_raw : Protocol → N → Option ℕ × N
  pub include_header : Option ℕ → N → N
  pub send_to : Option ℕ → List ℕ → Peer → N → Bool × N
  pub receive_from : Option ℕ → ℕ → N → Option (List ℕ × Peer) × N

pub record Configuration : Type 0 where
  pub protocol : Protocol
  pub bridge_ip : String
  pub remote_ip : String
  pub bridge_port : ℕ
  pub remote_port : ℕ
  pub trace_on : Bool

-- The member initialisers, with a given protocol.
abbrev pub default_configuration : Protocol → Configuration
default_configuration p = record {
  protocol = p;
  bridge_ip = "127.0.0.1";
  remote_ip = "127.0.0.1";
  bridge_port = 5002;
  remote_port = 5000;
  trace_on = false;
}

pub data TxState : Type 0 where
  idle processing finalizing : TxState

-- Where `receive` waits: to poll the socket, or to drive the byte at `rem`.
pub data RxStage : Type 0 where
  polling : RxStage
  driving : ℕ → RxStage

abbrev max_buf_size : ℕ
max_buf_size = 1024

pub record EthBridge : Type 0 where
  pub config : Configuration
  pub sockfd : Option ℕ
  pub sockstr : Peer
  pub tx_buffer : Buffer
  pub tx_pkt_cnt : ℕ
  pub rx_buffer : Buffer
  pub rx_pkt_cnt : ℕ
  pub tx_state : TxState
  pub tx_idx : ℕ
  pub rec_len : Option ℕ
  pub rx_stage : RxStage
  pub rx_new_pkt : Bool
  pub rx_pkt : ℕ

-- The construction of a bridge.
unfoldable pub init : Configuration → EthBridge
init config = record {
  config = config;
  sockfd = some 0;
  sockstr = record { ip = "0.0.0.0"; port = 0 };
  tx_buffer = λ j. 0;
  tx_pkt_cnt = 0;
  rx_buffer = λ j. 0;
  rx_pkt_cnt = 0;
  tx_state = idle;
  tx_idx = 0;
  rec_len = some 0;
  rx_stage = polling;
  rx_new_pkt = false;
  rx_pkt = 0;
}

module _ {N : Type 0} (throws : Handler) (os : Sockets N) where
  abbrev pub Outcome : Type 0
  Outcome = Run (EthBridge × N) (EthBridge × N)

  check_socket : Option ℕ → EthBridge × N → Run (EthBridge × N) (Unit {0})
  check_socket none s = report throws error "ETHBRIDGE" s
  check_socket (some fd) s = done tt

  unfoldable pub linkup : EthBridge × N → Outcome
  unfolding check_socket
  linkup (b, n) = do
    let (fd, n') = os.open_raw b.config.protocol n
    check_socket fd (record b { sockfd = fd }, n')
    done (
      record b {
        sockfd = fd;
        sockstr = record { ip = b.config.remote_ip; port = b.config.remote_port };
      },
      os.include_header fd n',
    )

  -- With the trace on the packet is printed, which throws for one shorter than its headers.
  unfoldable pub trace : Buffer → ℕ → EthBridge × N → Run (EthBridge × N) (Unit {0})
  trace pkt len (b, n) =
      let printed : Run (EthBridge × N) (Unit {0}) = elim (print_ip_packet pkt len false) [
        | some _ ↦ done tt
        | none ↦ raised (record { severity = error; msg_type = "std::length_error" }) (b, n)
      ] in
      if b.config.trace_on then printed else done tt

  unfoldable pub transmit : EthBridge × N → Outcome
  unfolding trace bytes_from
  transmit (b, n) = do
    trace b.tx_buffer b.tx_idx (b, n)
    let (sent, n') = os.send_to b.sockfd (bytes_from b.tx_buffer 0 b.tx_idx) b.sockstr n
    if sent
        then done (record b { tx_pkt_cnt = b.tx_pkt_cnt + 1 }, n')
        else (report throws error "ETHBRIDGE" (b, n') >>= λ _. done (b, n'))

  -- `tx_buffer[tx_idx++] = …`
  unfoldable pub push_byte : ℕ → EthBridge × N → Outcome
  push_byte byte (b, n) = do
    in_bounds (ltb b.tx_idx max_buf_size)
    done (record b { tx_buffer = set_byte b.tx_buffer b.tx_idx byte; tx_idx = b.tx_idx + 1 }, n)

  -- `pack` by its state; the process that it spawns runs at the same edge, after it.
  unfoldable pub pack_in : TxState → Bool → ℕ → EthBridge × N → Outcome
  unfolding push_byte transmit
  pack_in idle new byte (b, n) =
      if new
      then push_byte byte (record b { tx_idx = 0; tx_state = processing }, n)
      else done (b, n)
  pack_in processing new byte (b, n) =
      if new then push_byte byte (b, n) else done (record b { tx_state = finalizing }, n)
  pack_in finalizing new byte (b, n) = transmit (record b { tx_state = idle }, n)

  unfoldable pub pack : Bool → ℕ → EthBridge × N → Outcome
  unfolding pack_in
  pack new byte (b, n) = pack_in b.tx_state new byte (b, n)

  -- What follows a successful `recvfrom`.
  unfoldable pub accept : List ℕ → EthBridge × N → Outcome
  unfolding is_echo trace
  accept pkt (b, n) = do
    let start = do
      trace b.rx_buffer (length pkt) (b, n)
      done (record b { rx_new_pkt = false; rx_stage = driving (length pkt) }, n)
    if ltb 0 (length pkt)
        then (if is_echo b.rx_buffer b.config.bridge_port then done (b, n) else start)
        else done (b, n)

  unfoldable pub received : Option (List ℕ × Peer) → EthBridge × N → Outcome
  unfolding accept
  received none (b, n) = done (record b { rec_len = none }, n)
  received (some (pkt, from)) (b, n) = accept pkt (
    record b {
      rec_len = some (length pkt);
      sockstr = from;
      rx_buffer = copy_in b.rx_buffer 0 (λ j. get_or pkt j 0) (length pkt);
    },
    n,
  )

  unfoldable pub poll : EthBridge × N → Outcome
  unfolding received
  poll (b, n) = let (r, n') = os.receive_from b.sockfd max_buf_size n in received r (b, n')

  -- One round of the inner loop, and what follows its last round up to the next wait.
  unfoldable pub drive : ℕ → EthBridge × N → Outcome
  drive rem (b, n) = do
    in_bounds (ltb rem max_buf_size)
    let left = rem - 1
    let shown = record b { rx_new_pkt = true; rx_pkt = b.rx_buffer rem; rx_stage = driving left }
    if left == 0
        then done (
          record shown { rx_pkt_cnt = b.rx_pkt_cnt + 1; rx_new_pkt = false; rx_stage = polling },
          n,
        )
        else done (shown, n)

  unfoldable pub receive_in : RxStage → EthBridge × N → Outcome
  unfolding poll drive
  receive_in polling s = poll s
  receive_in (driving rem) s = drive rem s

  -- The thread `receive` from one wait to the next.
  unfoldable pub receive : EthBridge × N → Outcome
  unfolding receive_in
  receive (b, n) = receive_in b.rx_stage (b, n)
