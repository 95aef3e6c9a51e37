-- ===== src/Net/Tests.antt =====
-- Runs of the models of models/network/ on a system that keeps what is sent and has one datagram to
-- receive.
use deltamodels.Base.{
  ℕ, zero, suc, Bool, ◌+◌, ◌%◌, ◌^◌, ◌<◌, ◌≡◌, refl, arith, true, false, Option, none, some, List,
  [], ◌∷◌, get_or, length, replicate, done, raised, error, undefined, default_handler, ◌>>=◌,
}
use deltamodels.Net.Packet.{
  Buffer, bytes_from, copy_in, is_echo, print_ip_packet, generate_ip_packet, checksum,
}
use deltamodels.Net.Gmii
use deltamodels.Net.Gmii.{waiting, stopped}
use deltamodels.Net.EthBridge.{
  EthBridge, Peer, Sockets, udp, idle, RxStage, polling, driving, default_configuration, init,
  linkup, receive,
}
use deltamodels.Net.Wire.{Wire, Hears, clock_edge, clock_edges, packet_sent}
use deltamodels.Net.Limits.{packet_overruns}
use deltamodels.Net.Receiving.{receives, received_backwards, echo_ignored}
use deltamodels.Net.Datagrams.{print_ip_packet-generate_ip_packet, is_echo-generate_ip_packet}
use deltamodels.Net.Sums.{total, checksum_completes}

record System : Type 0 where
  outgoing : List (List ℕ × Peer)
  incoming : Option (List ℕ × Peer)

abbrev os : Sockets System
os = record {
  open_raw = λ p n. (some 3, n);
  include_header = λ fd n. n;
  send_to = λ fd pkt to n. (true, record n { outgoing = (pkt, to) ∷ n.outgoing });
  receive_from = λ fd len n. (n.incoming, record n { incoming = none });
}

abbrev bridge : EthBridge
bridge = init (default_configuration udp)

abbrev peer : Peer
peer = record { ip = "10.0.0.1"; port = 9 }

abbrev with_datagram : List ℕ → System
with_datagram pkt = record { outgoing = []; incoming = some (pkt, peer) }

abbrev drained : System
drained = record { outgoing = []; incoming = none }

-- A datagram of three bytes comes in at the edge that starts the packet, which goes to its sender.
abbrev three_bytes : Wire System
three_bytes = record {
  gmii = Gmii.init (10 ∷ 20 ∷ 30 ∷ []);
  bridge = bridge;
  system = with_datagram (1 ∷ 2 ∷ 3 ∷ []);
}

abbrev received_then : Option ℕ → RxStage → Bool → ℕ → ℕ → EthBridge
received_then len stage new byte count = record bridge {
  sockstr = peer;
  rx_buffer = copy_in (λ j. 0) 0 (λ j. get_or (1 ∷ 2 ∷ 3 ∷ []) j 0) 3;
  rec_len = len;
  rx_stage = stage;
  rx_new_pkt = new;
  rx_pkt = byte;
  rx_pkt_cnt = count;
}

-- The thread `receive` where nothing comes in.
still :
    (k : ℕ) (s : EthBridge × System)
    → receive default_handler os s ≡ done s
    → Hears default_handler os k s s
still zero s e = e
still (suc k) s e = (s, e, still k s e)

Hears-datagram :
    Hears default_handler os 6
      (bridge, with_datagram (1 ∷ 2 ∷ 3 ∷ []))
      (received_then none polling false 2 1, drained)
unfolding init is_echo receive
Hears-datagram = (
  (received_then (some 3) (driving 3) false 0 0, drained),
  refl,
  (
    (received_then (some 3) (driving 2) true 0 0, drained),
    refl,
    (
      (received_then (some 3) (driving 1) true 3 0, drained),
      refl,
      (
        (received_then (some 3) polling false 2 1, drained),
        refl,
        ((received_then none polling false 2 1, drained), refl, still 1 _ refl),
      ),
    ),
  ),
)

packet_sent_example :
    (v : Wire System) × ((clock_edge default_handler os true three_bytes
        >>= clock_edges default_handler os 6)
      ≡ done v)
    × (v.system ≡ record { outgoing = (10 ∷ 20 ∷ 30 ∷ [], peer) ∷ []; incoming = none })
    × (v.bridge.tx_pkt_cnt ≡ 1)
    × (v.bridge.tx_state ≡ idle)
    × (v.gmii.stage ≡ stopped)
unfolding init
packet_sent_example =
    packet_sent default_handler os three_bytes (10 ∷ 20 ∷ 30 ∷ [])
      (received_then none polling false 2 1, drained)
      (record { outgoing = (10 ∷ 20 ∷ 30 ∷ [], peer) ∷ []; incoming = none }) refl refl refl refl
      (omega arith) (omega arith) Hears-datagram refl refl

abbrev many_bytes : List ℕ
many_bytes = replicate 1025 7

abbrev long : Wire System
long = record three_bytes { gmii = record three_bytes.gmii { pkt = many_bytes }; system = drained }

-- The bridge once it has polled in vain.
abbrev polled : EthBridge
polled = record bridge { rec_len = none }

Hears-nothing : Hears default_handler os 1026 (bridge, drained) (polled, drained)
unfolding init receive
Hears-nothing = ((polled, drained), refl, still 1025 (polled, drained) refl)

packet_overruns_example :
    (clock_edge default_handler os true long >>= clock_edges default_handler os 1026) ≡ undefined
unfolding init
packet_overruns_example =
    let many : length many_bytes ≡ 1025 = refl in
    packet_overruns default_handler os long many_bytes (polled, drained) refl refl refl refl
      (omega (arith, many)) Hears-nothing

received_backwards_example :
    (c : EthBridge) × ((receive default_handler os (bridge, with_datagram (1 ∷ 2 ∷ 3 ∷ []))
        >>= receives default_handler os 3)
      ≡ done ((true, 0) ∷ (true, 3) ∷ (false, 2) ∷ [], c, drained))
    × (c.rx_pkt_cnt ≡ 1)
    × (c.sockstr ≡ peer)
    × (c.rx_stage ≡ polling)
unfolding init is_echo
received_backwards_example =
    received_backwards default_handler os bridge (with_datagram (1 ∷ 2 ∷ 3 ∷ [])) drained
      (1 ∷ 2 ∷ 3 ∷ []) peer refl refl refl (omega arith) (omega arith) refl

-- A header of four bytes and the port 5002.
abbrev echo : List ℕ
echo = 0x41 ∷ 0 ∷ 0 ∷ 0 ∷ 0x13 ∷ 0x8a ∷ []

echo_changes_nothing_driven :
    receive default_handler os (bridge, with_datagram echo)
    ≡ done (
      record bridge {
        rec_len = some 6;
        sockstr = peer;
        rx_buffer = copy_in (λ j. 0) 0 (λ j. get_or echo j 0) 6;
      },
      drained,
    )
unfolding init is_echo
echo_changes_nothing_driven =
    echo_ignored default_handler os bridge (with_datagram echo) drained echo peer refl refl
      (omega arith) refl

abbrev junk : Buffer
junk j = 77

abbrev letters : Buffer
letters j = 65 + j

print_ip_packet-generate_ip_packet_example :
    let (pkt, size) = generate_ip_packet junk letters 3 in
    print_ip_packet pkt size false
    ≡ some (record {
      version = 4;
      header_bytes = 20;
      tos = 16;
      tot_len = 0;
      id = 10212;
      ttl = 64;
      protocol = 17;
      check = 0;
      source_ip = 127 ∷ 0 ∷ 0 ∷ 1 ∷ [];
      dest_ip = 127 ∷ 0 ∷ 0 ∷ 1 ∷ [];
      source_port = 5002;
      dest_port = 5000;
      udp_check = 0;
      udp_len = 11;
      payload = 65 ∷ 66 ∷ 67 ∷ [];
      dump = none;
    })
unfolding bytes_from
print_ip_packet-generate_ip_packet_example =
    print_ip_packet-generate_ip_packet junk letters 3 (omega arith)

generated_is_echo : is_echo (generate_ip_packet junk letters 3).0 5002 ≡ true
generated_is_echo = is_echo-generate_ip_packet junk letters 3 5002

-- The first words of a header.
abbrev header : List ℕ
header = 0x1045 ∷ 0x1f00 ∷ 0xe427 ∷ []

checksum_completes_example :
    ((total header + checksum header) % 65535 ≡ 0) × (checksum header < 2 ^ 16)
checksum_completes_example =
    checksum_completes header (omega arith, (omega arith, (omega arith, tt))) (omega arith)

-- Without a socket the link stays down.
abbrev no_sockets : Sockets System
no_sockets = record os { open_raw = λ p n. (none, n) }

refused_link :
    linkup default_handler no_sockets (bridge, drained)
    ≡ raised
        (record { severity = error; msg_type = "ETHBRIDGE" })
        (record bridge { sockfd = none }, drained)
unfolding linkup init
refused_link = refl
