-- ===== src/Net/Datagrams.antt =====
-- Generated packets read back, and recognised as echoes (models/network/network_helpers.hpp).
use deltamodels.Base.{
  false, ℕ, zero, suc, ◌+◌, ◌-◌, ◌*◌, ◌/◌, ◌%◌, ◌^◌, ◌≤◌, ◌<◌, ◌≡◌, refl, ap, ◌∙◌, none, some, [],
  ◌∷◌, ◌==◌, arith, le→ltb, u16, u32,
}
use deltamodels.Net.Packet.{Buffer, bytes_from, is_echo, print_ip_packet, generate_ip_packet}

bytes_from_ext :
    (b c : Buffer) (n p q : ℕ)
    → ((j : ℕ) → j < n → b (p + j) ≡ c (q + j))
    → bytes_from b p n ≡ bytes_from c q n
unfolding bytes_from
bytes_from_ext b c zero p q same = refl
bytes_from_ext b c (suc n) p q same = cc (
  ap (λ (t : ℕ). b t) (let e : p + 0 ≡ p = omega arith in e),
  ap (λ (t : ℕ). c t) (let e : q + 0 ≡ q = omega arith in e),
  same 0 (omega arith),
  bytes_from_ext b c n (p + 1) (q + 1) λ j h.
      let e : p + 1 + j ≡ p + suc j = omega arith in
      let f : q + 1 + j ≡ q + suc j = omega arith in rw (e, f) (same (suc j) (omega arith)),
)

-- The filled buffer at its fixed fields and in its payload.
generated :
    (sendbuff payload : Buffer) (n j : ℕ)
    → 28 ≤ j
    → j < n + 28
    → (generate_ip_packet sendbuff payload n).0 j ≡ payload (j - 28)
unfolding generate_ip_packet
generated sendbuff payload n j lo hi = ground arith

-- A generated packet is printed with the constants of the code, the loopback addresses, the ports
-- 5002 and 5000, the datagram's length as 16 bits, and the payload as it was given, for every
-- content that the buffer had before and every payload of less than 2^31 bytes.
pub print_ip_packet-generate_ip_packet :
    (sendbuff payload : Buffer) (n : ℕ)
    → n < 2 ^ 31
    → let (pkt, size) = generate_ip_packet sendbuff payload n in
      print_ip_packet pkt size false
      ≡ some (record {
        version = 4;
        header_bytes = 20;
        tos = 16;
        tot_len = 0;
        id = 10212;
        ttl = 64;
        protocol = 17;
        check = 0;
        source_ip = 127 ∷ 0 ∷ 0 ∷ 1 ∷ [];
        dest_ip = 127 ∷ 0 ∷ 0 ∷ 1 ∷ [];
        source_port = 5002;
        dest_port = 5000;
        udp_check = 0;
        udp_len = u16 (8 + n);
        payload = bytes_from payload 0 n;
        dump = none;
      })
unfolding print_ip_packet generate_ip_packet
print_ip_packet-generate_ip_packet sendbuff payload n small =
    let pkt = (generate_ip_packet sendbuff payload n).0 in
    let size : u32 (28 + n) ≡ n + 28 = omega arith in
    let room : n + 28 - (20 + 8) ≡ n = omega arith in
    let body : bytes_from pkt (20 + 8) n ≡ bytes_from payload 0 n =
      bytes_from_ext pkt payload n 28 0 λ j h.
        generated sendbuff payload n (28 + j) (omega arith) (omega arith)
        ∙ ap (λ (t : ℕ). payload t) (omega arith) in
    let len : u16 (8 + n) / 256 * 256 + (8 + n) % 256 ≡ u16 (8 + n) = omega arith in
    rw (size, le→ltb (n + 28) (20 + 8) (omega arith), room, body, len) refl

-- A generated packet is an echo of a bridge on port 5002 and of no other.
pub is_echo-generate_ip_packet :
    (sendbuff payload : Buffer) (n port : ℕ)
    → is_echo (generate_ip_packet sendbuff payload n).0 port ≡ (5002 == port)
unfolding is_echo generate_ip_packet
is_echo-generate_ip_packet sendbuff payload n port = refl
