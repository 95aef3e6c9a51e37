-- ===== src/Net/Packet.antt =====
-- models/network/network_helpers.hpp. A buffer is a function from positions to bytes. The fields of
-- `iphdr` and `udphdr` stand where RFC 791 and RFC 768 put them; a field that the code does not pass
-- through `ntohs` is read as a little-endian machine reads it.
use deltamodels.Base.{
  ℕ, zero, suc, ◌+◌, ◌-◌, ◌*◌, ◌/◌, ◌%◌, ◌^◌, Bool, ◌&&◌, Option, none, some, List, [], ◌∷◌, map,
  leb, ltb, ◌==◌, if◌then◌else◌, bit_and, shr, u16, u32, u64,
}

abbrev pub Buffer : Type 0
Buffer = ℕ → ℕ

-- The `n` bytes from position `p` on.
unfoldable pub bytes_from : Buffer → ℕ → ℕ → List ℕ
bytes_from b p zero = []
bytes_from b p (suc n) = b p ∷ bytes_from b (p + 1) n

abbrev pub set_byte : Buffer → ℕ → ℕ → Buffer
set_byte b p v j = if j == p then v else b j

-- `memcpy(&b[p], src, n)`
abbrev pub copy_in : Buffer → ℕ → Buffer → ℕ → Buffer
copy_in b p src n j = if leb p j && ltb j (p + n) then src (j - p) else b j

-- `ntohs` of the 16-bit field at `p`, and storing `htons` of a value there.
abbrev be16 : Buffer → ℕ → ℕ
be16 b p = b p * 256 + b (p + 1)

abbrev set_be16 : Buffer → ℕ → ℕ → Buffer
set_be16 b p v = set_byte (set_byte b p (u16 v / 256)) (p + 1) (v % 256)

abbrev le16 : Buffer → ℕ → ℕ
le16 b p = b p + b (p + 1) * 256

-- `ihl` in bytes.
abbrev header_length : Buffer → ℕ
header_length b = b 0 % 16 * 4

-- The packet's length is not looked at.
unfoldable pub is_echo : Buffer → ℕ → Bool
is_echo pkt port = be16 pkt (header_length pkt) == port

-- The lines that `printIPPacket` prints.
pub record Printed : Type 0 where
  pub version : ℕ
  pub header_bytes : ℕ
  pub tos : ℕ
  pub tot_len : ℕ
  pub id : ℕ
  pub ttl : ℕ
  pub protocol : ℕ
  pub check : ℕ
  pub source_ip : List ℕ
  pub dest_ip : List ℕ
  pub source_port : ℕ
  pub dest_port : ℕ
  pub udp_check : ℕ
  pub udp_len : ℕ
  pub payload : List ℕ
  pub dump : Option (List ℕ)

-- `(unsigned int) c` for a signed `char`.
abbrev char_to_uint : ℕ → ℕ
char_to_uint c = if ltb c 128 then c else c + (2 ^ 32 - 2 ^ 8)

-- `none` where `remaining_data` is negative: the constructor of `std::string` then throws.
unfoldable pub print_ip_packet : Buffer → ℕ → Bool → Option Printed
unfolding bytes_from
print_ip_packet pkt pktlen verbose =
    let udp = header_length pkt in
    if ltb pktlen (udp + 8)
    then none
    else some (record {
      version = pkt 0 / 16;
      header_bytes = udp;
      tos = pkt 1;
      tot_len = be16 pkt 2;
      id = be16 pkt 4;
      ttl = pkt 8;
      protocol = pkt 9;
      check = be16 pkt 10;
      source_ip = bytes_from pkt 12 4;
      dest_ip = bytes_from pkt 16 4;
      source_port = be16 pkt udp;
      dest_port = be16 pkt (udp + 2);
      udp_check = le16 pkt (udp + 6);
      udp_len = be16 pkt (udp + 4);
      payload = bytes_from pkt (udp + 8) (pktlen - (udp + 8));
      dump = if verbose then some (map char_to_uint (bytes_from pkt 0 pktlen)) else none;
    })

-- `inet_addr("127.0.0.1")` stored at `p`.
abbrev set_loopback : Buffer → ℕ → Buffer
set_loopback b p = set_byte (set_byte (set_byte (set_byte b p 127) (p + 1) 0) (p + 2) 0) (p + 3) 1

-- The assignments to `iph`, those below the payload included.
ip_header : Buffer → Buffer
ip_header b0 =
    let b1 = set_byte (set_byte b0 0 0x45) 1 16 in
    let b2 = set_byte (set_byte (set_be16 b1 4 10212) 8 64) 9 17 in
    let b3 = set_loopback (set_loopback b2 12) 16 in
    let b4 = set_be16 b3 6 0x4000 in set_be16 (set_be16 b4 2 0) 10 0

-- The assignments to `uh`; `len` is the datagram's length.
udp_header : Buffer → ℕ → Buffer
udp_header b len = set_be16 (set_be16 (set_be16 (set_be16 b 20 5002) 22 5000) 26 0) 24 len

-- The filled buffer, with `buffsize`.
unfoldable pub generate_ip_packet : Buffer → Buffer → ℕ → Buffer × ℕ
unfolding ip_header udp_header
generate_ip_packet sendbuff payload payload_size = (
  udp_header (copy_in (ip_header sendbuff) 28 payload payload_size) (8 + payload_size),
  u32 (28 + payload_size),
)

-- `htons` of a loaded 16-bit word.
abbrev pub htons : ℕ → ℕ
htons w = w % 256 * 256 + w / 256

-- The summing loop of `checksum`.
unfoldable pub sum_words : ℕ → List ℕ → ℕ
sum_words sum [] = sum
sum_words sum (w ∷ ws) = sum_words (u64 (sum + htons w)) ws

unfoldable pub checksum : List ℕ → ℕ
unfolding sum_words
checksum buff =
    let sum = sum_words 0 buff in
    let once = shr sum 16 + bit_and sum 0xffff in
    let twice = u64 (once + shr once 16) in u16 (2 ^ 64 - 1 - twice)
