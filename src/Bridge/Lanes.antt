-- ===== src/Bridge/Lanes.antt =====
-- Which byte of the caller's buffer goes to which lane of the bus word: byte `k` of the buffer is
-- lane `3 - k`, both ways (tlms/tlm_adapters/tlm2wishbone.hpp).
use deltamodels.Base.{
  ℕ, ◌+◌, ◌-◌, ◌<◌, ◌≡◌, true, ◌&&◌, Option, none, arith, leb, ltb, if◌then◌else◌, put_byte,
  get_bit, SameLanes, put_byte_zero, put_byte_one, put_byte_two, put_byte_three,
}
use deltamodels.Tlm.{Bytes}
use deltamodels.Bridge.{pack_data, pack_enables, unpack_data, enabled}

pub pack_data_lanes :
    (host : Bytes) (p w : ℕ)
    → ((j : ℕ) → host j < 256)
    → SameLanes (pack_data host p w) (host (p + 3)) (host (p + 2)) (host (p + 1)) (host p)
unfolding pack_data
pack_data_lanes host p w bytes =
    let w0 = put_byte w 0 (host (p + 3)) in
    let w1 = put_byte w0 1 (host (p + 2)) in
    let w2 = put_byte w1 2 (host (p + 1)) in
    ground (
      arith,
      put_byte_zero w (host (p + 3)) (bytes (p + 3)),
      put_byte_one w0 (host (p + 2)) (bytes (p + 2)),
      put_byte_two w1 (host (p + 1)) (bytes (p + 1)),
      put_byte_three w2 (host p) (bytes p),
    )

pub pack_enables_bits :
    (host : Bytes) (byt : Option ℕ) (s : ℕ)
    → (get_bit (pack_enables host byt s) 0 ≡ enabled host byt 3)
      × (get_bit (pack_enables host byt s) 1 ≡ enabled host byt 2)
      × (get_bit (pack_enables host byt s) 2 ≡ enabled host byt 1)
      × (get_bit (pack_enables host byt s) 3 ≡ enabled host byt 0)
unfolding pack_enables
pack_enables_bits host byt s = ground arith

-- Without a byte-enable pointer every lane is selected.
pub pack_enables_all :
    (host : Bytes) (s : ℕ)
    → (get_bit (pack_enables host none s) 0 ≡ true)
      × (get_bit (pack_enables host none s) 1 ≡ true)
      × (get_bit (pack_enables host none s) 2 ≡ true)
      × (get_bit (pack_enables host none s) 3 ≡ true)
unfolding enabled
pack_enables_all host s = pack_enables_bits host none s

-- What the bridge stores of a word is what it would pack into it.
pub unpack_data_lanes :
    (host source : Bytes) (p q w j : ℕ)
    → SameLanes w (source (q + 3)) (source (q + 2)) (source (q + 1)) (source q)
    → unpack_data host p w j ≡ (if leb p j && ltb j (p + 4) then source (q + (j - p)) else host j)
unfolding unpack_data
unpack_data_lanes host source p q w j same = ground arith
