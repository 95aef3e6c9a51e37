-- ===== src/Initiator/Banks.antt =====
-- A memory behind each socket of the router (tlms/tlm_router/tlm_router.hpp, tlms/commons/memory.h),
-- accesses by the initiator's helpers (tlms/commons/initiator.h), and the address space that they
-- act on.
use mathlib.Core.Path.{fun_ext}
use deltamodels.Base.{
  ◌+◌, ℕ, ◌*◌, ◌/◌, ◌^◌, ◌≤◌, ◌<◌, ◌≡◌, refl, some, List, [], ◌∷◌, arith, bit_and, get_elem?, Run,
  done, raised, undefined, Handler, ◌>>=◌, ◌==◌, if◌then◌else◌, Bool,
}
use deltamodels.Tlm.{Bytes, Call, Transport, memcpy}
use deltamodels.Memory.{Memory, b_transport}
use deltamodels.Router.{Region, Router}
use deltamodels.Router.Decode.{Covers, Uncovered}
use deltamodels.Initiator.System.{routed}
use deltamodels.Initiator.{Bench, do_write_len, do_read_len}

abbrev pub Banks : Type 0
Banks = ℕ → Memory

abbrev pub set_bank : ℕ → Memory → Banks → Banks
set_bank i m d j = if j == i then m else d j

-- The memory behind socket `i`.
pub on_bank : ℕ → Transport Banks
on_bank i (d, c) = elim (b_transport (d i, c)) [
  | done (m, c') ↦ done (set_bank i m d, c')
  | raised e (m, c') ↦ raised e (set_bank i m d, c')
  | undefined ↦ undefined
]

-- A call of the test bench, with the socket and the region that its address belongs to.
pub record Access : Type 0 where
  pub is_write : Bool
  pub ptr : ℕ
  pub addr : ℕ
  pub len : ℕ
  pub socket : ℕ
  pub region : Region

-- The place of the first byte in the socket's memory.
abbrev pub offset : Access → ℕ
offset a = 4 * (bit_and a.addr a.region.mask / 4)

-- The socket's region is the first one for the address, and its memory has the masked word.
pub record IsRouted (cs : List Region) (sizes : ℕ → ℕ) (a : Access) : Type 0 where
  pub at : get_elem? cs a.socket ≡ some a.region
  pub covers : Covers a.region a.addr
  pub free : Uncovered cs a.socket a.addr
  pub inside : bit_and a.addr a.region.mask / 4 < sizes a.socket
  pub wide : 4 ≤ a.len
  pub small : a.len < 2 ^ 32

abbrev pub AllRouted : List Region → (ℕ → ℕ) → List Access → Type 0
AllRouted cs sizes [] = Unit
AllRouted cs sizes (a ∷ rest) = IsRouted cs sizes a × AllRouted cs sizes rest

-- The specification: an array of bytes for each socket, with the numbers of writes and reads that it
-- has seen, beside the caller's bytes.
pub record Space : Type 0 where
  pub cells : ℕ → Bytes
  pub writes : ℕ → ℕ
  pub reads : ℕ → ℕ
  pub host : Bytes

abbrev pub count : ℕ → (ℕ → ℕ) → ℕ → ℕ
count i f k = if k == i then f k + 1 else f k

abbrev pub flat_access : Access → Space → Space
flat_access a f =
    if a.is_write
    then record f {
      cells =
          λ k. if k == a.socket then memcpy (f.cells k) (offset a) f.host a.ptr 4 else f.cells k;
      writes = count a.socket f.writes;
    }
    else record f {
      host = memcpy f.host a.ptr (f.cells a.socket) (offset a) 4;
      reads = count a.socket f.reads;
    }

abbrev pub flat_accesses : List Access → Space → Space
flat_accesses [] f = f
flat_accesses (a ∷ rest) f = flat_accesses rest (flat_access a f)

abbrev pub System : Type 0
System = Bench (Router × Banks)

abbrev pub view : System → Space
view s = record {
  cells = λ k. (s.devices.1 k).mem;
  writes = λ k. (s.devices.1 k).wr_ops;
  reads = λ k. (s.devices.1 k).rd_ops;
  host = s.host;
}

abbrev pub sizes : Banks → ℕ → ℕ
sizes d i = (d i).size

pub set_bank-sizes :
    (i : ℕ) (m : Memory) (d : Banks) → m.size ≡ (d i).size → sizes (set_bank i m d) ≡ sizes d
set_bank-sizes i m d same = fun_ext λ j. ground arith

pub on_bank_serves :
    (i : ℕ) (d : Banks) (m : Memory) (c c' : Call)
    → b_transport (d i, c) ≡ done (m, c')
    → on_bank i (d, c) ≡ done (set_bank i m d, c')
unfolding on_bank
on_bank_serves i d m c c' ret = rw (on_bank, ret) refl

module _ (throws : Handler) (id : ℕ) where
  unfoldable pub access : Access → System → Run System System
  access a s =
      if a.is_write
      then do_write_len throws (routed throws on_bank id) a.ptr a.addr a.len s
      else do_read_len throws (routed throws on_bank id) a.ptr a.addr a.len s

  unfoldable pub accesses : List Access → System → Run System System
  unfolding access
  accesses [] s = done s
  accesses (a ∷ rest) s = access a s >>= accesses rest
