-- ===== src/Initiator/System.antt =====
-- The initiator in front of the router, with a memory behind one of its sockets (tlms/commons/
-- initiator.h, tlms/tlm_router/tlm_router.hpp, tlms/commons/memory.h).
use deltamodels.Base.{
  ap, ◌∙◌, length, length-append, ℕ, ◌+◌, ◌*◌, ◌/◌, ◌^◌, ◌≤◌, ◌<◌, ◌≡◌, refl, none, some, [], ◌∷◌,
  ◌++◌, arith, bit_and, get_elem?, done, raised, undefined, Handler,
}
use deltamodels.Tlm.{Call, Command, Transport, memcpy}
use deltamodels.Memory.{Memory, b_transport}
use deltamodels.Memory.Access.{IsServed, served_read, served_write, completed}
use deltamodels.Router
use deltamodels.Router.{Region, Bus, Router, row}
use deltamodels.Router.Decode.{Covers, Uncovered}
use deltamodels.Router.Forward.{b_transport-forwards}
use deltamodels.Initiator.Calls.{word, write_returns, read_returns, memcpy-memcpy}
use deltamodels.Initiator.{Bench, do_write, do_read}

-- The router as a block behind a socket: its state is its own and that of the blocks behind it.
unfoldable pub routed : {D : Type 0} → Handler → (ℕ → Transport D) → ℕ → Transport (Router × D)
routed throws targets id ((r, d), c) =
    elim (Router.b_transport throws targets id (record { router = r; devices = d; call = c })) [
      | done b ↦ done ((b.router, b.devices), b.call)
      | raised e b ↦ raised e ((b.router, b.devices), b.call)
      | undefined ↦ undefined
    ]

abbrev pub masked : Region → Call → Call
masked reg c = record c { trans = record c.trans { address = bit_and c.trans.address reg.mask } }

-- A call that the block behind the first region for its address serves.
pub routed_serves :
    {D : Type 0} (throws : Handler) (targets : ℕ → Transport D) (id i : ℕ) (reg : Region)
    (r : Router) (d d' : D) (c c' : Call)
    → get_elem? r.initiators_config i ≡ some reg
    → Covers reg c.trans.address
    → Uncovered r.initiators_config i c.trans.address
    → targets i (d, masked reg c) ≡ done (d', c')
    → routed throws targets id ((r, d), c)
      ≡ done ((record r { traces = r.traces ++ (row id i c c' ∷ []) }, d'), c')
unfolding routed
routed_serves throws targets id i reg r d d' c c' at covers free ret =
    rw
      (
        b_transport-forwards throws targets id (record { router = r; devices = d; call = c }) i reg
            d' c' at covers free ret,
        routed,
      )
      refl

module _ (throws : Handler) (targets : ℕ → Transport Memory) (id i : ℕ) (reg : Region) where
  -- What a written word, routed to the memory, leaves there and in the router.
  after_write : Bench (Router × Memory) → ℕ → ℕ → ℕ → Bench (Router × Memory)
  after_write s p addr wid =
      let c : Call = record {
        host = s.host;
        trans = word Command.write p addr wid none;
        delay = 0;
      } in
      let c' : Call = record (masked reg c) {
        trans = completed (masked reg c).trans;
        delay = 0 + 10;
      } in
      let m : Memory = record s.devices.1 {
        mem = memcpy s.devices.1.mem (4 * (bit_and addr reg.mask / 4)) s.host p 4;
        wr_ops = s.devices.1.wr_ops + 1;
      } in
      let r : Router = record s.devices.0 { traces = s.devices.0.traces ++ (row id i c c' ∷ []) } in
      record {
        init = record { addr = addr; wid = wid; ptr = p; byt = none };
        devices = (r, m);
        host = s.host;
      }

  written :
      (s : Bench (Router × Memory)) (p addr len wid : ℕ)
      → targets i ≡ b_transport
      → get_elem? s.devices.0.initiators_config i ≡ some reg
      → Covers reg addr
      → Uncovered s.devices.0.initiators_config i addr
      → bit_and addr reg.mask / 4 < s.devices.1.size
      → 4 ≤ wid
      → wid < 2 ^ 32
      → do_write throws (routed throws targets id) p addr len wid none s
        ≡ done (after_write s p addr wid)
  unfolding after_write
  written s p addr len wid mem at covers free inside wide small =
      let c : Call = record {
        host = s.host;
        trans = word Command.write p addr wid none;
        delay = 0;
      } in
      let served : IsServed s.devices.1.size (masked reg c).trans = record {
        in_range = inside;
        all_bytes = refl;
        one_word = omega arith;
        no_stream = omega arith;
      } in
      write_returns throws (routed throws targets id) s p addr len wid none _ _
        (routed_serves throws targets id i reg s.devices.0 s.devices.1 _ c _ at covers free (
          ap (λ (t : Transport Memory). t (s.devices.1, masked reg c)) mem
          ∙ served_write s.devices.1 (masked reg c) served refl))
        refl

  after_read : Bench (Router × Memory) → ℕ → ℕ → ℕ → Bench (Router × Memory)
  after_read s q addr len =
      let c : Call = record {
        host = s.host;
        trans = word Command.read q addr len none;
        delay = 0;
      } in
      let copied = memcpy s.host q s.devices.1.mem (4 * (bit_and addr reg.mask / 4)) 4 in
      let c' : Call = record {
        host = copied;
        trans = completed (masked reg c).trans;
        delay = 0 + 10;
      } in
      let r : Router = record s.devices.0 { traces = s.devices.0.traces ++ (row id i c c' ∷ []) } in
      record {
        init = record s.init { addr = addr; wid = len; ptr = q };
        devices = (r, record s.devices.1 { rd_ops = s.devices.1.rd_ops + 1 });
        host = copied;
      }

  fetched :
      (s : Bench (Router × Memory)) (q addr len wid : ℕ)
      → targets i ≡ b_transport
      → get_elem? s.devices.0.initiators_config i ≡ some reg
      → Covers reg addr
      → Uncovered s.devices.0.initiators_config i addr
      → bit_and addr reg.mask / 4 < s.devices.1.size
      → 4 ≤ len
      → len < 2 ^ 32
      → do_read throws (routed throws targets id) q addr len wid s ≡ done (after_read s q addr len)
  unfolding after_read
  fetched s q addr len wid mem at covers free inside wide small =
      let c : Call = record {
        host = s.host;
        trans = word Command.read q addr len none;
        delay = 0;
      } in
      let served : IsServed s.devices.1.size (masked reg c).trans = record {
        in_range = inside;
        all_bytes = refl;
        one_word = omega arith;
        no_stream = omega arith;
      } in
      read_returns throws (routed throws targets id) s q addr len wid _ _
        (routed_serves throws targets id i reg s.devices.0 s.devices.1 _ c _ at covers free (
          ap (λ (t : Transport Memory). t (s.devices.1, masked reg c)) mem
          ∙ served_read s.devices.1 (masked reg c) served refl))
        refl

  -- Through a router whose first region for an address leads to a memory that has the masked word, a
  -- write with a streaming width of at least 4 and a read with a length of at least 4 both return.
  -- The reader's four bytes are then the writer's, every other byte of the host is as it was, and the
  -- router has logged two rows more.
  do_read-do_write :
      (s : Bench (Router × Memory)) (p q addr len wid len' wid' : ℕ)
      → targets i ≡ b_transport
      → get_elem? s.devices.0.initiators_config i ≡ some reg
      → Covers reg addr
      → Uncovered s.devices.0.initiators_config i addr
      → bit_and addr reg.mask / 4 < s.devices.1.size
      → 4 ≤ wid
      → wid < 2 ^ 32
      → 4 ≤ len'
      → len' < 2 ^ 32
      → (t : Bench (Router × Memory)) × (u : Bench (Router × Memory)) × (do_write throws
            (routed throws targets id)
            p
            addr
            len
            wid
            none
            s
          ≡ done t)
        × (do_read throws (routed throws targets id) q addr len' wid' t ≡ done u)
        × (u.host ≡ memcpy s.host q s.host p 4)
        × (length u.devices.0.traces ≡ length s.devices.0.traces + 2)
  unfolding after_write after_read
  do_read-do_write s p q addr len wid len' wid' mem at covers free inside wide small wide' small' =
      let t = after_write s p addr wid in
      (
        t,
        after_read t q addr len',
        written s p addr len wid mem at covers free inside wide small,
        fetched t q addr len' wid' mem at covers free inside wide' small',
        memcpy-memcpy s.host s.devices.1.mem s.host q (4 * (bit_and addr reg.mask / 4)) p 4,
        omega (
          arith,
          length-append (s.devices.0.traces ++ (row id i _ _ ∷ [])) (row id i _ _ ∷ []),
          length-append s.devices.0.traces (row id i _ _ ∷ []),
        ),
      )
