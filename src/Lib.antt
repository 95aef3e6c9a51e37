-- ===== src/Lib.antt =====
-- Verification library of the SystemC models in this repository: transaction-level blocks, memories,
-- a wishbone bus and a CPU's tracers.
--
-- The parts and their files:
-- - Base: numbers, bytes and bits of words, lists, and how a call ends. `Run` has three endings:
--   the call returns, the report handler throws out of it with the state reached by then, or it
--   touches memory that is not its own, which C++ leaves undefined.
-- - Tlm: the generic payload, the caller's bytes and a blocking transport call, which the blocks of
--   tlms/ exchange.
-- - Router: `TLMRouter` (tlms/tlm_router/tlm_router.hpp). It decodes an address, cuts it down by the
--   region's mask and calls the block behind the socket, which is a parameter, as every block bound
--   to a socket is a `Transport` over its own state.
-- - Memory: `Memory<SIZE>` (tlms/commons/memory.h), with debug transport and the direct-memory hint.
-- - Rom: `TLM_ROM` (tlms/tlm_memories/tlm_rom.hpp).
-- - Bridge: `TLM2WB` (tlms/tlm_adapters/tlm2wishbone.hpp). `begin_transport` and `resume` are
--   `b_transport` cut at its waits, `wishbone_handler` is the process at a rising clock edge.
-- - WbRam: `WBRAM` (models/wishbone/wbram.hpp); `handleop` is the process at a rising clock edge.
-- - Wishbone: both on one bus, wired as in tlms/tlm_adapters/tests/test_wishbone_adapter.cpp; an edge
--   is one step of the two processes on the signals as they stood before it. Wishbone/Calls has single
--   calls, Wishbone/Flat the array of bytes that sequences of them act on.
-- - Sdram: `GENERIC_SDRAM` (models/memories/sdram/generic_sdram.hpp): decoder, commands, address
--   maps, write mask and log lines; Sdram/Backdoor has the backdoors, Sdram/Files `configure_region`
--   and `hexdump`. Sdram/Runs calls both processes in any order, and Sdram/History reads their log.
--   Sdram/Controller is `MockDDRController` of models/memories/tests/test_sdram.cpp on one bus with the
--   chip, with its `_write` and `_read`; Sdram/Accesses has the array of words that these act on.
-- - Flash: `N25QX` (models/memories/flash/N25QX.hpp): the state machine of a quad read at both clock
--   edges with the rows that it logs, and the loading of a file, whose bytes are a parameter; Flash/Widths
--   has the widths of its fields.
-- - Or1k: descriptors, table, decoder and tracers (models/wishbone/or1k/).
-- - Initiator: `Initiator` and its helpers (tlms/commons/initiator.h). `do_write` and `do_read` are
--   `_initiator_dowrite` and `_initiator_doread`; each runs one round of the thread that it wakes, in
--   front of any transport function. Initiator/System puts a router and a memory behind it,
--   Initiator/Banks a router with a memory at each socket and the address space that this makes,
--   Initiator/Stops accesses that no region covers.
-- - Net: the helpers of models/network/network_helpers.hpp (Packet), `MockGMII` of mock_gmii.hpp
--   (Gmii) and `EthBridge` of ethbridge.hpp (EthBridge), whose threads are cut at their waits;
--   Net/Wire is both on one clock, as in the test benches, with both processes of the bridge and
--   `start` looked at at rising edges; Net/Sides has what `receive` shares with the packer.
-- - Clock: `ClockGen` (models/clocking/clockgen.hpp).
-- - Blocks: `FDPE`, `TriState` (models/basic_blocks/) and the converters of
--   commons/testbench_utils.hpp.
-- - Checks: the checks of commons/assertions.hpp.
-- - Benches: test programs over the models. Benches/Sdram is models/memories/tests/test_sdram.cpp,
--   Benches/Routing and Benches/Multiport are test_basic_routing.cpp and test_multiport.cpp of
--   tlms/tlm_router/tests/, Benches/Or1k is models/wishbone/or1k/tests/test_instruction_tracer.cpp,
--   Benches/Flash models/memories/tests/test_flash.cpp and Benches/Clock
--   models/clocking/tests/test_clockgen.cpp. A test is a call that returns or ends with a report;
--   the constants of the sources, as numbers of accesses, addresses, values and input files, are
--   parameters.
-- - Logs: the `setup_logger` functions of the models, and `tlm_info` of tlms/commons/logging.hpp.
--
-- Numbers are natural numbers; unsigned arithmetic of 32 and 64 bits is written with its remainder
-- (`u32`, `u64`, `sub32`, `sub64`), and signed values are bit patterns. Pointers are addresses of the
-- host's bytes. Where a file's length, a measured clock or a number of cycles does not fit in the
-- `int` that the source keeps it in, the model says what the call does then: `none`, an exception or
-- an undefined end. The operation counters of the two memories, which are debug signals, do not wrap.
-- There is no fuel: the loops of the code are structural recursions, over lists, over the four bytes
-- of a word or, for the SDRAM's copying, clearing and loading, over the number of rounds computed
-- beforehand.
-- The loop of the bridge's callback is unrolled one acknowledge at a time.
--
-- `clk_gen`, which never ends, is run for a number of its rounds, and the processes on a clock for a
-- number of edges. A period of the controller's clock is one rise and one fall, and its chip's clock
-- enable is at 1 before the first.
--
-- Parameters: which severities of a report throw (`Handler`) and the word that a bit vector of unknown
-- bits reads as (`x_word`), which are SystemC's; the operating system's socket calls (`Sockets`); what
-- a file holds, and what the fresh buffer holds where the file does not fill it; spdlog's calls
-- (`Spdlog`), with their documented behaviour as hypotheses (`Documented`); comparison and printing of
-- the types that the checks are used at. The fields of packet headers stand where RFC 791 and RFC 768
-- put them, and the machine is little-endian.
--
-- Not modelled: the text and layout of log rows, console output, the simulator's scheduler beyond the
-- order of the processes at an edge, the test programs of the adapter and the Ethernet bridge but for their
-- wiring, the Verilog sources, and the copy of the spdlog library.
pub mod Base
pub mod Benches
pub mod Tlm
pub mod Router
pub mod Memory
pub mod Rom
pub mod WbRam
pub mod Bridge
pub mod Wishbone
pub mod Sdram
pub mod Or1k
pub mod Flash
pub mod Net
pub mod Clock
pub mod Initiator
pub mod Checks
pub mod Blocks
pub mod Logs
