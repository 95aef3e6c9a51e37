-- ===== src/Or1k.antt =====
-- models/wishbone/or1k/: the instruction descriptors, the table of them, the decoder, and the two
-- tracers, which turn bus cycles into log records.
pub mod Text
pub mod Descriptor
pub mod Defs
pub mod Decoder
pub mod Tracers
pub mod Fields
pub mod Shadows
pub mod Invalid
pub mod Streams
pub mod Traces
pub mod Tests
