-- ===== src/Decoder.antt =====
-- decoder-module: the GeoNetworking and BTP headers of a received packet. A packet is a list of
-- bytes; a pointer into it is the list of the bytes from there on, and a read past the last byte,
-- which the code does not guard against, is the fault `none`.
pub mod Bytes
pub mod Headers
pub mod GeoNet
pub mod Btp
pub mod Frontend
pub mod Samples
mod Tests
