-- ===== src/Codec.antt =====
-- The byte level of the protocol: memory, hexadecimal text and the decoding of one field.
pub mod Bytes
pub mod Hex
pub mod Stream
pub mod Field
pub mod Laws
