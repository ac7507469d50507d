-- ===== src/Worker.antt =====
-- The workers of urg_node/include/uam/workers: each encodes one command and decodes its reply.
pub mod Crc
pub mod Status
pub mod StatusTables
pub mod Request
pub mod Base
pub mod Kinds
pub mod Raw
pub mod RawText
pub mod Sensing
pub mod StatusData
pub mod Acceptance
pub mod BufferAcceptance
pub mod Agreement
pub mod Framed
pub mod Yr
