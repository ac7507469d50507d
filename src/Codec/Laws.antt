-- ===== src/Codec/Laws.antt =====
-- The decoding of fields: their digits, and where they are read.
mod Digits
mod Reading
pub use Digits.*
pub use Reading.*
