-- ===== src/Worker/Crc.antt =====
-- `boost::crc_optimal<16, 0x1021, 0, 0, true, true>`, which
-- urg_node/include/uam/workers/uam_worker_base.h takes from Boost: a checksum of 16 bits over bytes.
use urg_node.Prelude.{ℕ, ◌^◌, ◌<◌}
use urg_node.Codec.Bytes.{Bytes}

pub record Crc : Type 0 where
  pub checksum : Bytes → ℕ
  -- The register has 16 bits.
  pub checksum_lt : (bs : Bytes) → checksum bs < 16 ^ 4
