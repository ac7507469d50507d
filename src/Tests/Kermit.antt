-- ===== src/Tests/Kermit.antt =====
-- A checksum to run the model with: the reflected CRC of 16 bits with polynomial 0x1021 that
-- urg_node/include/uam/workers/uam_worker_base.h asks Boost for. The test is the request of
-- urg_node/src/urg_c_wrapper.cpp for DL00, which carries its checksum in its text.
use urg_node.Prelude.{
  ℕ, zero, suc, ◌+◌, ◌*◌, ◌/◌, ◌%◌, ◌^◌, ◌≡◌, refl, arith, [], ◌∷◌, ◌==◌, if◌then◌else◌,
}
use urg_node.Codec.Bytes.{Bytes}
use urg_node.Worker.Crc.{Crc}

-- The exclusive or of the lowest `w` bits.
abbrev pub xor_bits : ℕ → ℕ → ℕ → ℕ
xor_bits zero a b = 0
xor_bits (suc w) a b = (if a % 2 == b % 2 then 0 else 1) + 2 * xor_bits w (a / 2) (b / 2)

abbrev pub shift_bits : ℕ → ℕ → ℕ
shift_bits zero c = c
shift_bits (suc k) c = shift_bits k (if c % 2 == 1 then xor_bits 16 (c / 2) 0x8408 else c / 2)

abbrev pub register : ℕ → Bytes → ℕ
register c [] = c
register c (b ∷ bs) = register (shift_bits 8 (xor_bits 16 c b)) bs

abbrev pub kermit : Crc
kermit = record { checksum = λ bs. register 0 bs % 2 ^ 16; checksum_lt = λ bs. omega arith }

-- "000EDL00" has the checksum 0x5BCB.
dl00_checksum :
    kermit.checksum (b'0' ∷ b'0' ∷ b'0' ∷ b'E' ∷ b'D' ∷ b'L' ∷ b'0' ∷ b'0' ∷ []) ≡ 0x5BCB
dl00_checksum = refl
