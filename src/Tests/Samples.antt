-- ===== src/Tests/Samples.antt =====
-- Bytes and states to run the model with.
use urg_node.Prelude.{ℕ, zero, suc, arith, [], ◌∷◌, ◌≡◌, replicate, length, length-replicate}
use urg_node.Codec.Bytes.{Bytes, IsBytes}
use urg_node.Worker.Base.{Locals}

-- The acknowledgement of AR02, with its checksum 0x51E2.
abbrev pub ar02_ack : Bytes
ar02_ack =
    2 ∷ b'0' ∷ b'0' ∷ b'1' ∷ b'0' ∷ b'A' ∷ b'R' ∷ b'0' ∷ b'2' ∷ b'0' ∷ b'0' ∷ b'5' ∷ b'1' ∷ b'E'
    ∷ b'2' ∷ 3 ∷ []

-- Text of zeros of any length.
abbrev pub zeros : ℕ → Bytes
zeros n = replicate n b'0'

pub zeros-IsBytes : (n : ℕ) → IsBytes (zeros n)
zeros-IsBytes zero = tt
zeros-IsBytes (suc n) = (omega arith, zeros-IsBytes n)

pub length-zeros : (n : ℕ) → length (zeros n) ≡ n
length-zeros n = length-replicate n b'0'

-- Locals that happen to hold 0.
abbrev pub clean : Locals
clean = record { recv_bytes = 0; status = 0; expected_crc = 0 }
