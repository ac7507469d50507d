-- ===== src/Codec/Bytes.antt =====
-- Raw memory: the bytes of an unsigned integer on a little-endian host, as
-- `reinterpret_cast<const char*>(&field)` of urg_node/include/uam/visitor.h sees them, and slices of a
-- buffer.
use urg_node.Prelude.{
  ℕ, zero, suc, ◌+◌, ◌*◌, ◌/◌, ◌%◌, ◌^◌, ◌≤◌, ◌<◌, ◌≡◌, refl, ap, arith, List, [], ◌∷◌, length,
  take, drop, length-take, length-drop, All, All-take, All-drop,
}
use native.Mathlib.Nat.{pow-suc}

abbrev pub Bytes : Type 0
Bytes = List ℕ

abbrev pub IsByte : ℕ → Type 0
IsByte b = b < 256

abbrev pub IsBytes : Bytes → Type 0
IsBytes = All IsByte

-- The `w` bytes of the unsigned integer `v`, lowest first.
unfoldable pub le_bytes : ℕ → ℕ → Bytes
le_bytes zero v = []
le_bytes (suc w) v = (v % 256) ∷ le_bytes w (v / 256)

-- The unsigned integer that a run of bytes holds.
unfoldable pub le_num : Bytes → ℕ
le_num [] = 0
le_num (b ∷ bs) = b + 256 * le_num bs

-- `n` bytes from `index` on.
abbrev pub slice : Bytes → ℕ → ℕ → Bytes
slice bs index n = take n (drop index bs)

-- The unsigned integer of `w` bytes that lies at `index`.
unfoldable pub read_uint : Bytes → ℕ → ℕ → ℕ
unfolding le_num
read_uint bs index w = le_num (slice bs index w)

-- Bytes outlive the trip through the integer that they make up.
pub le_bytes-le_num :
    (w : ℕ) (bs : Bytes) → IsBytes bs → length bs ≡ w → le_bytes w (le_num bs) ≡ bs
unfolding le_bytes le_num
le_bytes-le_num zero [] h e = refl
le_bytes-le_num (suc w) [] h e = absurd (omega arith)
le_bytes-le_num zero (b ∷ bs) h e = absurd (omega arith)
le_bytes-le_num (suc w) (b ∷ bs) h e =
    let low : (b + 256 * le_num bs) % 256 ≡ b = omega arith in
    let high : (b + 256 * le_num bs) / 256 ≡ le_num bs = omega arith in
    rw (low, high) (ap (λ r. b ∷ r) (le_bytes-le_num w bs h.1 (omega arith)))

pub length-le_bytes : (w v : ℕ) → length (le_bytes w v) ≡ w
unfolding le_bytes
length-le_bytes zero v = refl
length-le_bytes (suc w) v = ap suc (length-le_bytes w (v / 256))

-- An integer that fits `w` bytes outlives the trip through its bytes.
pub le_num-le_bytes : (w v : ℕ) → v < 256 ^ w → le_num (le_bytes w v) ≡ v
unfolding le_bytes le_num
le_num-le_bytes zero v h = omega arith
le_num-le_bytes (suc w) v h =
    omega (arith, le_num-le_bytes w (v / 256) (omega (arith, pow-suc 256 w)))

pub length-slice :
    (bs : Bytes) (index n : ℕ) → index + n ≤ length bs → length (slice bs index n) ≡ n
length-slice bs index n h = omega (arith, length-take n (drop index bs), length-drop index bs)

pub slice-IsBytes : (bs : Bytes) (index n : ℕ) → IsBytes bs → IsBytes (slice bs index n)
slice-IsBytes bs index n h = All-take IsByte n (drop index bs) (All-drop IsByte index bs h)

-- The memory of an integer that was read from w bytes of a buffer of bytes, all inside the buffer,
-- is those w bytes.
pub le_bytes-read_uint :
    (bs : Bytes) (index w : ℕ)
    → IsBytes bs
    → index + w ≤ length bs
    → le_bytes w (read_uint bs index w) ≡ slice bs index w
unfolding read_uint
le_bytes-read_uint bs index w h fits =
    le_bytes-le_num w (slice bs index w) (slice-IsBytes bs index w h) (length-slice bs index w fits)
