-- ===== src/Codec/Stream.antt =====
-- `std::stringstream` with `std::hex`, as urg_node/src/urg_c_wrapper.cpp reads numbers with it: a stream is
-- the bytes that are written to it and not read yet.
pub mod Laws
use urg_node.Prelude.{
  ℕ, ◌+◌, ◌-◌, ◌*◌, ◌%◌, ◌&&◌, ◌||◌, none, some, [], ◌∷◌, leb, ltb, ◌==◌, if◌then◌else◌,
}
use urg_node.Codec.Bytes.{Bytes}
use urg_node.Codec.Hex.{hex_value}

-- The bytes behind white space.
unfoldable pub skip_space : Bytes → Bytes
skip_space [] = []
skip_space (c ∷ cs) =
    let rest = skip_space cs in if (leb 9 c && leb c 13) || (c == 32) then rest else c ∷ cs

-- The digits that the bytes start with, on top of what has been read, and the bytes behind them.
unfoldable pub hex_run : ℕ → Bytes → ℕ × Bytes
hex_run acc [] = (acc, [])
hex_run acc (c ∷ cs) = elim (hex_value c) [
  | none ↦ (acc, c ∷ cs)
  | some d ↦ hex_run (acc * 16 + d) cs
]

-- The bytes behind a prefix `0x`.
unfoldable pub skip_prefix : Bytes → Bytes
skip_prefix [] = []
skip_prefix (z ∷ []) = z ∷ []
skip_prefix (z ∷ x ∷ cs) = if z == b'0' && (x == b'x' || x == b'X') then cs else z ∷ x ∷ cs

-- A number at the start of the bytes: see `extract_hex`.
unfoldable pub extract_number : ℕ → ℕ → Bytes → ℕ × Bytes
unfolding hex_run skip_prefix
extract_number limit old [] = (old, [])
extract_number limit old (c ∷ cs) =
    let negative = c == b'-' in
    let (v, rest) = hex_run 0 (skip_prefix (if negative || c == b'+' then cs else c ∷ cs)) in
    if ltb v limit then (if negative then (limit - v) % limit else v, rest) else (limit - 1, rest)

-- `stream >> std::hex >> value` for an unsigned type of `limit` values: the value and the stream. With
-- nothing to read the value stays, text without a digit gives 0, a number that does not fit gives the
-- greatest value, and a minus sign the negated one.
unfoldable pub extract_hex : ℕ → ℕ → Bytes → ℕ × Bytes
unfolding skip_space extract_number
extract_hex limit old stream = extract_number limit old (skip_space stream)
