-- ===== src/Codec/Hex.antt =====
-- Numbers in hexadecimal text: `getFromChars` of urg_node/include/uam/visitor.h, with what it uses of
-- `std::from_chars` in base 16, and `toHexString` of urg_node/include/uam/workers/uam_worker_base.h.
use urg_node.Prelude.{
  ℕ, zero, suc, ◌+◌, ◌-◌, ◌*◌, ◌/◌, ◌%◌, ◌&&◌, Option, none, some, [], ◌∷◌, ◌++◌, leb, ltb, ◌==◌,
  if◌then◌else◌, length, replicate,
}
use urg_node.Codec.Bytes.{Bytes}

-- The value of a hexadecimal digit, of either case.
unfoldable pub hex_value : ℕ → Option ℕ
hex_value c =
    if leb b'0' c && leb c b'9'
    then some (c - b'0')
    else if leb b'A' c && leb c b'F'
    then some (c - b'A' + 10)
    else if leb b'a' c && leb c b'f'
    then some (c - b'a' + 10)
    else none

-- The digits that the text starts with, on top of what has been read.
unfoldable pub scan_hex : ℕ → Bytes → ℕ
scan_hex acc [] = acc
scan_hex acc (c ∷ cs) = elim (hex_value c) [ none ↦ acc | some d ↦ scan_hex (acc * 16 + d) cs ]

-- `std::from_chars` into an unsigned type of `limit` values: text that starts with no digit is
-- `errc::invalid_argument`, a number that does not fit is `errc::result_out_of_range`, and what
-- follows the digits is left alone.
unfoldable pub from_chars : ℕ → Bytes → Option ℕ
from_chars limit [] = none
from_chars limit (c ∷ cs) = elim (hex_value c) [
  | none ↦ none
  | some d ↦ let v = scan_hex d cs in if ltb v limit then some v else none
]

-- An uppercase digit.
unfoldable pub hex_digit : ℕ → ℕ
hex_digit d = if ltb d 10 then b'0' + d else b'A' + (d - 10)

-- The digits of `v`, highest first, in front of `tail`. A type of 64 bits has at most 16 of them.
unfoldable pub hex_loop : ℕ → ℕ → Bytes → Bytes
hex_loop zero v tail = tail
hex_loop (suc fuel) v tail =
    let more = hex_loop fuel (v / 16) (hex_digit (v % 16) ∷ tail) in if v == 0 then tail else more

-- `std::hex << value`: zero is one digit.
unfoldable pub hex_text : ℕ → Bytes
hex_text v = if v == 0 then b'0' ∷ [] else hex_loop 16 v []

-- `std::setfill('0') << std::setw(size)`: shorter text is filled up on the left, longer text kept.
unfoldable pub to_hex_string : ℕ → ℕ → Bytes
to_hex_string size v = let text = hex_text v in replicate (size - length text) b'0' ++ text
