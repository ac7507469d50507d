-- ===== src/Codec/Field.antt =====
-- The field types of the protocol's structs, and the two `decodeField` of
-- urg_node/include/uam/visitor.h: one reads a field's own memory, the other a place in a buffer.
use urg_node.Prelude.{
  ℕ, ◌+◌, ◌^◌, ◌%◌, Option, none, some, ◌>>=◌, List, [], ◌∷◌, leb, ◌==◌, if◌then◌else◌, length,
}
use urg_node.Codec.Bytes.{Bytes, le_bytes, slice}
use urg_node.Codec.Hex.{from_chars}

-- `bool`, `uint16_t`, `uint32_t` and `uint64_t`.
pub data FieldType : Type 0 where
  boolean u16 u32 u64 : FieldType

abbrev pub width : FieldType → ℕ
width boolean = 1
width u16 = 2
width u32 = 4
width u64 = 8

-- The text of a `bool` goes through a `char`, which holds no more than 127.
abbrev pub limit : FieldType → ℕ
limit boolean = 128
limit u16 = 2 ^ 16
limit u32 = 2 ^ 32
limit u64 = 2 ^ 64

-- `static_cast<bool>`, as the byte that the `bool` is stored in.
abbrev pub to_bool : ℕ → ℕ
to_bool v = if v == 0 then 0 else 1

-- What a number becomes when it is assigned to a field.
abbrev pub store : FieldType → ℕ → ℕ
store boolean v = to_bool v
store u16 v = v % 2 ^ 16
store u32 v = v % 2 ^ 32
store u64 v = v % 2 ^ 64

-- `getFromChars(first, last, value)`.
unfoldable pub get_from_chars : FieldType → Bytes → Option ℕ
get_from_chars t bs = do v ← from_chars (limit t) bs; some (store t v)

-- `decodeField(field)`: the memory of the field is its text, and the number takes its place.
unfoldable pub decode_field : FieldType → ℕ → Option ℕ
decode_field t raw = get_from_chars t (le_bytes (width t) raw)

-- `decodeField(field)` of an array: every element, until one fails.
unfoldable pub decode_fields : FieldType → List ℕ → Option (List ℕ)
decode_fields t [] = some []
decode_fields t (raw ∷ raws) = do v ← decode_field t raw; vs ← decode_fields t raws; some (v ∷ vs)

-- `decodeField(buffer, index, param_offset, width, field)`, with its own bounds test.
unfoldable pub decode_at : FieldType → Bytes → ℕ → ℕ → Option ℕ
decode_at t buffer index param_offset =
    if leb (length buffer) (index + width t)
    then none
    else do v ← get_from_chars t (slice buffer index (width t)); some (store t (v + param_offset))
