-- ===== src/Codec/Laws/Reading.antt =====
-- The decoding of a field as a function of the buffer that it lies in.
use urg_node.Prelude.{
  ℕ, suc, ◌+◌, ◌^◌, ◌≤◌, ◌<◌, ◌≡◌, refl, ap, ◌∙◌, arith, Option, none, some, ◌>>=◌, List, [], ◌∷◌,
  lt→ltb, lt→leb, le→leb, length, >>=-eq-some,
}
use urg_node.Codec.Bytes.{Bytes, IsBytes, slice, read_uint, le_bytes-read_uint}
use urg_node.Codec.Hex.{scan_hex, from_chars, to_hex_string}
use urg_node.Codec.Field.{
  FieldType, boolean, u16, u32, u64, width, limit, store, get_from_chars, decode_field,
  decode_fields, decode_at,
}
use urg_node.Codec.Laws.Digits.{
  scan_hex-lt, StartsWithDigit, from_chars-scan_hex, from_chars-none, fixed_hex, length-fixed_hex,
  fixed_hex_start, scan_hex-fixed_hex_all, to_hex_string-fixed_hex,
}

width_fits : (t : FieldType) → 16 ^ width t ≤ limit t
width_fits boolean = omega arith
width_fits u16 = omega arith
width_fits u32 = omega arith
width_fits u64 = omega arith

pub width_pos : (t : FieldType) → (0 < width t) × (width t ≤ 16)
width_pos boolean = omega arith
width_pos u16 = omega arith
width_pos u32 = omega arith
width_pos u64 = omega arith

pub store_idem : (t : FieldType) (v : ℕ) → store t (store t v + 0) ≡ store t v
store_idem boolean v = ground arith
store_idem u16 v = omega arith
store_idem u32 v = omega arith
store_idem u64 v = omega arith

scan_hex_fits : (t : FieldType) (bs : Bytes) → length bs ≡ width t → scan_hex 0 bs < 16 ^ width t
scan_hex_fits t bs e = rw (← e) (omega (arith, scan_hex-lt 0 bs))

-- Text as wide as a field's type that starts with a hexadecimal digit is always read, as the number
-- that its leading digits write, which is below 16 to the width of the type.
pub get_from_chars_digit :
    (t : FieldType) (bs : Bytes)
    → length bs ≡ width t
    → StartsWithDigit bs
    → (get_from_chars t bs ≡ some (store t (scan_hex 0 bs))) × (scan_hex 0 bs < 16 ^ width t)
unfolding get_from_chars
get_from_chars_digit t bs e h =
    let fits = scan_hex_fits t bs e in
    (
      rw (
        from_chars-scan_hex (limit t) bs h,
        lt→ltb (scan_hex 0 bs) (limit t) (omega (arith, width_fits t)),
      ),
      fits,
    )

-- Text that does not start with a hexadecimal digit is refused.
pub get_from_chars-none :
    (t : FieldType) (bs : Bytes) → ¬ StartsWithDigit bs → get_from_chars t bs ≡ none
unfolding get_from_chars
get_from_chars-none t bs h = rw (from_chars-none (limit t) bs h)

-- A number below 16 to the width of a field's type, written by `toHexString` with that width, is
-- read back by `getFromChars` as the number that the type stores.
pub get_from_chars-to_hex_string :
    (t : FieldType) (v : ℕ)
    → v < 16 ^ width t
    → get_from_chars t (to_hex_string (width t) v) ≡ some (store t v)
get_from_chars-to_hex_string t v h =
    let (pos, le) = width_pos t in
    let text = fixed_hex (width t) v [] in
    let wide : length text ≡ width t = omega (arith, length-fixed_hex (width t) v []) in
    rw (to_hex_string-fixed_hex (width t) v pos le h) (
      (get_from_chars_digit t text wide (fixed_hex_start (width t) v pos)).0
      ∙ ap (λ n. some (store t n)) (scan_hex-fixed_hex_all (width t) v h))

-- A field's own memory holds the text that lies in the buffer.
pub decode_field-read_uint :
    (t : FieldType) (bs : Bytes) (index : ℕ)
    → IsBytes bs
    → index + width t ≤ length bs
    → decode_field t (read_uint bs index (width t)) ≡ get_from_chars t (slice bs index (width t))
unfolding decode_field
decode_field-read_uint t bs index h fits = rw (le_bytes-read_uint bs index (width t) h fits)

store-again :
    (t : FieldType) (bs : Bytes) (o : Option ℕ)
    → ((o >>= λ v. some (store t v)) >>= λ v. some (store t (v + 0)))
      ≡ (o >>= λ v. some (store t v))
store-again t bs none = refl
store-again t bs (some v) = ap some (store_idem t v)

-- A field that ends before the end of a buffer of bytes is decoded by the visitor, without an
-- offset on its value, to what the field of the struct overlaid on the buffer decodes to, or
-- neither can be decoded.
pub decode_at-decode_field :
    (t : FieldType) (bs : Bytes) (index : ℕ)
    → IsBytes bs
    → index + width t < length bs
    → decode_at t bs index 0 ≡ decode_field t (read_uint bs index (width t))
unfolding decode_at
decode_at-decode_field t bs index h fits =
    rw
      (lt→leb (index + width t) (length bs) fits, decode_field-read_uint t bs index h (omega arith))
      (unfold get_from_chars in store-again t bs (from_chars (limit t) (slice bs index (width t))))

-- A field that ends before the end of a buffer of bytes is decoded by a visitor with an offset p to
-- what the field of the struct decodes to with p added, as the field's type stores it, or neither
-- can be decoded.
pub decode_at-offset :
    (t : FieldType) (bs : Bytes) (index p : ℕ)
    → IsBytes bs
    → index + width t < length bs
    → decode_at t bs index p
      ≡ (decode_field t (read_uint bs index (width t)) >>= λ v. some (store t (v + p)))
unfolding decode_at
decode_at-offset t bs index p h fits =
    rw
      (lt→leb (index + width t) (length bs) fits, decode_field-read_uint t bs index h (omega arith))

-- A field whose end is the end of the buffer or lies behind it is refused by the visitor.
pub decode_at-none :
    (t : FieldType) (bs : Bytes) (index p : ℕ)
    → length bs ≤ index + width t
    → decode_at t bs index p ≡ none
unfolding decode_at
decode_at-none t bs index p h = rw (le→leb (length bs) (index + width t) h)

-- An array is decoded element by element.
pub decode_fields-cons :
    (t : FieldType) (raw : ℕ) (raws : List ℕ) {vs : List ℕ}
    → decode_fields t (raw ∷ raws) ≡ some vs
    → (v : ℕ) × (rest : List ℕ) × (decode_field t raw ≡ some v)
      × (decode_fields t raws ≡ some rest)
      × (vs ≡ v ∷ rest)
unfolding decode_fields
decode_fields-cons t raw raws e =
    let (v, ev, e') = >>=-eq-some (decode_field t raw) _ e in
    let (rest, er, e'') = >>=-eq-some (decode_fields t raws) _ e' in (v, rest, ev, er, ground arith)

pub length-decode_fields :
    (t : FieldType) (raws vs : List ℕ) → decode_fields t raws ≡ some vs → length vs ≡ length raws
unfolding decode_fields
length-decode_fields t [] vs e = ground arith
length-decode_fields t (raw ∷ raws) vs e =
    let (v, rest, ev, er, same) = decode_fields-cons t raw raws e in
    rw same (ap suc (length-decode_fields t raws rest er))
