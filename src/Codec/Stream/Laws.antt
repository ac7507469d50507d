-- ===== src/Codec/Stream/Laws.antt =====
-- What a stream reads from hexadecimal digits.
use urg_node.Prelude.{
  ℕ, ◌+◌, ◌*◌, ◌^◌, ◌≤◌, ◌<◌, ◌≡◌, refl, arith, true, false, ◌&&◌, ◌||◌, some, [], ◌∷◌, leb, ltb,
  ◌==◌, length, All, ap, ◌∙◌, lt→ltb,
}
use native.Mathlib.Nat.{pow-le-pow_right}
use urg_node.Codec.Bytes.{Bytes}
use urg_node.Codec.Hex.{hex_value, scan_hex}
use urg_node.Codec.Laws.{scan_hex-lt}
use urg_node.Codec.Stream.{skip_space, hex_run, skip_prefix, extract_number, extract_hex}

abbrev pub IsHexDigit : ℕ → Type 0
IsHexDigit c = (d : ℕ) × (hex_value c ≡ some d)

-- Text of digits, from one to so many.
pub record IsHexText (limit : ℕ) (text : Bytes) : Type 0 where
  pub are_digits : All IsHexDigit text
  pub some_digit : 0 < length text
  pub few_digits : length text ≤ limit

-- A digit is no white space, no sign and no `x`.
abbrev IsPlain : ℕ → Type 0
IsPlain c =
    (((leb 9 c && leb c 13) || (c == 32)) ≡ false)
    × ((c == b'-') ≡ false)
    × ((c == b'+') ≡ false)
    × ((c == b'x' || c == b'X') ≡ false)

digit-IsPlain : (c d : ℕ) → hex_value c ≡ some d → IsPlain c
unfolding hex_value
digit-IsPlain c d e = ground arith

hex_run-scan_hex :
    (acc : ℕ) (text : Bytes) → All IsHexDigit text → hex_run acc text ≡ (scan_hex acc text, [])
unfolding hex_run scan_hex
hex_run-scan_hex acc [] h = refl
hex_run-scan_hex acc (c ∷ cs) h =
    let (d, e) = h.0 in rw (hex_run, scan_hex, e) (hex_run-scan_hex (acc * 16 + d) cs h.1)

skip_prefix-digits : (text : Bytes) → All IsHexDigit text → skip_prefix text ≡ text
unfolding skip_prefix
skip_prefix-digits [] h = refl
skip_prefix-digits (z ∷ []) h = refl
skip_prefix-digits (z ∷ x ∷ cs) h = let plain = digit-IsPlain x h.1.0.0 h.1.0.1 in ground arith

skip_space-digits : (c : ℕ) (cs : Bytes) → IsPlain c → skip_space (c ∷ cs) ≡ c ∷ cs
unfolding skip_space
skip_space-digits c cs plain = rw (plain.0) refl

-- A number of up to four digits has 16 bits.
pub scan_hex-fits : (text : Bytes) → IsHexText 4 text → scan_hex 0 text < 2 ^ 16
scan_hex-fits text h =
    let few : 16 ^ length text ≤ 16 ^ 4 = pow-le-pow_right {n = 16} (omega arith) h.few_digits in
    omega (arith, scan_hex-lt 0 text)

extract_number-IsHexText :
    (limit old : ℕ) (text : Bytes)
    → 2 ^ 16 ≤ limit
    → IsHexText 4 text
    → extract_number limit old text ≡ (scan_hex 0 text, [])
unfolding extract_number
extract_number-IsHexText limit old [] large h = absurd (omega (arith, h.some_digit))
extract_number-IsHexText limit old (c ∷ cs) large h =
    let text = c ∷ cs in
    let plain = digit-IsPlain c h.are_digits.0.0 h.are_digits.0.1 in
    let prefix : skip_prefix text ≡ text = skip_prefix-digits text h.are_digits in
    let run : hex_run 0 text ≡ (scan_hex 0 text, []) = hex_run-scan_hex 0 text h.are_digits in
    let fits : ltb (scan_hex 0 text) limit ≡ true =
      lt→ltb _ _ (omega (arith, scan_hex-fits text h)) in
    rw (plain.1, plain.2, prefix, run, fits) refl

-- Up to four digits are read as the number that they make up, and nothing is left.
pub extract_hex-wide :
    (limit old : ℕ) (text : Bytes)
    → 2 ^ 16 ≤ limit
    → IsHexText 4 text
    → extract_hex limit old text ≡ (scan_hex 0 text, [])
unfolding extract_hex
extract_hex-wide limit old [] large h = absurd (omega (arith, h.some_digit))
extract_hex-wide limit old (c ∷ cs) large h =
    let plain = digit-IsPlain c h.are_digits.0.0 h.are_digits.0.1 in
    ap (extract_number limit old) (skip_space-digits c cs plain)
    ∙ extract_number-IsHexText limit old (c ∷ cs) large h

pub extract_hex-IsHexText :
    (old : ℕ) (text : Bytes)
    → IsHexText 4 text
    → extract_hex (2 ^ 16) old text ≡ (scan_hex 0 text, [])
extract_hex-IsHexText old text h = extract_hex-wide (2 ^ 16) old text (omega arith) h
