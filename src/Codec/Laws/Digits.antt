-- ===== src/Codec/Laws/Digits.antt =====
-- Hexadecimal digits: what `toHexString` writes and what `std::from_chars` makes of it.
use urg_node.Prelude.{
  ℕ, zero, suc, ◌+◌, ◌-◌, ◌*◌, ◌/◌, ◌%◌, ◌^◌, ◌≤◌, ◌<◌, ◌≡◌, refl, sym, ap, ◌∙◌, arith, none, some,
  [], ◌∷◌, ◌++◌, ltb, ◌==◌, ==_iff, false, if◌then◌else◌, inl, inr, length, replicate, Bool-cases,
  Option-cases,
}
use urg_node.Codec.Bytes.{Bytes}
use urg_node.Codec.Hex.{
  hex_value, scan_hex, from_chars, hex_digit, hex_loop, hex_text, to_hex_string,
}
use native.Mathlib.Nat.{pow-suc}

pub hex_value-lt : (c : ℕ) {d : ℕ} → hex_value c ≡ some d → d < 16
unfolding hex_value
hex_value-lt c h = ground arith

pub hex_value-hex_digit : (d : ℕ) → d < 16 → hex_value (hex_digit d) ≡ some d
unfolding hex_value hex_digit
hex_value-hex_digit d h = ground arith

carry : (acc d p : ℕ) → d < 16 → (acc * 16 + d + 1) * p ≤ (acc + 1) * (16 * p)
carry acc d p h = grind arith

pub pow16_pos : (n : ℕ) → 0 < 16 ^ n
pow16_pos zero = omega arith
pow16_pos (suc n) = omega (arith, pow-suc 16 n, pow16_pos n)

below_product : (acc p : ℕ) → 0 < p → acc < (acc + 1) * p
below_product acc p h = grind arith

-- The number read is below 16 to the power of the characters looked at.
pub scan_hex-lt : (acc : ℕ) (bs : Bytes) → scan_hex acc bs < (acc + 1) * 16 ^ length bs
unfolding scan_hex
scan_hex-lt acc [] = omega arith
scan_hex-lt acc (c ∷ cs) = elim (Option-cases (hex_value c)) [
  | inl e ↦
      rw (e, scan_hex) (below_product acc (16 ^ suc (length cs)) (pow16_pos (suc (length cs))))
  | inr (d, e) ↦
      rw (e, scan_hex, pow-suc 16 (length cs))
        (omega
          (arith, scan_hex-lt (acc * 16 + d) cs, carry acc d (16 ^ length cs) (hex_value-lt c e)))
]

-- The last `w` digits of `v`, highest first, in front of `tail`.
pub fixed_hex : ℕ → ℕ → Bytes → Bytes
fixed_hex zero v tail = tail
fixed_hex (suc w) v tail = fixed_hex w (v / 16) (hex_digit (v % 16) ∷ tail)

scan_digit :
    (w acc v : ℕ) (tail : Bytes)
    → scan_hex (acc * 16 ^ w + v / 16) (hex_digit (v % 16) ∷ tail)
      ≡ scan_hex (acc * 16 ^ suc w + v) tail
unfolding scan_hex
scan_digit w acc v tail =
    rw (hex_value-hex_digit (v % 16) (omega arith), scan_hex)
      (ap (λ n. scan_hex n tail) (rw (pow-suc 16 w) (omega arith)))

pub scan_hex-fixed_hex :
    (w acc v : ℕ) (tail : Bytes)
    → v < 16 ^ w
    → scan_hex acc (fixed_hex w v tail) ≡ scan_hex (acc * 16 ^ w + v) tail
unfolding fixed_hex
scan_hex-fixed_hex zero acc v tail h = ap (λ n. scan_hex n tail) (omega arith)
scan_hex-fixed_hex (suc w) acc v tail h =
    scan_hex-fixed_hex w acc (v / 16) (hex_digit (v % 16) ∷ tail) (omega (arith, pow-suc 16 w))
    ∙ scan_digit w acc v tail

fixed_hex-zero : (w : ℕ) (tail : Bytes) → fixed_hex w 0 (b'0' ∷ tail) ≡ b'0' ∷ fixed_hex w 0 tail
unfolding fixed_hex hex_digit
fixed_hex-zero zero tail = refl
fixed_hex-zero (suc w) tail = fixed_hex-zero w (b'0' ∷ tail)

fixed_hex-replicate : (w : ℕ) (tail : Bytes) → fixed_hex w 0 tail ≡ replicate w b'0' ++ tail
unfolding fixed_hex hex_digit
fixed_hex-replicate zero tail = refl
fixed_hex-replicate (suc w) tail =
    fixed_hex-zero w tail ∙ ap (λ r. b'0' ∷ r) (fixed_hex-replicate w tail)

length-hex_loop : (f v : ℕ) (tail : Bytes) → length tail ≤ length (hex_loop f v tail)
unfolding hex_loop
length-hex_loop zero v tail = omega arith
length-hex_loop (suc f) v tail =
    ground (arith, length-hex_loop f (v / 16) (hex_digit (v % 16) ∷ tail))

hex_loop-zero : (f : ℕ) (tail : Bytes) → hex_loop f 0 tail ≡ tail
unfolding hex_loop
hex_loop-zero zero tail = refl
hex_loop-zero (suc f) tail = refl

hex_loop_step :
    (f v : ℕ) (tail : Bytes)
    → (v == 0) ≡ false
    → hex_loop (suc f) v tail ≡ hex_loop f (v / 16) (hex_digit (v % 16) ∷ tail)
unfolding hex_loop
hex_loop_step f v tail nz = rw nz

-- `text`, filled up with zeros to `w` characters in front of `tail`.
abbrev filled : ℕ → Bytes → Bytes → Bytes
filled w text tail = replicate (w - (length text - length tail)) b'0' ++ text

filled-zero :
    (w f v : ℕ) (tail : Bytes) → v ≡ 0 → filled w (hex_loop f v tail) tail ≡ fixed_hex w v tail
filled-zero w f v tail e =
    rw (e, hex_loop-zero)
      (ap (λ n. replicate n b'0' ++ tail) (omega arith) ∙ sym (fixed_hex-replicate w tail))

filled_step :
    (w f v : ℕ) (tail : Bytes)
    → (v == 0) ≡ false
    → filled (suc w) (hex_loop (suc f) v tail) tail
      ≡ filled w (hex_loop f (v / 16) (hex_digit (v % 16) ∷ tail)) (hex_digit (v % 16) ∷ tail)
filled_step w f v tail nz = rw (hex_loop_step f v tail nz) (
    ap (λ n. replicate n b'0' ++ hex_loop f (v / 16) (hex_digit (v % 16) ∷ tail))
      (omega (arith, length-hex_loop f (v / 16) (hex_digit (v % 16) ∷ tail))))

-- Filling up with zeros gives the fixed width.
hex_loop-fixed_hex :
    (w f v : ℕ) (tail : Bytes)
    → w ≤ f
    → v < 16 ^ w
    → filled w (hex_loop f v tail) tail ≡ fixed_hex w v tail
hex_loop-fixed_hex zero f v tail le h = filled-zero zero f v tail (omega arith)
hex_loop-fixed_hex (suc w) zero v tail le h = absurd (omega arith)
hex_loop-fixed_hex (suc w) (suc f) v tail le h = elim (Bool-cases (v == 0)) [
  | inl z ↦ filled-zero (suc w) (suc f) v tail ((==_iff v 0).0 z)
  | inr nz ↦
      filled_step w f v tail nz
      ∙ hex_loop-fixed_hex w f (v / 16) (hex_digit (v % 16) ∷ tail) (omega arith)
          (omega (arith, pow-suc 16 w))
      ∙ unfold fixed_hex in refl
]

hex_text-zero : (v : ℕ) → v ≡ 0 → hex_text v ≡ b'0' ∷ []
unfolding hex_text
hex_text-zero v e = rw e

hex_text_pos : (v : ℕ) → (v == 0) ≡ false → hex_text v ≡ hex_loop 16 v []
unfolding hex_text
hex_text_pos v nz = rw nz

to_hex_string-zero : (k v : ℕ) → v ≡ 0 → to_hex_string (suc k) v ≡ fixed_hex (suc k) v []
unfolding to_hex_string fixed_hex hex_digit
to_hex_string-zero k v e =
    rw (hex_text-zero v e, e)
      (ap (λ n. replicate n b'0' ++ (b'0' ∷ [])) (omega arith)
        ∙ sym (fixed_hex-replicate k (b'0' ∷ [])))

-- A number that fits takes exactly the characters of the field.
pub to_hex_string-fixed_hex :
    (w v : ℕ) → 0 < w → w ≤ 16 → v < 16 ^ w → to_hex_string w v ≡ fixed_hex w v []
unfolding to_hex_string
to_hex_string-fixed_hex zero v pos le h = absurd (omega arith)
to_hex_string-fixed_hex (suc k) v pos le h = elim (Bool-cases (v == 0)) [
  | inl z ↦ to_hex_string-zero k v ((==_iff v 0).0 z)
  | inr nz ↦ rw (hex_text_pos v nz) (
      ap (λ n. replicate (suc k - n) b'0' ++ hex_loop 16 v []) (omega arith)
      ∙ hex_loop-fixed_hex (suc k) 16 v [] le h)
]

pub length-fixed_hex : (w v : ℕ) (tail : Bytes) → length (fixed_hex w v tail) ≡ w + length tail
unfolding fixed_hex
length-fixed_hex zero v tail = omega arith
length-fixed_hex (suc w) v tail =
    omega (arith, length-fixed_hex w (v / 16) (hex_digit (v % 16) ∷ tail))

-- The text starts with a hexadecimal digit.
abbrev pub StartsWithDigit : Bytes → Type 0
StartsWithDigit [] = ⊥
StartsWithDigit (c ∷ cs) = (d : ℕ) × (hex_value c ≡ some d)

fixed_hex-StartsWithDigit :
    (w v : ℕ) (tail : Bytes) → StartsWithDigit tail → StartsWithDigit (fixed_hex w v tail)
unfolding fixed_hex
fixed_hex-StartsWithDigit zero v tail h = h
fixed_hex-StartsWithDigit (suc w) v tail h =
    fixed_hex-StartsWithDigit w (v / 16) (hex_digit (v % 16) ∷ tail)
      (v % 16, hex_value-hex_digit (v % 16) (omega arith))

pub fixed_hex_start : (w v : ℕ) → 0 < w → StartsWithDigit (fixed_hex w v [])
unfolding fixed_hex
fixed_hex_start zero v h = absurd (omega arith)
fixed_hex_start (suc w) v h =
    fixed_hex-StartsWithDigit w (v / 16) (hex_digit (v % 16) ∷ [])
      (v % 16, hex_value-hex_digit (v % 16) (omega arith))

-- Reading the fixed width back gives the number.
pub scan_hex-fixed_hex_all : (w v : ℕ) → v < 16 ^ w → scan_hex 0 (fixed_hex w v []) ≡ v
scan_hex-fixed_hex_all w v h = scan_hex-fixed_hex w 0 v [] h ∙ scanned
  where
    scanned : scan_hex (0 * 16 ^ w + v) [] ≡ v
    scanned = unfold scan_hex in omega arith

-- On text that starts with a digit `std::from_chars` fails by the range alone.
pub from_chars-scan_hex :
    (limit : ℕ) (bs : Bytes)
    → StartsWithDigit bs
    → from_chars limit bs ≡ (if ltb (scan_hex 0 bs) limit then some (scan_hex 0 bs) else none)
unfolding from_chars scan_hex
from_chars-scan_hex limit [] h = absurd h
from_chars-scan_hex limit (c ∷ cs) (d, e) =
    rw (e, from_chars, scan_hex)
      (ap (λ n. if ltb (scan_hex n cs) limit then some (scan_hex n cs) else none) (omega arith))

pub from_chars-none : (limit : ℕ) (bs : Bytes) → ¬ StartsWithDigit bs → from_chars limit bs ≡ none
unfolding from_chars
from_chars-none limit [] h = refl
from_chars-none limit (c ∷ cs) h = elim (Option-cases (hex_value c)) [
  | inl e ↦ rw (e, from_chars)
  | inr p ↦ absurd (h p)
]

-- A number that fits takes as many characters as the field has bytes.
pub length-to_hex_string : (w v : ℕ) → 0 < w → w ≤ 16 → v < 16 ^ w → length (to_hex_string w v) ≡ w
length-to_hex_string w v pos le h =
    rw (to_hex_string-fixed_hex w v pos le h) (omega (arith, length-fixed_hex w v []))
