-- ===== src/Scan/Pp/Reading.antt =====
-- Reading the reply to the PP command.
use urg_node.Prelude.{
  ℕ, suc, ◌+◌, ◌-◌, ◌*◌, ◌^◌, ◌≤◌, ◌<◌, ◌≡◌, ◌≢◌, refl, arith, true, false, some, List, [], ◌∷◌,
  ◌++◌, ◌==◌, length, All, if-true, none, lt→ltb, ◌∙◌, ap,
}
use urg_node.Prelude.Int.{pos}
use urg_node.Codec.Bytes.{Bytes}
use urg_node.Worker.Raw.{is_space}
use urg_node.Scan.Pp.{
  after, before, find_substring, is_digit, scan_decimal, unsigned_decimal, stoi, decode_pp_field,
  decode_pp_fields, decode_pp,
}
use native.Mathlib.Nat.{pow-suc}

abbrev pub IsDigit : ℕ → Type 0
IsDigit c = (b'0' ≤ c) × (c ≤ b'9')

-- The number of a run of decimal digits, by their places.
abbrev pub decimal_value : Bytes → ℕ
decimal_value [] = 0
decimal_value (c ∷ cs) = (c - b'0') * 10 ^ length cs + decimal_value cs

-- The line of a reply for a number: a name, a colon, digits, a semicolon and anything.
pub record IsField (line : Bytes) (n : ℕ) : Type 0 where
  pub name : Bytes
  pub digit : ℕ
  pub digits : Bytes
  pub tail : Bytes
  pub line_eq : line ≡ name ++ (b':' ∷ ((digit ∷ digits) ++ (b';' ∷ tail)))
  pub no_colon : All (λ c. c ≢ b':') name
  pub are_digits : All IsDigit (digit ∷ digits)
  pub value_eq : decimal_value (digit ∷ digits) ≡ n
  pub value_lt : n < 2 ^ 31

after-append :
    (mark : ℕ) (name rest : Bytes)
    → All (λ c. c ≢ mark) name
    → after mark (name ++ (mark ∷ rest)) ≡ some rest
unfolding after
after-append mark [] rest h = ground arith
after-append mark (c ∷ name) rest h = ground (arith, after-append mark name rest h.1)

before-append :
    (digits tail : Bytes) → All IsDigit digits → before b';' (digits ++ (b';' ∷ tail)) ≡ digits
unfolding before
before-append [] tail h = refl
before-append (c ∷ digits) tail h = ground (arith, before-append digits tail h.1)

digit-is_digit : (c : ℕ) → IsDigit c → is_digit c ≡ true
digit-is_digit c h = ground arith

scan_decimal_lem :
    (acc : ℕ) (digits : Bytes)
    → All IsDigit digits
    → scan_decimal acc digits ≡ acc * 10 ^ length digits + decimal_value digits
unfolding scan_decimal
scan_decimal_lem acc [] h = omega arith
scan_decimal_lem acc (c ∷ cs) h =
    let d = c - b'0' in
    let p = 10 ^ length cs in
    let ih : scan_decimal (acc * 10 + d) cs ≡ (acc * 10 + d) * p + decimal_value cs =
      scan_decimal_lem (acc * 10 + d) cs h.1 in
    let step : 10 ^ suc (length cs) ≡ 10 * p = omega (arith, pow-suc 10 (length cs)) in
    rw (digit-is_digit c h.0, ih, step) (regroup acc d p (decimal_value cs))
  where
    regroup : (n d p v : ℕ) → (n * 10 + d) * p + v ≡ n * (10 * p) + (d * p + v)
    regroup n d p v = omega arith

unsigned_decimal-digits :
    (c : ℕ) (cs : Bytes)
    → All IsDigit (c ∷ cs)
    → unsigned_decimal (c ∷ cs) ≡ some (decimal_value (c ∷ cs))
unfolding unsigned_decimal
unsigned_decimal-digits c cs h =
    let value : scan_decimal 0 (c ∷ cs) ≡ decimal_value (c ∷ cs) =
      omega (arith, scan_decimal_lem 0 (c ∷ cs) h) in
    if-true (is_digit c) (some (scan_decimal 0 (c ∷ cs))) none (digit-is_digit c h.0)
    ∙ ap (λ v. some v) value

-- A digit is no white space and no sign.
digit-is_space : (c : ℕ) → IsDigit c → is_space c ≡ false
digit-is_space c h = ground arith

digit-is_minus : (c : ℕ) → IsDigit c → (c == b'-') ≡ false
digit-is_minus c h = ground arith

digit-is_plus : (c : ℕ) → IsDigit c → (c == b'+') ≡ false
digit-is_plus c h = ground arith

-- Digits read as the number of their places.
stoi-digits :
    (c : ℕ) (cs : Bytes) (n : ℕ)
    → All IsDigit (c ∷ cs)
    → decimal_value (c ∷ cs) ≡ n
    → n < 2 ^ 31
    → stoi (c ∷ cs) ≡ some (pos n)
unfolding stoi
stoi-digits c cs n h e lt =
    let value : unsigned_decimal (c ∷ cs) ≡ some n =
      unsigned_decimal-digits c cs h ∙ ap (λ v. some v) e in
    rw
      (digit-is_space c h.0, digit-is_minus c h.0, digit-is_plus c h.0, value, lt→ltb n (2 ^ 31) lt)
      refl

-- A line for a number is decoded to that number.
pub decode_pp_field-IsField :
    (line : Bytes) (n : ℕ) → IsField line n → decode_pp_field line ≡ some (some (pos n))
unfolding decode_pp_field find_substring
decode_pp_field-IsField line n h =
    let rest = (h.digit ∷ h.digits) ++ (b';' ∷ h.tail) in
    let e1 : after b':' line ≡ some rest =
      rw (h.line_eq) (after-append b':' h.name rest h.no_colon) in
    let e2 : before b';' rest ≡ h.digit ∷ h.digits =
      before-append (h.digit ∷ h.digits) h.tail h.are_digits in
    rw (decode_pp_field, e1, e2, stoi-digits h.digit h.digits n h.are_digits h.value_eq h.value_lt)
      refl

-- Lines for numbers, one for each.
abbrev pub AreFields : List Bytes → List ℕ → Type 0
AreFields [] [] = Unit
AreFields (line ∷ lines) (n ∷ ns) = IsField line n × AreFields lines ns
AreFields lines ns = ⊥

pub decode_pp-AreFields :
    (l0 l1 l2 l3 l4 l5 l6 l7 l8 l9 : Bytes) (n3 n4 n5 n6 n7 n8 n9 : ℕ)
    → AreFields (l3 ∷ l4 ∷ l5 ∷ l6 ∷ l7 ∷ l8 ∷ l9 ∷ []) (n3 ∷ n4 ∷ n5 ∷ n6 ∷ n7 ∷ n8 ∷ n9 ∷ [])
    → decode_pp (l0 ∷ l1 ∷ l2 ∷ l3 ∷ l4 ∷ l5 ∷ l6 ∷ l7 ∷ l8 ∷ l9 ∷ [])
      ≡ some (
          some record {
            min_distance = pos n3;
            max_distance = pos n4;
            angular_resolution = pos n5;
            first_step = pos n6;
            last_step = pos n7;
            front_data_step = pos n8;
            rpm = pos n9;
          })
unfolding decode_pp decode_pp_fields
decode_pp-AreFields l0 l1 l2 l3 l4 l5 l6 l7 l8 l9 n3 n4 n5 n6 n7 n8 n9 h =
    rw
      (
        decode_pp,
        decode_pp_field-IsField l3 n3 h.0,
        decode_pp_field-IsField l4 n4 h.1.0,
        decode_pp_field-IsField l5 n5 h.1.1.0,
        decode_pp_field-IsField l6 n6 h.1.1.1.0,
        decode_pp_field-IsField l7 n7 h.1.1.1.1.0,
        decode_pp_field-IsField l8 n8 h.1.1.1.1.1.0,
        decode_pp_field-IsField l9 n9 h.1.1.1.1.1.1.0,
      )
      refl
