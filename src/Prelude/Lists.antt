-- ===== src/Prelude/Lists.antt =====
-- Lists measured, sliced and indexed by native numbers, under the library's names.
use Prim.Native.Nat.{ℕ, zero, suc, ◌+◌, ◌-◌, ◌≤◌, ◌<◌, min}
use mathlib.Core.Path.{◌≡◌, refl, ap, sym, ◌∙◌}
use mathlib.Core.Logic.{◌≢◌}
use mathlib.Core.Option.{Option, none, some}
use mathlib.Core.List.{List, [], ◌∷◌, ◌++◌, map}
use native.Mathlib.Omega.{arith}

module _ {ℓ} {A : Type ℓ} where
  abbrev pub length : List A → ℕ
  length [] = 0
  length (x ∷ xs) = suc (length xs)

  abbrev pub get_or : List A → ℕ → A → A
  get_or [] i d = d
  get_or (x ∷ xs) zero d = x
  get_or (x ∷ xs) (suc i) d = get_or xs i d

  abbrev pub get_elem? : List A → ℕ → Option A
  get_elem? [] i = none
  get_elem? (x ∷ xs) zero = some x
  get_elem? (x ∷ xs) (suc i) = get_elem? xs i

  abbrev pub take : ℕ → List A → List A
  take zero xs = []
  take (suc n) [] = []
  take (suc n) (x ∷ xs) = x ∷ take n xs

  abbrev pub drop : ℕ → List A → List A
  drop zero xs = xs
  drop (suc n) [] = []
  drop (suc n) (x ∷ xs) = drop n xs

  abbrev pub replicate : ℕ → A → List A
  replicate zero a = []
  replicate (suc n) a = a ∷ replicate n a

  pub length-append : (xs ys : List A) → length (xs ++ ys) ≡ length xs + length ys
  length-append [] ys = omega arith
  length-append (x ∷ xs) ys = omega (arith, length-append xs ys)

  pub length-take : (n : ℕ) (xs : List A) → length (take n xs) ≡ min n (length xs)
  length-take zero xs = omega arith
  length-take (suc n) [] = omega arith
  length-take (suc n) (x ∷ xs) = omega (arith, length-take n xs)

  pub length-drop : (n : ℕ) (xs : List A) → length (drop n xs) ≡ length xs - n
  length-drop zero xs = omega arith
  length-drop (suc n) [] = omega arith
  length-drop (suc n) (x ∷ xs) = omega (arith, length-drop n xs)

  pub length-replicate : (n : ℕ) (a : A) → length (replicate n a) ≡ n
  length-replicate zero a = refl
  length-replicate (suc n) a = ap suc (length-replicate n a)

pub get_elem?-some {ℓ} :
    {A : Type ℓ} (xs : List A) (i : ℕ) → i < length xs → (x : A) × (get_elem? xs i ≡ some x)
get_elem?-some [] i h = absurd (omega arith)
get_elem?-some (x ∷ xs) zero h = (x, refl)
get_elem?-some (x ∷ xs) (suc i) h = get_elem?-some xs i (omega arith)

pub get_elem?-none {ℓ} : {A : Type ℓ} (xs : List A) (i : ℕ) → length xs ≤ i → get_elem? xs i ≡ none
get_elem?-none [] i h = refl
get_elem?-none (x ∷ xs) zero h = absurd (omega arith)
get_elem?-none (x ∷ xs) (suc i) h = get_elem?-none xs i (omega arith)

pub length-map {ℓ κ} :
    {A : Type ℓ} {B : Type κ} (xs : List A) (f : A → B) → length (map f xs) ≡ length xs
length-map [] f = refl
length-map (x ∷ xs) f = ap suc (length-map xs f)

-- A predicate on every element, by recursion.
abbrev pub All {ℓ κ} : {A : Type ℓ} → (A → Type κ) → List A → Type κ
All P [] = Unit
All P (x ∷ xs) = P x × All P xs

pub All-take {ℓ κ} :
    {A : Type ℓ} (P : A → Type κ) (n : ℕ) (xs : List A) → All P xs → All P (take n xs)
All-take P zero xs h = tt
All-take P (suc n) [] h = tt
All-take P (suc n) (x ∷ xs) h = (h.0, All-take P n xs h.1)

pub All-drop {ℓ κ} :
    {A : Type ℓ} (P : A → Type κ) (n : ℕ) (xs : List A) → All P xs → All P (drop n xs)
All-drop P zero xs h = h
All-drop P (suc n) [] h = tt
All-drop P (suc n) (x ∷ xs) h = All-drop P n xs h.1

pub All-append {ℓ κ} :
    {A : Type ℓ} (P : A → Type κ) (xs ys : List A) → All P xs → All P ys → All P (xs ++ ys)
All-append P [] ys hx hy = hy
All-append P (x ∷ xs) ys hx hy = (hx.0, All-append P xs ys hx.1 hy)

module _ {ℓ} {A : Type ℓ} where
  pub take-append : (n : ℕ) (xs ys : List A) → length xs ≡ n → take n (xs ++ ys) ≡ xs
  take-append zero [] ys e = refl
  take-append (suc n) [] ys e = absurd (omega arith)
  take-append zero (x ∷ xs) ys e = absurd (omega arith)
  take-append (suc n) (x ∷ xs) ys e = ap (λ r. x ∷ r) (take-append n xs ys (omega arith))

  -- What lies behind the first part is found past its length.
  pub drop-append :
      (n i k : ℕ) (xs ys : List A) → length xs ≡ n → n + i ≡ k → drop k (xs ++ ys) ≡ drop i ys
  drop-append n i k [] ys e s = ap (λ j. drop j ys) (omega arith)
  drop-append zero i k (x ∷ xs) ys e s = absurd (omega arith)
  drop-append (suc n) i zero (x ∷ xs) ys e s = absurd (omega arith)
  drop-append (suc n) i (suc k) (x ∷ xs) ys e s =
      drop-append n i k xs ys (omega arith) (omega arith)

  pub take-append_past :
      (n i k : ℕ) (xs ys : List A) → length xs ≡ n → n + i ≡ k → take k (xs ++ ys) ≡ xs ++ take i ys
  take-append_past n i k [] ys e s = ap (λ j. take j ys) (omega arith)
  take-append_past zero i k (x ∷ xs) ys e s = absurd (omega arith)
  take-append_past (suc n) i zero (x ∷ xs) ys e s = absurd (omega arith)
  take-append_past (suc n) i (suc k) (x ∷ xs) ys e s =
      ap (λ r. x ∷ r) (take-append_past n i k xs ys (omega arith) (omega arith))

  pub take-take : (w n : ℕ) (xs : List A) → w ≤ n → take w (take n xs) ≡ take w xs
  take-take zero n xs h = refl
  take-take (suc w) zero xs h = absurd (omega arith)
  take-take (suc w) (suc n) [] h = refl
  take-take (suc w) (suc n) (x ∷ xs) h = ap (λ r. x ∷ r) (take-take w n xs (omega arith))

  -- A part of the first part is a part of the whole.
  pub take-drop-take :
      (n i w : ℕ) (xs : List A) → i + w ≤ n → take w (drop i (take n xs)) ≡ take w (drop i xs)
  take-drop-take n zero w xs h = take-take w n xs (omega arith)
  take-drop-take zero (suc i) w xs h = absurd (omega arith)
  take-drop-take (suc n) (suc i) w [] h = refl
  take-drop-take (suc n) (suc i) w (x ∷ xs) h = take-drop-take n i w xs (omega arith)

  pub take-append-drop : (n : ℕ) (xs : List A) → take n xs ++ drop n xs ≡ xs
  take-append-drop zero xs = refl
  take-append-drop (suc n) [] = refl
  take-append-drop (suc n) (x ∷ xs) = ap (λ r. x ∷ r) (take-append-drop n xs)

pub drop-nil {ℓ} : {A : Type ℓ} (k : ℕ) → drop {A = A} k [] ≡ []
drop-nil zero = refl
drop-nil (suc k) = refl

pub take-nil {ℓ} : {A : Type ℓ} (k : ℕ) → take {A = A} k [] ≡ []
take-nil zero = refl
take-nil (suc k) = refl

pub drop-drop {ℓ} : {A : Type ℓ} (i j : ℕ) (xs : List A) → drop i (drop j xs) ≡ drop (i + j) xs
drop-drop i zero xs = ap (λ k. drop k xs) (omega arith)
drop-drop i (suc j) [] = drop-nil i ∙ sym (drop-nil (i + suc j))
drop-drop i (suc j) (x ∷ xs) =
    let e : suc (i + j) ≡ i + suc j = omega arith in drop-drop i j xs ∙ ap (λ k. drop k (x ∷ xs)) e

pub take-all {ℓ} : {A : Type ℓ} (n : ℕ) (xs : List A) → length xs ≤ n → take n xs ≡ xs
take-all zero [] h = refl
take-all zero (x ∷ xs) h = absurd (omega arith)
take-all (suc n) [] h = refl
take-all (suc n) (x ∷ xs) h = ap (λ r. x ∷ r) (take-all n xs (omega arith))

-- An element is replaced; an index past the end changes nothing.
abbrev pub set_at {ℓ} : {A : Type ℓ} → ℕ → A → List A → List A
set_at i v [] = []
set_at zero v (x ∷ xs) = v ∷ xs
set_at (suc i) v (x ∷ xs) = x ∷ set_at i v xs

module _ {ℓ} {A : Type ℓ} where
  pub length-set_at : (i : ℕ) (v : A) (xs : List A) → length (set_at i v xs) ≡ length xs
  length-set_at i v [] = refl
  length-set_at zero v (x ∷ xs) = refl
  length-set_at (suc i) v (x ∷ xs) = ap suc (length-set_at i v xs)

  pub get_or-set_at_self :
      (i : ℕ) (v : A) (xs : List A) (d : A) → i < length xs → get_or (set_at i v xs) i d ≡ v
  get_or-set_at_self i v [] d h = absurd (omega arith)
  get_or-set_at_self zero v (x ∷ xs) d h = refl
  get_or-set_at_self (suc i) v (x ∷ xs) d h = get_or-set_at_self i v xs d (omega arith)

  pub get_or-set_at_other :
      (i k : ℕ) (v : A) (xs : List A) (d : A) → i ≢ k → get_or (set_at i v xs) k d ≡ get_or xs k d
  get_or-set_at_other i k v [] d h = refl
  get_or-set_at_other zero zero v (x ∷ xs) d h = absurd (h refl)
  get_or-set_at_other zero (suc k) v (x ∷ xs) d h = refl
  get_or-set_at_other (suc i) zero v (x ∷ xs) d h = refl
  get_or-set_at_other (suc i) (suc k) v (x ∷ xs) d h =
      get_or-set_at_other i k v xs d (λ e. h (ap suc e))

  -- Writing back what was read changes nothing.
  pub set_at-get_or : (i : ℕ) (xs : List A) (d : A) → set_at i (get_or xs i d) xs ≡ xs
  set_at-get_or i [] d = refl
  set_at-get_or zero (x ∷ xs) d = refl
  set_at-get_or (suc i) (x ∷ xs) d = ap (λ r. x ∷ r) (set_at-get_or i xs d)

-- An element that is there, whatever stands for one that is not.
pub get_or-get_elem? {ℓ} :
    {A : Type ℓ} (xs : List A) (i : ℕ) (d a : A) → get_elem? xs i ≡ some a → get_or xs i d ≡ a
get_or-get_elem? [] i d a e = cc
get_or-get_elem? (x ∷ xs) zero d a e = cc
get_or-get_elem? (x ∷ xs) (suc i) d a e = get_or-get_elem? xs i d a e
