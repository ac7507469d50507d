-- ===== src/UrgNode/Names.antt =====
-- The names that `addDiagnostics` of urg_node/src/urg_node_driver.cpp makes out of the name of the node: two loops
-- that each replace a character while there is one.
use urg_node.Prelude.{
  ℕ, zero, suc, ◌≤◌, ◌<◌, sym, subst, inl, inr, some-injective, if-holds, ◌≡◌, ◌≢◌, refl, ap, ◌∙◌,
  arith, Bool, true, false, Option, none, some, [], ◌∷◌, ◌++◌, ◌==◌, if◌then◌else◌, if-true,
  if-false, length, take, drop, Bool-cases, Option-cases,
}
use urg_node.Codec.Bytes.{Bytes}

-- `text.find(c)`; `none` is `std::string::npos`.
unfoldable pub find_byte : ℕ → Bytes → Option ℕ
find_byte c [] = none
find_byte c (x ∷ xs) =
    let rest = find_byte c xs in
    if x == c then some 0 else elim rest [ none ↦ none | some pos ↦ some (suc pos) ]

-- `text.replace(pos, 1, new)` with a text of one character.
unfoldable pub replace_byte : ℕ → ℕ → Bytes → Bytes
replace_byte pos new text = take pos text ++ (new ∷ drop (suc pos) text)

-- The loop, on fuel; `none` is that the fuel is used up.
unfoldable pub replace_all : ℕ → ℕ → ℕ → Bytes → Option Bytes
unfolding find_byte replace_byte
replace_all zero old new text = none
replace_all (suc fuel) old new text = elim (find_byte old text) [
  | none ↦ some text
  | some pos ↦ replace_all fuel old new (replace_byte pos new text)
]

-- What the loop is to do: every character that is the old one becomes the new one.
abbrev pub replaced : ℕ → ℕ → Bytes → Bytes
replaced old new [] = []
replaced old new (x ∷ xs) = (if x == old then new else x) ∷ replaced old new xs

-- The count of a character.
abbrev pub count_byte : ℕ → Bytes → ℕ
count_byte c [] = 0
count_byte c (x ∷ xs) = if x == c then suc (count_byte c xs) else count_byte c xs

-- Both loops of `addDiagnostics`: the id of the node and its path.
unfoldable pub node_id : ℕ → Bytes → Option Bytes
unfolding replace_all
node_id fuel node_name = replace_all fuel b'/' b'_' node_name

unfoldable pub node_path : ℕ → Bytes → Option Bytes
unfolding replace_all
node_path fuel id = replace_all fuel b'_' b' ' id

none-some : {A : Type 0} {a : A} → none ≡ some a → ⊥
none-some e = cc

not_equal : (a b : ℕ) → b ≢ a → (a == b) ≡ false
not_equal a b h = ground arith

length-replaced : (old new : ℕ) (text : Bytes) → length (replaced old new text) ≡ length text
length-replaced old new [] = refl
length-replaced old new (x ∷ xs) = ap suc (length-replaced old new xs)

-- Where the character stands in a text that is not empty.
data Place (c x : ℕ) (xs : Bytes) : Type 0 where
  here : (x == c) ≡ true → find_byte c (x ∷ xs) ≡ some 0 → Place c x xs
  nowhere : (x == c) ≡ false → find_byte c xs ≡ none → find_byte c (x ∷ xs) ≡ none → Place c x xs
  later :
      (pos : ℕ)
      → (x == c) ≡ false
      → find_byte c xs ≡ some pos
      → find_byte c (x ∷ xs) ≡ some (suc pos)
      → Place c x xs

place : (c x : ℕ) (xs : Bytes) → Place c x xs
unfolding find_byte
place c x xs =
    let after : Option ℕ → Option ℕ = λ o. elim o [ none ↦ none | some pos ↦ some (suc pos) ] in
    elim (Bool-cases (x == c)) [
      | inl same ↦ here same (if-true _ _ _ same)
      | inr other ↦ elim (Option-cases (find_byte c xs)) [
        | inl absent ↦ nowhere other absent (if-false _ _ _ other ∙ ap after absent)
        | inr (pos, found) ↦ later pos other found (if-false _ _ _ other ∙ ap after found)
      ]
    ]

-- A text without the character is not changed.
replaced-none :
    (old new : ℕ) (text : Bytes)
    → find_byte old text ≡ none
    → (replaced old new text ≡ text) × (count_byte old text ≡ 0)
unfolding find_byte
replaced-none old new [] h = (refl, refl)
replaced-none old new (x ∷ xs) h = elim (place old x xs) [
  | here same e ↦ absurd (none-some (sym h ∙ e))
  | later pos other found e ↦ absurd (none-some (sym h ∙ e))
  | nowhere other absent e ↦
      let (same, count) = replaced-none old new xs absent in
      (
        ap (λ y. y ∷ replaced old new xs) (if-false _ new x other) ∙ ap (λ ys. x ∷ ys) same,
        if-false _ _ _ other ∙ count,
      )
]

same_either : (b : Bool) (n : ℕ) → (if b then n else n) ≡ n
same_either true n = refl
same_either false n = refl

-- Replacing the first one leaves one less to be replaced.
replaced-some :
    (old new pos : ℕ) (text : Bytes)
    → old ≢ new
    → find_byte old text ≡ some pos
    → (replaced old new (replace_byte pos new text) ≡ replaced old new text)
      × (suc (count_byte old (replace_byte pos new text)) ≡ count_byte old text)
unfolding find_byte replace_byte
replaced-some old new pos [] differ h = absurd (none-some h)
replaced-some old new pos (x ∷ xs) differ h =
    let Q : ℕ → Type 0 = λ k.
      (replaced old new (replace_byte k new (x ∷ xs)) ≡ replaced old new (x ∷ xs))
      × (suc (count_byte old (replace_byte k new (x ∷ xs))) ≡ count_byte old (x ∷ xs)) in
    elim (place old x xs) [
      | nowhere other absent e ↦ absurd (none-some (sym e ∙ h))
      | here same e ↦ subst Q (some-injective (sym e ∙ h)) (
        ap (λ y. y ∷ replaced old new xs)
            (same_either (new == old) new ∙ sym (if-true _ new x same)),
        ap suc (if-false _ _ _ (not_equal new old differ)) ∙ sym (if-true _ _ _ same),
      )
      | later k other found e ↦
          let (same, count) = replaced-some old new k xs differ found in
          subst Q (some-injective (sym e ∙ h)) (
            ap (λ ys. (if x == old then new else x) ∷ ys) same,
            ap suc (if-false _ _ _ other) ∙ count ∙ sym (if-false _ _ _ other),
          )
    ]

-- The loop ends with all characters replaced, if there is more fuel than there are characters.
replace_all-replaced :
    (fuel old new : ℕ) (text : Bytes)
    → old ≢ new
    → suc (count_byte old text) ≤ fuel
    → replace_all fuel old new text ≡ some (replaced old new text)
unfolding replace_all
replace_all-replaced zero old new text differ h = absurd (omega arith)
replace_all-replaced (suc fuel) old new text differ h =
    let go : Option ℕ → Option Bytes = λ o. elim o [
      | none ↦ some text
      | some pos ↦ replace_all fuel old new (replace_byte pos new text)
    ] in
    elim (Option-cases (find_byte old text)) [
      | inl absent ↦ ap go absent ∙ ap some (sym (replaced-none old new text absent).0)
      | inr (pos, found) ↦
          let (same, count) = replaced-some old new pos text differ found in
          ap go found
          ∙ replace_all-replaced fuel old new (replace_byte pos new text) differ
              (omega (arith, count))
          ∙ ap some same
    ]

count_byte-bound : (c : ℕ) (text : Bytes) → count_byte c text ≤ length text
count_byte-bound c [] = omega arith
count_byte-bound c (x ∷ xs) =
    let rest = count_byte-bound c xs in
    if-holds (λ n. n ≤ suc (length xs)) (x == c) _ _ (omega arith) (omega arith)

-- With more fuel than the name of the node has characters, the two loops of `addDiagnostics` end,
-- the first one with every slash of the name replaced by an underscore, the second one with every
-- underscore of that replaced by a space.
pub node_path-replaced :
    (fuel : ℕ) (node_name : Bytes)
    → length node_name < fuel
    → (node_id fuel node_name ≡ some (replaced b'/' b'_' node_name))
      × (node_path fuel (replaced b'/' b'_' node_name)
          ≡ some (replaced b'_' b' ' (replaced b'/' b'_' node_name)))
unfolding node_id node_path
node_path-replaced fuel node_name h =
    let id = replaced b'/' b'_' node_name in
    (
      replace_all-replaced fuel b'/' b'_' node_name (λ e. absurd (omega arith))
          (omega (arith, count_byte-bound b'/' node_name)),
      replace_all-replaced fuel b'_' b' ' id (λ e. absurd (omega arith))
          (omega (arith, count_byte-bound b'_' id, length-replaced b'/' b'_' node_name)),
    )
