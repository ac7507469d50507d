-- ===== src/Prelude/Maps.antt =====
-- `std::map` with numbers as keys: an association list in the order of the first insertions.
use Prim.Native.Nat.{ℕ}
use mathlib.Core.Path.{◌≡◌}
use mathlib.Core.Logic.{◌≢◌}
use mathlib.Core.Option.{Option, none, some}
use mathlib.Core.List.{List, [], ◌∷◌}
use native.Mathlib.Omega.{arith}
use urg_node.Prelude.Tests.{◌==◌, if◌then◌else◌}

abbrev pub find_key {ℓ} : {V : Type ℓ} → ℕ → List (ℕ × V) → Option V
find_key k [] = none
find_key k ((i, v) ∷ entries) = if i == k then some v else find_key k entries

-- `entries[k] = v`.
abbrev pub insert_key {ℓ} : {V : Type ℓ} → ℕ → V → List (ℕ × V) → List (ℕ × V)
insert_key k v [] = (k, v) ∷ []
insert_key k v ((i, w) ∷ entries) =
    let rest = insert_key k v entries in if i == k then (i, v) ∷ entries else (i, w) ∷ rest

module _ {ℓ} {V : Type ℓ} where
  pub find_key-insert_same :
      (k : ℕ) (v : V) (entries : List (ℕ × V)) → find_key k (insert_key k v entries) ≡ some v
  find_key-insert_same k v [] = ground arith
  find_key-insert_same k v ((i, w) ∷ entries) =
      let rest = find_key-insert_same k v entries in ground arith

  pub find_key-insert_other :
      (k j : ℕ) (v : V) (entries : List (ℕ × V))
      → k ≢ j
      → find_key j (insert_key k v entries) ≡ find_key j entries
  find_key-insert_other k j v [] h = ground arith
  find_key-insert_other k j v ((i, w) ∷ entries) h =
      let rest = find_key-insert_other k j v entries h in ground arith
