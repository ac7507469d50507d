-- ===== src/Prelude/Int.antt =====
-- Signed integers on the native numbers, under the library's names: the type `int` of the code, in
-- places where it does not overflow.
use Prim.Native.Nat.{ℕ, suc, ◌+◌, ◌-◌, ◌*◌, ◌≤◌, ◌<◌}
use mathlib.Core.Path.{◌≡◌}
use mathlib.Core.Bool.{Bool}
use native.Mathlib.Omega.{arith}
use urg_node.Prelude.Tests.{leb, ltb, ◌==◌, if◌then◌else◌}

-- `negsuc n` is -(n + 1).
pub data ℤ : Type 0 where
  pos : ℕ → ℤ
  negsuc : ℕ → ℤ

abbrev pub pos_part : ℤ → ℕ
pos_part (pos n) = n
pos_part (negsuc n) = 0

abbrev pub neg_part : ℤ → ℕ
neg_part (pos n) = 0
neg_part (negsuc n) = suc n

-- The difference of two numbers.
abbrev pub sub_ℕ : ℕ → ℕ → ℤ
sub_ℕ a b = if leb b a then pos (a - b) else negsuc (b - a - 1)

infixl 65 ◌+ℤ◌ ◌-ℤ◌
infixl 70 ◌*ℤ◌
infix 50 ◌≤ℤ◌ ◌<ℤ◌
unfoldable pub ◌+ℤ◌ : ℤ → ℤ → ℤ
a +ℤ b = sub_ℕ (pos_part a + pos_part b) (neg_part a + neg_part b)

unfoldable pub ◌-ℤ◌ : ℤ → ℤ → ℤ
a -ℤ b = sub_ℕ (pos_part a + neg_part b) (neg_part a + pos_part b)

unfoldable pub ◌*ℤ◌ : ℤ → ℤ → ℤ
a *ℤ b =
    sub_ℕ (pos_part a * pos_part b + neg_part a * neg_part b)
      (pos_part a * neg_part b + neg_part a * pos_part b)

abbrev pub ◌≤ℤ◌ : ℤ → ℤ → Type 0
a ≤ℤ b = pos_part a + neg_part b ≤ pos_part b + neg_part a

abbrev pub ◌<ℤ◌ : ℤ → ℤ → Type 0
a <ℤ b = pos_part a + neg_part b < pos_part b + neg_part a

abbrev pub leb_ℤ : ℤ → ℤ → Bool
leb_ℤ a b = leb (pos_part a + neg_part b) (pos_part b + neg_part a)

abbrev pub ltb_ℤ : ℤ → ℤ → Bool
ltb_ℤ a b = ltb (pos_part a + neg_part b) (pos_part b + neg_part a)

abbrev pub eq_ℤ : ℤ → ℤ → Bool
eq_ℤ a b = pos_part a + neg_part b == pos_part b + neg_part a

-- `std::max` and `std::min`, which give the first argument where both are equal.
abbrev pub max_ℤ : ℤ → ℤ → ℤ
max_ℤ a b = if ltb_ℤ a b then b else a

abbrev pub min_ℤ : ℤ → ℤ → ℤ
min_ℤ a b = if ltb_ℤ b a then b else a

pub eq_of_parts : (a b : ℤ) → pos_part a + neg_part b ≡ pos_part b + neg_part a → a ≡ b
eq_of_parts a b h = ground arith

-- An integer held between two limits lies between them.
pub clamp-bounds :
    (low n high : ℤ)
    → low ≤ℤ high
    → (low ≤ℤ min_ℤ (max_ℤ low n) high) × (min_ℤ (max_ℤ low n) high ≤ℤ high)
clamp-bounds low n high h = ground arith

-- An integer on the wrong side of a limit is moved to it.
pub clamp-low : (low n high : ℤ) → low ≤ℤ high → n ≤ℤ low → min_ℤ (max_ℤ low n) high ≡ low
clamp-low low n high h k = ground arith

pub clamp-high : (low n high : ℤ) → low ≤ℤ high → high ≤ℤ n → min_ℤ (max_ℤ low n) high ≡ high
clamp-high low n high h k = eq_of_parts (min_ℤ (max_ℤ low n) high) high (ground arith)

-- Adding back what was taken off.
pub sub_add-le : (n m i : ℤ) → i ≤ℤ n -ℤ m → i +ℤ m ≤ℤ n
unfolding ◌+ℤ◌ ◌-ℤ◌
sub_add-le n m i h = ground arith

pub le-sub_add : (n m i : ℤ) → n -ℤ m ≤ℤ i → n ≤ℤ i +ℤ m
unfolding ◌+ℤ◌ ◌-ℤ◌
le-sub_add n m i h = ground arith

pub sub-neg : (n m : ℤ) → n <ℤ m → n -ℤ m <ℤ pos 0
unfolding ◌-ℤ◌
sub-neg n m h = ground arith

pub sub-nonneg : (n m : ℤ) → m ≤ℤ n → pos 0 ≤ℤ n -ℤ m
unfolding ◌-ℤ◌
sub-nonneg n m h = ground arith
