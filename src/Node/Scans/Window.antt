-- ===== src/Node/Scans/Window.antt =====
-- The ranges that the loop of `scanCallback` of urg_node/include/uam/uam_driver_ros.h collects.
use urg_node.Prelude.{
  ℕ, suc, ◌-◌, ◌≤◌, ◌<◌, ◌≡◌, inl, inr, refl, ap, sym, ◌∙◌, subst, arith, Bool, true, false, not,
  ◌&&◌, Option, some, List, [], ◌∷◌, map, leb, if◌then◌else◌, if-true, if-false, >>=-eq-some, take,
  drop, some-injective, take-nil, drop-nil, Bool-cases,
}
use urg_node.Urg.Scans.{LaserScan}
use urg_node.Node.Library.{NodePlatform}
use urg_node.Node.Scans.{Collected, range_in_meters, is_in_area, collect, collect_ranges}

-- Where an index lies with respect to a window.
data Place (first last idx : ℕ) : Type 0 where
  before : (leb first idx && leb idx last) ≡ false → idx < first → Place first last idx
  within : (leb first idx && leb idx last) ≡ true → first ≤ idx → idx ≤ last → Place first last idx
  past : (leb first idx && leb idx last) ≡ false → first ≤ idx → last < idx → Place first last idx

place : (first last idx : ℕ) → Place first last idx
place first last idx = elim (Bool-cases (leb first idx)) [
  | inr e ↦ before (ground arith) (ground arith)
  | inl e ↦ elim (Bool-cases (leb idx last)) [
    | inl e' ↦ within (ground arith) (ground arith) (ground arith)
    | inr e' ↦ past (ground arith) (ground arith) (ground arith)
  ]
]

module _ {A : Type 0} where
  -- The part of the elements from an index on that lies in a window.
  abbrev pub window : ℕ → ℕ → ℕ → List A → List A
  window first last idx xs = take ((suc last - first) - (idx - first)) (drop (first - idx) xs)

  window-before :
      (first last idx : ℕ) (x : A) (xs : List A)
      → idx < first
      → window first last idx (x ∷ xs) ≡ window first last (suc idx) xs
  window-before first last idx x xs h =
      let e : first - idx ≡ suc (first - suc idx) = omega arith in
      let n : (suc last - first) - (idx - first) ≡ (suc last - first) - (suc idx - first) =
        omega arith in
      ap (λ k. take ((suc last - first) - (idx - first)) (drop k (x ∷ xs))) e
      ∙ ap (λ k. take k (drop (first - suc idx) xs)) n

  window-within :
      (first last idx : ℕ) (x : A) (xs : List A)
      → first ≤ idx
      → idx ≤ last
      → window first last idx (x ∷ xs) ≡ x ∷ window first last (suc idx) xs
  window-within first last idx x xs low high =
      let e : first - idx ≡ 0 = omega arith in
      let e' : 0 ≡ first - suc idx = omega arith in
      let n : (suc last - first) - (idx - first) ≡ suc ((suc last - first) - (suc idx - first)) =
        omega arith in
      ap (λ k. take ((suc last - first) - (idx - first)) (drop k (x ∷ xs))) e
      ∙ ap (λ k. take k (x ∷ xs)) n
      ∙ ap (λ k. x ∷ take ((suc last - first) - (suc idx - first)) (drop k xs)) e'

  window-after :
      (first last idx : ℕ) (xs : List A) → last < idx → first ≤ idx → window first last idx xs ≡ []
  window-after first last idx xs h h' =
      let n : (suc last - first) - (idx - first) ≡ 0 = omega arith in
      ap (λ k. take k (drop (first - idx) xs)) n

  window-nil : (first last idx : ℕ) → window first last idx [] ≡ []
  window-nil first last idx =
      ap (take ((suc last - first) - (idx - first))) (drop-nil (first - idx)) ∙ take-nil _

module _ (p : NodePlatform) where
  -- Whether one of the ranges is a number.
  abbrev pub has_number : List p.base.float.Real → Bool
  has_number [] = false
  has_number (range ∷ ranges) = if not (p.is_nan range) then true else has_number ranges

module _ (p : NodePlatform) (first last : ℕ) (range_offset : p.base.double.Real)
    (area : Option (LaserScan p.base)) where
  abbrev meters : ℕ → p.base.float.Real
  meters = range_in_meters p range_offset

  -- A turn of the loop adds its distance to the ranges if its index lies in the window.
  collect-ranges :
      (idx range : ℕ) (ranges : List ℕ) (in_area : Bool) (rest : Collected p)
      → rest.ranges ≡ map meters (window first last (suc idx) ranges)
      → (collect p first last idx (meters range) in_area rest).ranges
        ≡ map meters (window first last idx (range ∷ ranges))
  unfolding collect
  collect-ranges idx range ranges in_area rest h = elim (place first last idx) [
    | before b below ↦
        if-false _ _ _ b
        ∙ h
        ∙ ap (map meters) (sym (window-before first last idx range ranges below))
    | within b low high ↦
        if-true _ _ _ b
        ∙ ap (λ rs. meters range ∷ rs) h
        ∙ ap (map meters) (sym (window-within first last idx range ranges low high))
    | past b low above ↦
        if-false _ _ _ b
        ∙ h
        ∙ ap (map meters) (
            window-after first last (suc idx) ranges (omega arith) (omega arith)
            ∙ sym (window-after first last idx (range ∷ ranges) above low))
  ]

  collect-any_finite :
      (idx : ℕ) (range_m : p.base.float.Real) (in_area : Bool) (rest : Collected p)
      → rest.any_finite_ranges ≡ has_number p rest.ranges
      → (collect p first last idx range_m in_area rest).any_finite_ranges
        ≡ has_number p (collect p first last idx range_m in_area rest).ranges
  unfolding collect
  collect-any_finite idx range_m in_area rest h = finite (leb first idx && leb idx last)
    where
      finite :
          (w : Bool)
          → (if w && not (p.is_nan range_m) then true else rest.any_finite_ranges)
            ≡ has_number p (if w then range_m ∷ rest.ranges else rest.ranges)
      finite true = ap (λ b. if not (p.is_nan range_m) then true else b) h
      finite false = h

  -- The loop gives the distances of the window in meters, and whether one of them is a number.
  pub collect_ranges-window :
      (idx : ℕ) (ranges : List ℕ) (c : Collected p)
      → collect_ranges p first last range_offset area idx ranges ≡ some c
      → (c.ranges ≡ map meters (window first last idx ranges))
        × (c.any_finite_ranges ≡ has_number p c.ranges)
  unfolding collect_ranges
  collect_ranges-window idx [] c e =
      subst
        (λ (c : Collected p).
          (c.ranges ≡ map meters (window first last idx []))
          × (c.any_finite_ranges ≡ has_number p c.ranges))
        (some-injective e) (sym (ap (map meters) (window-nil first last idx)), refl)
  collect_ranges-window idx (range ∷ ranges) c e =
      let (in_area, _, e1) = >>=-eq-some (is_in_area p area idx (meters range)) _ e in
      let (later, e2, e3) =
        >>=-eq-some (collect_ranges p first last range_offset area (suc idx) ranges) _ e1 in
      let ih = collect_ranges-window (suc idx) ranges later e2 in
      subst
        (λ (c : Collected p).
          (c.ranges ≡ map meters (window first last idx (range ∷ ranges)))
          × (c.any_finite_ranges ≡ has_number p c.ranges))
        (some-injective e3)
        (
          collect-ranges idx range ranges in_area later ih.0,
          collect-any_finite idx (meters range) in_area later ih.1,
        )
