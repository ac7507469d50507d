-- ===== src/Node/Points/Bounds.antt =====
-- Which entries of its table `publishPointsInArea` of urg_node/src/uam/uam_driver_ros.cpp reads.
use urg_node.Prelude.{
  ℕ, zero, suc, ◌≤◌, ◌<◌, ◌≡◌, refl, ap, ◌∙◌, arith, none, some, List, [], ◌∷◌, length, >>=-some,
  >>=-none, get_elem?, get_elem?-some, get_elem?-none, All,
}
use urg_node.Prelude.Int.{pos, ◌+ℤ◌, ◌-ℤ◌}
use urg_node.Scan.{ScanParameters}
use urg_node.Node.{UamRos, LaserScanCachedLookup}
use urg_node.Node.Library.{NodePlatform}
use urg_node.Node.Points.{
  to_size, IndexedRange, lookup_table, get_lut, cached_lut, point_of, points_of,
  publish_points_in_area,
}

module _ (p : NodePlatform) where
  length-lookup_table :
      (f : p.base.float.Real → p.base.float.Real) (s : ScanParameters p.base.double) (i left : ℕ)
      → length (lookup_table p f s i left) ≡ left
  length-lookup_table f s i zero = refl
  length-lookup_table f s i (suc left) = ap suc (length-lookup_table f s (suc i) left)

  -- Both tables go that far.
  abbrev pub Covers : LaserScanCachedLookup p → ℕ → Type 0
  Covers lut n = (n ≤ length lut.cos_lookup) × (n ≤ length lut.sin_lookup)

  -- A new table has an entry for each step of the scan.
  pub get_lut-Covers :
      (s : ScanParameters p.base.double)
      → Covers (get_lut p s) (to_size ((s.last_step -ℤ s.first_step) +ℤ pos 1))
  unfolding get_lut
  get_lut-Covers s =
      let n = to_size ((s.last_step -ℤ s.first_step) +ℤ pos 1) in
      (
        omega (arith, length-lookup_table p.cos s 0 n),
        omega (arith, length-lookup_table p.sin s 0 n),
      )

  pub points_of-Covers :
      (lut : LaserScanCachedLookup p) (n : ℕ) (ranges : List (IndexedRange p))
      → Covers lut n
      → All (λ (r : IndexedRange p). r.0 < n) ranges
      → (pts : List (p.base.double.Real × p.base.double.Real)) × (points_of p lut ranges ≡ some pts)
  unfolding points_of point_of
  points_of-Covers lut n [] covers h = ([], refl)
  points_of-Covers lut n ((i, r) ∷ ranges) covers h =
      let (c, e1) = get_elem?-some lut.cos_lookup i (omega arith) in
      let (s, e2) = get_elem?-some lut.sin_lookup i (omega arith) in
      let (pts, e3) = points_of-Covers lut n ranges covers h.1 in
      let pt : p.base.double.Real × p.base.double.Real =
        (p.widen (p.base.float.times r c), p.widen (p.base.float.times r s)) in
      let point : point_of p lut (i, r) ≡ some pt =
        >>=-some (get_elem? lut.cos_lookup i) _ e1 ∙ >>=-some (get_elem? lut.sin_lookup i) _ e2 in
      (pt ∷ pts, >>=-some (point_of p lut (i, r)) _ point ∙ >>=-some (points_of p lut ranges) _ e3)

  cached_lut-none :
      (node : UamRos p) → node.lut ≡ none → cached_lut p node ≡ get_lut p node.scan_params
  cached_lut-none node fresh =
      ap (λ o. elim o [ none ↦ get_lut p node.scan_params | some lut ↦ lut ]) fresh

  -- If `publishPointsInArea` has not been called before, and the index of the first point is not
  -- below the count of steps from the first to the last, it reads its new table past the end.
  pub publish_points-past_table :
      (node : UamRos p) (index : ℕ) (range : p.base.float.Real) (ranges : List (IndexedRange p))
      (stamp : p.base.ros.Time)
      → node.lut ≡ none
      → to_size ((node.scan_params.last_step -ℤ node.scan_params.first_step) +ℤ pos 1) ≤ index
      → publish_points_in_area p node ((index, range) ∷ ranges) stamp ≡ none
  unfolding publish_points_in_area points_of point_of get_lut
  publish_points-past_table node index range ranges stamp fresh h =
      let s = node.scan_params in
      let steps = to_size ((s.last_step -ℤ s.first_step) +ℤ pos 1) in
      let lut = cached_lut p node in
      let long : length lut.cos_lookup ≡ steps =
        ap (λ (l : LaserScanCachedLookup p). length l.cos_lookup) (cached_lut-none node fresh)
        ∙ length-lookup_table p.cos s 0 steps in
      let past = get_elem?-none lut.cos_lookup index (omega (arith, long)) in
      let no_point = >>=-none (get_elem? lut.cos_lookup index) _ past in
      >>=-none (points_of p lut ((index, range) ∷ ranges)) _
        (>>=-none (point_of p lut (index, range)) _ no_point)
