-- ===== src/Urg/Scans/Echoes.antt =====
-- The echoes of a scan of several echoes, beam by beam: the other `grabScan` of
-- urg_node/src/urg_c_wrapper.cpp.
use urg_node.Prelude.{
  ◌≤◌, ℕ, zero, suc, ◌+◌, ◌*◌, ◌<◌, ◌≡◌, refl, arith, Bool, true, false, List, [], ◌∷◌, ◌++◌,
  length, get_or, map, take, drop, drop-drop, if◌then◌else◌, ◌∙◌, ap, sym, subst,
}
use urg_node.Prelude.Int.{ℤ, pos, eq_ℤ}
use urg_node.Urg.Library.{Platform}
use urg_node.Urg.{UrgCWrapper}
use urg_node.Urg.Scans.{
  MultiEchoLaserScan, range_of, intensity_of, grab_echoes, grab_beams, measure_echoes,
  grab_multi_echo_scan,
}

-- The elements before the first 0.
unfoldable pub until_zero : List ℤ → List ℤ
until_zero [] = []
until_zero (d ∷ ds) = let rest = until_zero ds in if eq_ℤ d (pos 0) then [] else d ∷ rest

-- A list in groups of a size, so many of them.
unfoldable pub groups {ℓ} : {A : Type ℓ} → ℕ → ℕ → List A → List (List A)
groups size zero xs = []
groups size (suc n) xs = take size xs ∷ groups size n (drop size xs)

-- What lies from an index inside on: the element there and the rest.
drop-inside {ℓ} :
    {A : Type ℓ} (at next : ℕ) (xs : List A) (d : A)
    → suc at ≡ next
    → at < length xs
    → drop at xs ≡ get_or xs at d ∷ drop next xs
drop-inside at next [] d e h = absurd (omega arith)
drop-inside at zero (x ∷ xs) d e h = absurd (omega arith)
drop-inside zero (suc next) (x ∷ xs) d e h =
    let here : 0 ≡ next = omega arith in ap (λ k. x ∷ drop k xs) here
drop-inside (suc at) (suc next) (x ∷ xs) d e h =
    drop-inside at next xs d (omega arith) (omega arith)

cong_cons {ℓ} : {A : Type ℓ} {x y : A} {xs ys : List A} → x ≡ y → xs ≡ ys → (x ∷ xs) ≡ (y ∷ ys)
cong_cons e h = cc

module _ (p : Platform) (w : UrgCWrapper p) where
  abbrev Lists : Type 0
  Lists = List p.float.Real × List p.float.Real

  -- One round of the inner loop, with the rest of the list.
  grab_echoes-suc :
      (n at : ℕ) (ds : List ℤ)
      → (grab_echoes p w n (at + 1)).0 ≡ map (range_of p w) (until_zero ds)
      → (grab_echoes p w (suc n) at).0
        ≡ map (range_of p w) (until_zero (get_or w.ranges at (p.lib.past_ranges at) ∷ ds))
  unfolding grab_echoes until_zero
  grab_echoes-suc n at ds e = ground arith

  grab_echoes-until_zero :
      (n at : ℕ)
      → at + n ≤ length w.ranges
      → (grab_echoes p w n at).0 ≡ map (range_of p w) (until_zero (take n (drop at w.ranges)))
  unfolding grab_echoes until_zero
  grab_echoes-until_zero zero at h = refl
  grab_echoes-until_zero (suc n) at h =
      grab_echoes-suc n at (take n (drop (at + 1) w.ranges))
        (grab_echoes-until_zero n (at + 1) (omega arith))
      ∙ ap (λ ds. map (range_of p w) (until_zero ds))
          (sym (ap (take (suc n)) (drop-inside at (at + 1) w.ranges _ (omega arith) (omega arith))))

  -- The intensities of the echoes are the first of a list, as many as there are ranges.
  abbrev HasIntensities : List ℕ → Lists → Type 0
  HasIntensities is l = l.1 ≡ map (intensity_of p) (take (length l.0) is)

  grab_echoes-step :
      (n at : ℕ) (is : List ℕ)
      → w.use_intensity ≡ true
      → HasIntensities is (grab_echoes p w n (at + 1))
      → HasIntensities
          (get_or w.intensity at (p.lib.past_intensities at) ∷ is)
          (grab_echoes p w (suc n) at)
  unfolding grab_echoes
  grab_echoes-step n at is used e = ground arith

  grab_echoes-HasIntensities :
      (n at : ℕ)
      → w.use_intensity ≡ true
      → at + n ≤ length w.intensity
      → HasIntensities (drop at w.intensity) (grab_echoes p w n at)
  unfolding grab_echoes
  grab_echoes-HasIntensities zero at used h = refl
  grab_echoes-HasIntensities (suc n) at used h =
      subst (λ is. HasIntensities is (grab_echoes p w (suc n) at))
        (sym (drop-inside at (at + 1) w.intensity _ (omega arith) (omega arith)))
        (grab_echoes-step n at (drop (at + 1) w.intensity) used
          (grab_echoes-HasIntensities n (at + 1) used (omega arith)))

  -- The ranges of a group of the data.
  abbrev pub group_ranges : List ℤ → List p.float.Real
  group_ranges ds =
      let r = p.float in
      map (λ d. r.plus w.range_offset (r.over (r.of_int d) (r.literal 10_000 1))) (until_zero ds)

  grab_beams-groups :
      (n i : ℕ)
      → p.lib.max_echo * i + p.lib.max_echo * n ≤ length w.ranges
      → (grab_beams p w n i).0
        ≡ map group_ranges (groups p.lib.max_echo n (drop (p.lib.max_echo * i) w.ranges))
  unfolding grab_beams groups range_of
  grab_beams-groups zero i h = refl
  grab_beams-groups (suc n) i h =
      let size = p.lib.max_echo in
      let next : drop (size * (i + 1)) w.ranges ≡ drop size (drop (size * i) w.ranges) =
        sym (drop-drop size (size * i) w.ranges ∙ ap (λ k. drop k w.ranges) (omega arith)) in
      cong_cons (grab_echoes-until_zero size (size * i) (omega arith)) (
        grab_beams-groups n (i + 1) (omega arith)
        ∙ ap (λ ds. map group_ranges (groups size n ds)) next)

  -- Each beam, of which the first starts at an index of the data, has the intensities of its ranges.
  abbrev pub AreParallel : ℕ → List (List p.float.Real) → List (List p.float.Real) → Type 0
  AreParallel at [] [] = Unit
  AreParallel at (r ∷ rs) (i ∷ is) =
      (i ≡ map (λ n. p.float.of_int (pos n)) (take (length r) (drop at w.intensity)))
      × AreParallel (at + p.lib.max_echo) rs is
  AreParallel at rs is = ⊥

  AreParallel-cons :
      (b : Bool) (at : ℕ) (r i : List p.float.Real) (rs is : List (List p.float.Real))
      → b ≡ true
      → i ≡ map (λ n. p.float.of_int (pos n)) (take (length r) (drop at w.intensity))
      → AreParallel (at + p.lib.max_echo) rs is
      → AreParallel at (r ∷ rs) (if b then i ∷ is else is)
  AreParallel-cons true at r i rs is e h k = (h, k)
  AreParallel-cons false at r i rs is e h k = absurd (ground arith)

  grab_beams-AreParallel :
      (n i : ℕ)
      → w.use_intensity ≡ true
      → p.lib.max_echo * i + p.lib.max_echo * n ≤ length w.intensity
      → AreParallel (p.lib.max_echo * i) (grab_beams p w n i).0 (grab_beams p w n i).1
  unfolding grab_beams
  grab_beams-AreParallel zero i used h = tt
  grab_beams-AreParallel (suc n) i used h =
      let size = p.lib.max_echo in
      let next : size * (i + 1) ≡ size * i + size = omega arith in
      AreParallel-cons w.use_intensity (size * i) _ _ _ _ used
        (grab_echoes-HasIntensities size (size * i) used (omega arith))
        (subst (λ at. AreParallel at (grab_beams p w n (i + 1)).0 (grab_beams p w n (i + 1)).1) next
          (grab_beams-AreParallel n (i + 1) used (omega arith)))

module _ (p : Platform) where
  -- With a count above 0 the loops' lists are added to those of the message.
  grab_multi_echo_scan-grab_beams :
      (msg : MultiEchoLaserScan p) (w : UrgCWrapper p) (n : ℕ)
      → (measure_echoes p w).1.count ≡ pos n
      → 0 < n
      → let lists = grab_beams p (measure_echoes p w).0 n 0 in
        let (w', msg', ok) = grab_multi_echo_scan p msg w in
        (ok ≡ true)
        × (msg'.ranges ≡ msg.ranges ++ lists.0)
        × (msg'.intensities ≡ msg.intensities ++ lists.1)
  unfolding grab_multi_echo_scan
  grab_multi_echo_scan-grab_beams msg w n e h = ground arith

  -- For a measurement of n beams, n > 0, whose arrays have an entry for each echo of each beam,
  -- the intensities only where they are used, the scan of several echoes succeeds and adds to the
  -- ranges of the message, for each of the n groups of the data, the distances before the first 0
  -- of the group, each over 1000 with the offset of the range added, and with intensities as many
  -- intensities of the same group for each of these beams.
  pub grab_multi_echo_scan-groups :
      (msg : MultiEchoLaserScan p) (w : UrgCWrapper p) (n : ℕ)
      → (measure_echoes p w).1.count ≡ pos n
      → 0 < n
      → p.lib.max_echo * n ≤ length (measure_echoes p w).0.ranges
      → (w.use_intensity ≡ true → p.lib.max_echo * n ≤ length (measure_echoes p w).0.intensity)
      → let w' = (measure_echoes p w).0 in
        let (_, msg', ok) = grab_multi_echo_scan p msg w in
        (ok ≡ true)
        × (msg'.ranges ≡ msg.ranges ++ map (group_ranges p w') (groups p.lib.max_echo n w'.ranges))
        × (w.use_intensity ≡ true
            → (added : List (List p.float.Real)) × (msg'.intensities ≡ msg.intensities ++ added)
              × AreParallel p w' 0
                  (map (group_ranges p w') (groups p.lib.max_echo n w'.ranges))
                  added)
  unfolding grab_multi_echo_scan
  grab_multi_echo_scan-groups msg w n e h long long_intensity =
      let w' = (measure_echoes p w).0 in
      let (ok, ranges, intensities) = grab_multi_echo_scan-grab_beams msg w n e h in
      let start : p.lib.max_echo * 0 ≡ 0 = omega arith in
      let groups_of =
        grab_beams-groups p w' n 0 (omega arith)
        ∙ ap (λ k. map (group_ranges p w') (groups p.lib.max_echo n (drop k w'.ranges))) start in
      (
        ok,
        ranges ∙ ap (λ rs. msg.ranges ++ rs) groups_of,
        λ used. (
          (grab_beams p w' n 0).1,
          intensities,
          subst (λ rs. AreParallel p w' 0 rs (grab_beams p w' n 0).1) groups_of
              (subst (λ at. AreParallel p w' at (grab_beams p w' n 0).0 (grab_beams p w' n 0).1)
                start (grab_beams-AreParallel p w' n 0 used (omega (arith, long_intensity used)))),
        ),
      )
