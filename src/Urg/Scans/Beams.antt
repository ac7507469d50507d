-- ===== src/Urg/Scans/Beams.antt =====
-- The ranges and intensities of a scan of one echo, beam by beam: `grabScan` of
-- urg_node/src/urg_c_wrapper.cpp.
use urg_node.Prelude.{
  ◌≤◌, some, get_elem?, get_or-get_elem?, get_elem?-some, ℕ, zero, suc, ◌<◌, ◌≡◌, refl, arith, Bool,
  true, false, List, [], ◌∷◌, length, get_or, if◌then◌else◌, ◌∙◌, ap,
}
use urg_node.Prelude.Int.{ℤ, pos, eq_ℤ}
use urg_node.Urg.Library.{Platform, Measurement}
use urg_node.Urg.{UrgCWrapper, resize}
use urg_node.Urg.Clock.{get_synchronized_time, advance_clock, reset_clock}
use urg_node.Urg.Scans.{LaserScan, range_of, fill_beams, grab_scan, measure, stamp_of}
use urg_node.Urg.Scans.Filling.{
  Lists, beam_range, beam_intensity, fill_beams-length, fill_beams-range, fill_beams-intensity,
}

module _ {ℓ} {A : Type ℓ} where
  pub length-resize : (n : ℕ) (a : A) (xs : List A) → length (resize n a xs) ≡ n
  unfolding resize
  length-resize zero a xs = refl
  length-resize (suc n) a [] = ap suc (length-resize n a [])
  length-resize (suc n) a (x ∷ xs) = ap suc (length-resize n a xs)

module _ (p : Platform) where
  -- A stamp changes nothing that the beams are made of.
  stamp_of-beams :
      (m : Measurement) (w : UrgCWrapper p) (k : ℕ) (old : p.float.Real)
      → let w' = (stamp_of p m w).0 in
        (w'.use_intensity ≡ w.use_intensity)
        × (beam_range p w' k ≡ beam_range p w k)
        × (beam_intensity p w' k old ≡ beam_intensity p w k old)
  unfolding stamp_of get_synchronized_time advance_clock reset_clock beam_range beam_intensity
      range_of
  stamp_of-beams m w k old = ground arith

  -- The lists that the loop of `grab_scan` starts from.
  abbrev start_lists : LaserScan p → Bool → ℕ → Lists p
  start_lists msg use_intensity n =
      let zero_float = p.float.literal 0 0 in
      (
        resize n zero_float msg.ranges,
        if use_intensity then resize n zero_float msg.intensities else msg.intensities,
      )

  length-start_lists :
      (msg : LaserScan p) (n : ℕ) (use_intensity : Bool)
      → use_intensity ≡ true
      → (start_lists msg use_intensity n).1 ≡ resize n (p.float.literal 0 0) msg.intensities
  length-start_lists msg n true e = refl
  length-start_lists msg n false e = absurd (ground arith)

  -- With a count above 0 the lists of the message are those of the loop.
  grab_scan-fills :
      (msg : LaserScan p) (w : UrgCWrapper p) (n : ℕ)
      → (measure p w).1.count ≡ pos n
      → 0 < n
      → let (w1, m) = measure p w in
        let w2 = (stamp_of p m w1).0 in
        let lists = fill_beams p w2 n 0 (start_lists msg w2.use_intensity n) in
        let (w', msg', ok) = grab_scan p msg w in
        (ok ≡ true) × (msg'.ranges ≡ lists.0) × (msg'.intensities ≡ lists.1)
  unfolding grab_scan
  grab_scan-fills msg w n e h = ground arith

  beam_range-inside :
      (w : UrgCWrapper p) (k : ℕ) (v : ℤ)
      → get_elem? w.ranges k ≡ some v
      → beam_range p w k ≡ (
          if eq_ℤ v (pos 0)
          then p.nan
          else p.float.plus w.range_offset
              (p.float.over (p.float.of_int v) (p.float.literal 10_000 1)))
  unfolding beam_range range_of
  beam_range-inside w k v e = rw (get_or-get_elem? w.ranges k (p.lib.past_ranges k) v e) refl

  beam_intensity-inside :
      (w : UrgCWrapper p) (k : ℕ) (v : ℤ) (i : ℕ) (old : p.float.Real)
      → w.use_intensity ≡ true
      → get_elem? w.ranges k ≡ some v
      → get_elem? w.intensity k ≡ some i
      → beam_intensity p w k old ≡ (if eq_ℤ v (pos 0) then old else p.float.of_int (pos i))
  unfolding beam_intensity
  beam_intensity-inside w k v i old used e h =
      rw
        (
          get_or-get_elem? w.ranges k (p.lib.past_ranges k) v e,
          get_or-get_elem? w.intensity k (p.lib.past_intensities k) i h,
          used,
        )
        refl

  -- The scan of one echo by the beams that fill it.
  grab_scan-fill_beams :
      (msg : LaserScan p) (w : UrgCWrapper p) (n k : ℕ) (d : p.float.Real)
      → (measure p w).1.count ≡ pos n
      → k < n
      → let w1 = (measure p w).0 in
        let (w', msg', ok) = grab_scan p msg w in
        (ok ≡ true)
        × (length msg'.ranges ≡ n)
        × (get_or msg'.ranges k d ≡ beam_range p w1 k)
        × (w.use_intensity ≡ true
            → (length msg'.intensities ≡ n)
              × (get_or msg'.intensities k d
                  ≡ beam_intensity p w1 k
                      (get_or (resize n (p.float.literal 0 0) msg.intensities) k d)))
  unfolding measure
  grab_scan-fill_beams msg w n k d e h =
      let (w1, m) = measure p w in
      let w2 = (stamp_of p m w1).0 in
      let start = start_lists msg w2.use_intensity n in
      let zero_float = p.float.literal 0 0 in
      let (ok, fills_ranges, fills_intensities) = grab_scan-fills msg w n e (omega arith) in
      let size : length start.0 ≡ n = length-resize n zero_float msg.ranges in
      let kept = stamp_of-beams m w1 k in
      let lengths = fill_beams-length p w2 n 0 start in
      (
        ok,
        ap length fills_ranges ∙ lengths.0 ∙ size,
        ap (λ l. get_or l k d) fills_ranges
            ∙ fill_beams-range p w2 n 0 k start d (omega arith) (omega arith) (omega arith)
            ∙ (kept d).1,
        λ used.
            let starts = length-start_lists msg n w2.use_intensity ((kept d).0 ∙ used) in
            let size1 : length start.1 ≡ n =
              ap length starts ∙ length-resize n zero_float msg.intensities in
            (
              ap length fills_intensities ∙ lengths.1 ∙ size1,
              ap (λ l. get_or l k d) fills_intensities
                  ∙ fill_beams-intensity p w2 n 0 k start d (omega arith) (omega arith)
                      (omega arith)
                  ∙ ap (λ l. beam_intensity p w2 k (get_or l k d)) starts
                  ∙ (kept (get_or (resize n zero_float msg.intensities) k d)).2,
            ),
      )

  -- For a measurement of n beams whose arrays have at least n entries, the intensities only where
  -- they are used, the scan of one echo succeeds with n ranges, of which each k below n is no
  -- number if the distance v of the beam is 0 and else v over 1000 with the offset of the range
  -- added, and with intensities it has n of them, each that of the beam, or where the distance is
  -- 0 what the message had there after it was resized.
  pub grab_scan-beams :
      (msg : LaserScan p) (w : UrgCWrapper p) (n k : ℕ) (v : ℤ) (d : p.float.Real)
      → (measure p w).1.count ≡ pos n
      → n ≤ length (measure p w).0.ranges
      → (w.use_intensity ≡ true → n ≤ length (measure p w).0.intensity)
      → k < n
      → get_elem? (measure p w).0.ranges k ≡ some v
      → let (w', msg', ok) = grab_scan p msg w in
        (ok ≡ true)
        × (length msg'.ranges ≡ n)
        × (get_or msg'.ranges k d ≡ (
            if eq_ℤ v (pos 0)
            then p.nan
            else p.float.plus w.range_offset
                (p.float.over (p.float.of_int v) (p.float.literal 10_000 1))))
        × (w.use_intensity ≡ true
            → (length msg'.intensities ≡ n)
              × ((i : ℕ) × (get_elem? (measure p w).0.intensity k ≡ some i)
                  × (get_or msg'.intensities k d ≡ (
                      if eq_ℤ v (pos 0)
                      then get_or (resize n (p.float.literal 0 0) msg.intensities) k d
                      else p.float.of_int (pos i)))))
  unfolding measure
  grab_scan-beams msg w n k v d e long long_intensity h at_k =
      let w1 = (measure p w).0 in
      let (ok, size, range, intensity) = grab_scan-fill_beams msg w n k d e h in
      (
        ok,
        size,
        range ∙ beam_range-inside w1 k v at_k,
        λ used.
            let (i, at_i) = get_elem?-some w1.intensity k (omega (arith, long_intensity used)) in
            (
              (intensity used).0,
              (i, at_i, (intensity used).1 ∙ beam_intensity-inside w1 k v i _ used at_k at_i),
            ),
      )
