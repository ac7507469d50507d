-- ===== src/Urg/Scans/Filling.antt =====
-- The loop over the beams in `grabScan` of urg_node/src/urg_c_wrapper.cpp: what it leaves in both lists.
use urg_node.Prelude.{
  ℕ, zero, suc, ◌+◌, ◌≤◌, ◌<◌, ◌≡◌, ◌≢◌, refl, arith, List, length, get_or, length-set_at,
  get_or-set_at_self, get_or-set_at_other, sym, subst, ◌⊎◌, inl, inr, if◌then◌else◌, ◌∙◌, ap,
}
use urg_node.Prelude.Int.{pos, eq_ℤ}
use urg_node.Urg.Library.{Platform}
use urg_node.Urg.{UrgCWrapper}
use urg_node.Urg.Scans.{range_of, intensity_of, fill_beam, fill_beams}

eq_or_lt : (i k : ℕ) → i ≤ k → (i ≡ k) ⊎ (i < k)
eq_or_lt i k h = omega arith

module _ (p : Platform) where
  abbrev pub Lists : Type 0
  Lists = List p.float.Real × List p.float.Real

  -- The range of a beam and its intensity, where `old` is the intensity that the message had.
  unfoldable pub beam_range : UrgCWrapper p → ℕ → p.float.Real
  beam_range w k =
      let d = get_or w.ranges k (p.lib.past_ranges k) in
      if eq_ℤ d (pos 0) then p.nan else range_of p w d

  unfoldable pub beam_intensity : UrgCWrapper p → ℕ → p.float.Real → p.float.Real
  beam_intensity w k old =
      if eq_ℤ (get_or w.ranges k (p.lib.past_ranges k)) (pos 0)
      then old
      else if w.use_intensity
      then intensity_of p (get_or w.intensity k (p.lib.past_intensities k))
      else old

  module _ (w : UrgCWrapper p) where
    -- The lists of a round, by whether its beam has a range and the message intensities.
    fill_beam-length :
        (i : ℕ) (l : Lists)
        → (length (fill_beam p w i l).0 ≡ length l.0) × (length (fill_beam p w i l).1 ≡ length l.1)
    unfolding fill_beam
    fill_beam-length i (rs, is) = ground (
      arith,
      length-set_at i p.nan rs,
      length-set_at i (range_of p w (get_or w.ranges i (p.lib.past_ranges i))) rs,
      length-set_at i (intensity_of p (get_or w.intensity i (p.lib.past_intensities i))) is,
    )

    fill_beam-other :
        (i k : ℕ) (l : Lists) (d : p.float.Real)
        → i ≢ k
        → (get_or (fill_beam p w i l).0 k d ≡ get_or l.0 k d)
          × (get_or (fill_beam p w i l).1 k d ≡ get_or l.1 k d)
    unfolding fill_beam
    fill_beam-other i k (rs, is) d h = ground (
      arith,
      get_or-set_at_other i k p.nan rs d h,
      get_or-set_at_other i k (range_of p w (get_or w.ranges i (p.lib.past_ranges i))) rs d h,
      get_or-set_at_other i k (intensity_of p (get_or w.intensity i (p.lib.past_intensities i))) is
          d h,
    )

    fill_beam-range :
        (k : ℕ) (l : Lists) (d : p.float.Real)
        → k < length l.0
        → get_or (fill_beam p w k l).0 k d ≡ beam_range w k
    unfolding fill_beam beam_range
    fill_beam-range k (rs, is) d h = ground (
      arith,
      get_or-set_at_self k p.nan rs d h,
      get_or-set_at_self k (range_of p w (get_or w.ranges k (p.lib.past_ranges k))) rs d h,
    )

    fill_beam-intensity :
        (k : ℕ) (l : Lists) (d : p.float.Real)
        → k < length l.1
        → get_or (fill_beam p w k l).1 k d ≡ beam_intensity w k (get_or l.1 k d)
    unfolding fill_beam beam_intensity
    fill_beam-intensity k (rs, is) d h = ground (
      arith,
      get_or-set_at_self k (intensity_of p (get_or w.intensity k (p.lib.past_intensities k))) is d
          h,
    )

    pub fill_beams-length :
        (n i : ℕ) (l : Lists)
        → (length (fill_beams p w n i l).0 ≡ length l.0)
          × (length (fill_beams p w n i l).1 ≡ length l.1)
    unfolding fill_beams
    fill_beams-length zero i l = (refl, refl)
    fill_beams-length (suc n) i l =
        let one = fill_beam-length i l in
        let rest = fill_beams-length n (i + 1) (fill_beam p w i l) in
        (rest.0 ∙ one.0, rest.1 ∙ one.1)

    -- The beams before the first are left alone.
    fill_beams-before :
        (n i k : ℕ) (l : Lists) (d : p.float.Real)
        → k < i
        → (get_or (fill_beams p w n i l).0 k d ≡ get_or l.0 k d)
          × (get_or (fill_beams p w n i l).1 k d ≡ get_or l.1 k d)
    unfolding fill_beams
    fill_beams-before zero i k l d h = (refl, refl)
    fill_beams-before (suc n) i k l d h =
        let one = fill_beam-other i k l d (λ e. omega arith) in
        let rest = fill_beams-before n (i + 1) k (fill_beam p w i l) d (omega arith) in
        (rest.0 ∙ one.0, rest.1 ∙ one.1)

    pub fill_beams-range :
        (n i k : ℕ) (l : Lists) (d : p.float.Real)
        → i ≤ k
        → k < i + n
        → k < length l.0
        → get_or (fill_beams p w n i l).0 k d ≡ beam_range w k
    unfolding fill_beams
    fill_beams-range zero i k l d h1 h2 h3 = absurd (omega arith)
    fill_beams-range (suc n) i k l d h1 h2 h3 =
        let l' = fill_beam p w i l in
        let same = fill_beam-length i l in
        elim (eq_or_lt i k h1) [
          | inl e ↦
              (fill_beams-before n (i + 1) k l' d (omega arith)).0
              ∙ subst (λ j. get_or (fill_beam p w j l).0 k d ≡ beam_range w k) (sym e)
                  (fill_beam-range k l d h3)
          | inr lt ↦ fill_beams-range n (i + 1) k l' d (omega arith) (omega arith) (omega arith)
        ]

    pub fill_beams-intensity :
        (n i k : ℕ) (l : Lists) (d : p.float.Real)
        → i ≤ k
        → k < i + n
        → k < length l.1
        → get_or (fill_beams p w n i l).1 k d ≡ beam_intensity w k (get_or l.1 k d)
    unfolding fill_beams
    fill_beams-intensity zero i k l d h1 h2 h3 = absurd (omega arith)
    fill_beams-intensity (suc n) i k l d h1 h2 h3 =
        let l' = fill_beam p w i l in
        let same = fill_beam-length i l in
        elim (eq_or_lt i k h1) [
          | inl e ↦
              (fill_beams-before n (i + 1) k l' d (omega arith)).1
              ∙ subst (λ j. get_or (fill_beam p w j l).1 k d ≡ beam_intensity w k (get_or l.1 k d))
                  (sym e) (fill_beam-intensity k l d h3)
          | inr lt ↦
              let other = (fill_beam-other i k l d (λ e. omega arith)).1 in
              fill_beams-intensity n (i + 1) k l' d (omega arith) (omega arith) (omega arith)
              ∙ ap (beam_intensity w k) other
        ]
