-- ===== src/Scan/Limits.antt =====
-- The steps of the scan parameters of urg_node/include/uam/scan_params.h.
use urg_node.Prelude.{ap, ◌≡◌, refl, arith}
use urg_node.Prelude.Int.{
  ℤ, pos, ◌≤ℤ◌, ◌<ℤ◌, ◌+ℤ◌, clamp-bounds, clamp-low, clamp-high, sub_add-le, le-sub_add, sub-neg,
  sub-nonneg, ◌-ℤ◌,
}
use urg_node.Prelude.Real.{Arith}
use urg_node.Scan.{
  PpReply, ScanParameters, step_pair, step2index, index_angle, angle_index, angle2step, step2angle,
  set_angle_limits, limits_of_message, from_message,
}

-- Two steps within limits that differ lead to a pair in order within them.
pub step_pair-bounds :
    (low high first last : ℤ)
    → low <ℤ high
    → low ≤ℤ first
    → first ≤ℤ high
    → low ≤ℤ last
    → last ≤ℤ high
    → let (f, l) = step_pair low first last in (low ≤ℤ f) × (f <ℤ l) × (l ≤ℤ high)
unfolding step_pair ◌+ℤ◌ ◌-ℤ◌
step_pair-bounds low high first last order h1 h2 h3 h4 = ground arith

-- Two steps in order are left as they are.
step_pair-id : (low first last : ℤ) → first <ℤ last → step_pair low first last ≡ (first, last)
unfolding step_pair
step_pair-id low first last h = ground arith

module _ (a : Arith) where
  -- The scan has a first and a later last step between the limits, and its angles are theirs.
  pub record IsWithin (s : ScanParameters a) : Type 0 where
    pub limit_le_first : s.first_step_limit ≤ℤ s.first_step
    pub first_lt_last : s.first_step <ℤ s.last_step
    pub last_le_limit : s.last_step ≤ℤ s.last_step_limit
    pub angle_of_first : s.angle_min ≡ step2angle a s s.first_step
    pub angle_of_last : s.angle_max ≡ step2angle a s s.last_step

  angle2step-bounds :
      (s : ScanParameters a) (angle : a.Real)
      → s.first_step_limit ≤ℤ s.last_step_limit
      → (s.first_step_limit ≤ℤ angle2step a s angle) × (angle2step a s angle ≤ℤ s.last_step_limit)
  unfolding angle2step
  angle2step-bounds s angle h =
      clamp-bounds s.first_step_limit (angle_index a s.angular_resolution angle +ℤ s.front_step)
        s.last_step_limit h

  -- If the limit of the first step is below that of the last, then for any two angles, in any
  -- order, and any arithmetic, `setAngleLimits` leaves a first step that is below the last one,
  -- both between the limits, with the angles of these steps, and keeps both limits.
  pub set_angle_limits-IsWithin :
      (s : ScanParameters a) (new_angle_min new_angle_max : a.Real)
      → s.first_step_limit <ℤ s.last_step_limit
      → let s' = set_angle_limits a s new_angle_min new_angle_max in
        IsWithin s'
        × (s'.first_step_limit ≡ s.first_step_limit)
        × (s'.last_step_limit ≡ s.last_step_limit)
  unfolding set_angle_limits step2angle
  set_angle_limits-IsWithin s low high h =
      let (h1, h2) = angle2step-bounds s low (omega arith) in
      let (h3, h4) = angle2step-bounds s high (omega arith) in
      let b =
        step_pair-bounds s.first_step_limit s.last_step_limit (angle2step a s low)
          (angle2step a s high) h h1 h2 h3 h4 in
      (
        record {
          limit_le_first = b.0;
          first_lt_last = b.1;
          last_le_limit = b.2;
          angle_of_first = refl;
          angle_of_last = refl;
        },
        refl,
        refl,
      )

  -- An angle made of an index below 0 is rounded back to that index or a lower one, and one made of
  -- another index to that index or a higher one: rounding errors are made up for by the direction.
  abbrev pub RoundsOutwards : ℤ → ℤ → Type 0
  RoundsOutwards resolution index =
      (index <ℤ pos 0 → angle_index a resolution (index_angle a resolution index) ≤ℤ index)
      × (pos 0 ≤ℤ index → index ≤ℤ angle_index a resolution (index_angle a resolution index))

  module _ (s : ScanParameters a) (ordered : s.first_step_limit ≤ℤ s.last_step_limit) where
    angle2step-low :
        RoundsOutwards s.angular_resolution (step2index a s.front_step s.first_step_limit)
        → s.first_step_limit <ℤ s.front_step
        → angle2step a s (step2angle a s s.first_step_limit) ≡ s.first_step_limit
    unfolding angle2step step2angle step2index
    angle2step-low rounds h = clamp-low s.first_step_limit _ s.last_step_limit ordered (
        sub_add-le s.first_step_limit s.front_step _
          (rounds.0 (sub-neg s.first_step_limit s.front_step h)))

    angle2step-high :
        RoundsOutwards s.angular_resolution (step2index a s.front_step s.last_step_limit)
        → s.front_step ≤ℤ s.last_step_limit
        → angle2step a s (step2angle a s s.last_step_limit) ≡ s.last_step_limit
    unfolding angle2step step2angle step2index
    angle2step-high rounds h = clamp-high s.first_step_limit _ s.last_step_limit ordered (
        le-sub_add s.last_step_limit s.front_step _
          (rounds.1 (sub-nonneg s.last_step_limit s.front_step h)))

  -- The steps are those of the pair.
  set_angle_limits-steps :
      (s : ScanParameters a) (low high : a.Real) (f l : ℤ)
      → angle2step a s low ≡ f
      → angle2step a s high ≡ l
      → f <ℤ l
      → let s' = set_angle_limits a s low high in (s'.first_step ≡ f) × (s'.last_step ≡ l)
  unfolding set_angle_limits
  set_angle_limits-steps s low high f l e1 e2 h =
      let e : step_pair s.first_step_limit (angle2step a s low) (angle2step a s high) ≡ (f, l) =
        rw (e1, e2) (step_pair-id s.first_step_limit f l h) in
      (ap (λ p. p.0) e, ap (λ p. p.1) e)

  pub from_message-full :
      (reply : PpReply)
      → RoundsOutwards reply.angular_resolution
          (step2index a reply.front_data_step reply.first_step)
      → RoundsOutwards reply.angular_resolution (step2index a reply.front_data_step reply.last_step)
      → reply.first_step <ℤ reply.front_data_step
      → reply.front_data_step ≤ℤ reply.last_step
      → let s = from_message a reply in
        (s.first_step ≡ reply.first_step) × (s.last_step ≡ reply.last_step)
  unfolding from_message limits_of_message step2angle
  from_message-full reply round1 round2 h1 h2 =
      let s = limits_of_message a reply in
      set_angle_limits-steps s _ _ reply.first_step reply.last_step
        (angle2step-low s (omega arith) round1 h1) (angle2step-high s (omega arith) round2 h2)
        (omega arith)
