-- ===== src/Urg/Limits.antt =====
-- `setAngleLimitsAndCluster` of urg_node/src/urg_c_wrapper.cpp, and the angles that follow from the steps.
use urg_node.Prelude.{◌≡◌, refl, Bool, false, if◌then◌else◌}
use urg_node.Prelude.Int.{ℤ, pos, ◌-ℤ◌, ◌≤ℤ◌, ◌<ℤ◌, leb_ℤ}
use urg_node.Scan.{step_pair}
use urg_node.Scan.Limits.{step_pair-bounds}
use urg_node.Urg.Library.{Platform, UrgC}
use urg_node.Urg.{UrgCWrapper}

module _ (p : Platform) where
  -- `getAngleMin()` and `getAngleMax()`.
  unfoldable pub get_angle_min : UrgCWrapper p → p.double.Real
  get_angle_min w = p.lib.step2rad w.urg w.first_step

  unfoldable pub get_angle_max : UrgCWrapper p → p.double.Real
  get_angle_max w = p.lib.step2rad w.urg w.last_step

  -- `getAngleMinLimit()` and `getAngleMaxLimit()`.
  unfoldable pub get_angle_min_limit : UrgCWrapper p → p.double.Real
  get_angle_min_limit w = p.lib.step2rad w.urg (p.lib.step_min_max w.urg).0

  unfoldable pub get_angle_max_limit : UrgCWrapper p → p.double.Real
  get_angle_max_limit w = p.lib.step2rad w.urg (p.lib.step_min_max w.urg).1

  -- `getAngleIncrement()`, `getScanPeriod()` and `getTimeIncrement()`.
  unfoldable pub get_angle_increment : UrgCWrapper p → p.double.Real
  unfolding get_angle_min get_angle_max
  get_angle_increment w =
      let r = p.double in
      r.over (r.times (r.of_int w.cluster) (r.minus (get_angle_max w) (get_angle_min w)))
        (r.of_int (w.last_step -ℤ w.first_step))

  unfoldable pub get_scan_period : UrgCWrapper p → p.double.Real
  get_scan_period w = let r = p.double in r.times (r.literal 1 6) (r.of_int (p.lib.scan_usec w.urg))

  unfoldable pub get_time_increment : UrgCWrapper p → p.double.Real
  unfolding get_angle_min_limit get_angle_max_limit get_scan_period
  get_time_increment w =
      let r = p.double in
      let (min_step, max_step) = p.lib.step_min_max w.urg in
      let circle_fraction =
        r.over (r.minus (get_angle_max_limit w) (get_angle_min_limit w))
          (r.times (r.literal 20 1) (r.literal 3_141_592 6)) in
      r.over (r.times (r.times (r.of_int w.cluster) circle_fraction) (get_scan_period w))
        (r.of_int (max_step -ℤ min_step))

  -- `getRangeMin()` and `getRangeMax()`.
  unfoldable pub get_range_min : UrgCWrapper p → p.double.Real
  get_range_min w =
      let r = p.double in r.over (r.of_int (p.lib.distance_min_max w.urg).0) (r.literal 10_000 1)

  unfoldable pub get_range_max : UrgCWrapper p → p.double.Real
  get_range_max w =
      let r = p.double in r.over (r.of_int (p.lib.distance_min_max w.urg).1) (r.literal 10_000 1)

  -- `setAngleLimitsAndCluster(angle_min, angle_max, cluster)`: the state, the two angles as it leaves
  -- them, and its result.
  unfoldable pub set_angle_limits_and_cluster :
      p.double.Real
      → p.double.Real
      → ℤ
      → UrgCWrapper p
      → UrgCWrapper p × p.double.Real × p.double.Real × Bool
  unfolding step_pair
  set_angle_limits_and_cluster angle_min angle_max cluster w =
      let (min_step, max_step) = p.lib.step_min_max w.urg in
      let (first, last) =
        step_pair min_step (p.lib.rad2step w.urg angle_min) (p.lib.rad2step w.urg angle_max) in
      let (result, urg) = p.lib.set_scanning_parameter w.urg first last cluster in
      if w.started then (w, angle_min, angle_max, false) else (
        record w { urg = urg; first_step = first; last_step = last; cluster = cluster },
        p.lib.step2rad w.urg first,
        p.lib.step2rad w.urg last,
        leb_ℤ (pos 0) result,
      )

  -- The angles and the range of the sensor stay inside what it reports.
  pub record IsLimited (lib : UrgC p.double.Real) (urg : lib.Sensor) : Type 0 where
    pub min_lt_max : (lib.step_min_max urg).0 <ℤ (lib.step_min_max urg).1
    pub above_min : (angle : p.double.Real) → (lib.step_min_max urg).0 ≤ℤ lib.rad2step urg angle
    pub below_max : (angle : p.double.Real) → lib.rad2step urg angle ≤ℤ (lib.step_min_max urg).1

  -- For a wrapper that is not started, on a sensor that turns angles into steps within its range,
  -- a range of more than one step, `setAngleLimitsAndCluster` leaves a first step that is below
  -- the last one, both within the range, and gives the angles of these steps.
  pub set_angle_limits_and_cluster-bounds :
      (angle_min angle_max : p.double.Real) (cluster : ℤ) (w : UrgCWrapper p)
      → IsLimited p.lib w.urg
      → w.started ≡ false
      → let (w', low, high, ok) = set_angle_limits_and_cluster angle_min angle_max cluster w in
        ((p.lib.step_min_max w.urg).0 ≤ℤ w'.first_step)
        × (w'.first_step <ℤ w'.last_step)
        × (w'.last_step ≤ℤ (p.lib.step_min_max w.urg).1)
        × (low ≡ p.lib.step2rad w.urg w'.first_step)
        × (high ≡ p.lib.step2rad w.urg w'.last_step)
  unfolding set_angle_limits_and_cluster
  set_angle_limits_and_cluster-bounds angle_min angle_max cluster w limited stopped =
      let b =
        step_pair-bounds (p.lib.step_min_max w.urg).0 (p.lib.step_min_max w.urg).1
          (p.lib.rad2step w.urg angle_min) (p.lib.rad2step w.urg angle_max) limited.min_lt_max
          (limited.above_min angle_min) (limited.below_max angle_min) (limited.above_min angle_max)
          (limited.below_max angle_max) in
      rw stopped (b.0, b.1, b.2, refl, refl)
