-- ===== src/Scan.antt =====
-- `ScanParameters` of urg_node/include/uam/scan_params.h: the steps and angles between which the sensor
-- is asked to scan. The arithmetic of `double` is a parameter; `Scan.Limits` is about its steps.
pub mod Limits
pub mod Pp
use urg_node.Prelude.{Bool, true, false, ◌&&◌, if◌then◌else◌}
use urg_node.Prelude.Int.{ℤ, pos, ◌+ℤ◌, ◌-ℤ◌, ltb_ℤ, eq_ℤ, max_ℤ, min_ℤ}
use urg_node.Prelude.Real.{Arith}

-- `scip_protocol::PPReply`.
pub record PpReply : Type 0 where
  pub min_distance : ℤ
  pub max_distance : ℤ
  pub angular_resolution : ℤ
  pub first_step : ℤ
  pub last_step : ℤ
  pub front_data_step : ℤ
  pub rpm : ℤ

pub record ScanParameters (a : Arith) : Type 0 where
  pub angular_time_offset : a.Real
  pub angle_increment : a.Real
  pub time_increment : a.Real
  pub range_min : a.Real
  pub range_max : a.Real
  pub scan_period : a.Real
  pub angle_min : a.Real
  pub angle_max : a.Real
  pub first_step : ℤ
  pub last_step : ℤ
  pub angle_min_limit : a.Real
  pub angle_max_limit : a.Real
  pub first_step_limit : ℤ
  pub last_step_limit : ℤ
  pub front_step : ℤ
  pub angular_resolution : ℤ
  pub rpm : ℤ

-- The steps of a scan, once two steps are told apart: if they are the same, the one at the beginning of
-- the range is moved up, any other one down, and a pair in the wrong order is swapped.
unfoldable pub step_pair : ℤ → ℤ → ℤ → ℤ × ℤ
step_pair limit tmp_first tmp_last =
    let (first, last) =
      if eq_ℤ tmp_first tmp_last
      then if eq_ℤ tmp_first limit
        then (tmp_first, tmp_last +ℤ pos 1)
        else (tmp_first -ℤ pos 1, tmp_last)
      else (tmp_first, tmp_last) in
    if ltb_ℤ last first then (last, first) else (first, last)

module _ (a : Arith) where
  abbrev pub two_pi : a.Real
  two_pi = a.times (a.literal 20 1) a.pi

  -- `step2index` with the front step, and the angle of a step.
  unfoldable pub step2index : ℤ → ℤ → ℤ
  step2index front_step step = step -ℤ front_step

  unfoldable pub index_angle : ℤ → ℤ → a.Real
  index_angle angular_resolution index =
      a.over (a.times two_pi (a.of_int index)) (a.of_int angular_resolution)

  unfoldable pub step2angle : ScanParameters a → ℤ → a.Real
  unfolding step2index index_angle
  step2angle s step = index_angle s.angular_resolution (step2index s.front_step step)

  -- The index that an angle is rounded to, away from 0.
  unfoldable pub angle_index : ℤ → a.Real → ℤ
  angle_index angular_resolution angle =
      let tmp = a.over (a.times (a.of_int angular_resolution) angle) two_pi in
      if a.less tmp (a.of_int (pos 0)) then a.floor_int tmp else a.ceil_int tmp

  unfoldable pub angle2step : ScanParameters a → a.Real → ℤ
  unfolding angle_index
  angle2step s angle =
      let step = angle_index s.angular_resolution angle +ℤ s.front_step in
      min_ℤ (max_ℤ s.first_step_limit step) s.last_step_limit

  unfoldable pub calculate_time_offset : ScanParameters a → a.Real
  calculate_time_offset s =
      let angle =
        if eq_ℤ s.first_step (pos 0) && eq_ℤ s.last_step (pos 0)
        then s.angle_min_limit
        else s.angle_min in
      a.times (a.over (a.plus angle a.pi) two_pi) s.scan_period

  unfoldable pub set_angle_limits : ScanParameters a → a.Real → a.Real → ScanParameters a
  unfolding step_pair step2angle angle2step calculate_time_offset
  set_angle_limits s new_angle_min new_angle_max =
      let (first, last) =
        step_pair s.first_step_limit (angle2step s new_angle_min) (angle2step s new_angle_max) in
      let s1 = record s { first_step = first; last_step = last } in
      let s2 = record s1 { angle_min = step2angle s1 first; angle_max = step2angle s1 last } in
      record s2 { angular_time_offset = calculate_time_offset s2 }

  -- `fromMessage` up to the choice of the angles, which sets them to their limits.
  unfoldable pub limits_of_message : PpReply → ScanParameters a
  unfolding step2index index_angle
  limits_of_message reply =
      let zero_real = a.literal 0 1 in
      let period = a.over (a.literal 600 1) (a.of_int reply.rpm) in
      let angle_of : ℤ → a.Real =
        λ step. index_angle reply.angular_resolution (step2index reply.front_data_step step) in
      record {
        angular_time_offset = zero_real;
        angle_increment = a.over two_pi (a.of_int reply.angular_resolution);
        time_increment = a.over period (a.of_int reply.angular_resolution);
        range_min = a.over (a.of_int reply.min_distance) (a.literal 10_000 1);
        range_max = a.over (a.of_int reply.max_distance) (a.literal 10_000 1);
        scan_period = period;
        angle_min = zero_real;
        angle_max = zero_real;
        first_step = pos 0;
        last_step = pos 0;
        angle_min_limit = angle_of reply.first_step;
        angle_max_limit = angle_of reply.last_step;
        first_step_limit = reply.first_step;
        last_step_limit = reply.last_step;
        front_step = reply.front_data_step;
        angular_resolution = reply.angular_resolution;
        rpm = reply.rpm;
      }

  unfoldable pub from_message : PpReply → ScanParameters a
  unfolding set_angle_limits limits_of_message
  from_message reply =
      let s = limits_of_message reply in set_angle_limits s s.angle_min_limit s.angle_max_limit
