-- ===== src/Urg.antt =====
-- `URGCWrapper` of urg_node/include/urg_node/urg_c_wrapper.h and urg_node/src/urg_c_wrapper.cpp: its state, its
-- start and its stop, over a `Platform` that has the C library, the time types and the arithmetic. An
-- exception is the result `none` with the state it leaves.
pub mod Library
pub mod Limits
pub mod Clock
pub mod Latency
pub mod Command
pub mod Detection
pub mod Scans
use urg_node.Prelude.{
  ℕ, zero, suc, ◌*◌, Bool, true, false, ◌&&◌, Option, none, some, List, [], ◌∷◌, ◌++◌,
  if◌then◌else◌, ◌==◌, take, length, replicate, ltb, ◌+◌, ◌-◌,
}
use urg_node.Prelude.Int.{ℤ, pos, negsuc, ltb_ℤ, leb_ℤ, ◌-ℤ◌, pos_part}
use urg_node.Codec.Bytes.{Bytes}
use urg_node.Urg.Library.{
  Platform, MeasurementType, distance_type, distance_intensity_type, multiecho_type,
  multiecho_intensity_type, UrgC, RosTime, Measurement,
}

pub record UrgCWrapper (p : Platform) : Type 0 where
  pub frame_id : Bytes
  pub urg : p.lib.Sensor
  pub started : Bool
  pub ranges : List ℤ
  pub intensity : List ℕ
  pub use_intensity : Bool
  pub use_multiecho : Bool
  pub measurement_type : MeasurementType
  pub first_step : ℤ
  pub last_step : ℤ
  pub cluster : ℤ
  pub skip : ℤ
  pub range_offset : p.float.Real
  pub system_latency : p.ros.Duration
  pub user_latency : p.ros.Duration
  pub synchronize_time : Bool
  pub hardware_clock : p.double.Real
  pub last_hardware_time_stamp : ℤ
  pub hardware_clock_adj : p.double.Real
  pub adj_count : ℕ

-- `data_.resize(count)` and its kin: longer lists are cut, shorter ones filled up.
unfoldable pub resize {ℓ} : {A : Type ℓ} → ℕ → A → List A → List A
resize zero a xs = []
resize (suc n) a [] = a ∷ resize n a []
resize (suc n) a (x ∷ xs) = x ∷ resize n a xs

abbrev pub measurement_type_of : Bool → Bool → MeasurementType
measurement_type_of use_intensity use_multiecho =
    if use_intensity && use_multiecho
    then multiecho_intensity_type
    else if use_intensity
    then distance_intensity_type
    else if use_multiecho
    then multiecho_type
    else distance_type

module _ (p : Platform) where
  -- `start()`: what it returns is whether it did without an exception.
  unfoldable pub start : UrgCWrapper p → UrgCWrapper p × Bool
  start w =
      let (result, urg) = p.lib.start_measurement w.urg w.measurement_type (pos 0) w.skip in
      if w.started
      then (w, true)
      else if ltb_ℤ result (pos 0)
      then (record w { urg = urg }, false)
      else (record w { urg = urg; started = true }, true)

  unfoldable pub stop : UrgCWrapper p → UrgCWrapper p
  stop w = record w { urg = p.lib.stop_measurement w.urg; started = false }

  -- `isIntensitySupported()` and `isMultiEchoSupported()`, by the type of the measurement they try.
  unfoldable pub is_supported : MeasurementType → UrgCWrapper p → UrgCWrapper p × Bool
  is_supported type w =
      let (result, urg) = p.lib.start_measurement w.urg type (pos 0) (pos 0) in
      let (m, urg') = p.lib.get_measurement urg type w.ranges w.intensity in
      let w' = record w { urg = urg'; ranges = m.ranges; intensity = m.intensities } in
      if w.started
      then (w, false)
      else if leb_ℤ m.count (pos 0)
      then (w', false)
      else (record w' { urg = p.lib.stop_measurement urg' }, true)

  unfoldable pub is_intensity_supported : UrgCWrapper p → UrgCWrapper p × Bool
  unfolding is_supported
  is_intensity_supported = is_supported distance_intensity_type

  unfoldable pub is_multi_echo_supported : UrgCWrapper p → UrgCWrapper p × Bool
  unfolding is_supported
  is_multi_echo_supported = is_supported multiecho_type

  -- The bytes of `"SCIP2.0\n"` and of the answer, which is without the line feed.
  abbrev pub scip2_answer : Bytes
  scip2_answer = b'S' ∷ b'C' ∷ b'I' ∷ b'P' ∷ b'2' ∷ b'.' ∷ b'0' ∷ []

  abbrev pub equal_bytes : Bytes → Bytes → Bool
  equal_bytes [] [] = true
  equal_bytes (x ∷ xs) (y ∷ ys) = x == y && equal_bytes xs ys
  equal_bytes xs ys = false

  -- The loop of `setToSCIP2()`, which reads lines until there is an error, for at most `fuel` lines: the
  -- count of lines is up to the sensor. `none` is a loop that has not ended.
  unfoldable pub drain_lines : ℕ → p.lib.Sensor → Option p.lib.Sensor
  drain_lines zero urg = none
  drain_lines (suc fuel) urg =
      let (n, line, urg') = p.lib.serial_readline urg 9 in
      let rest = drain_lines fuel urg' in if ltb_ℤ n (pos 0) then some urg' else rest

  -- `setToSCIP2()` on a serial connection, once the lines are drained.
  unfoldable pub switch_to_scip2 : p.lib.Sensor → p.lib.Sensor × Bool
  switch_to_scip2 urg =
      let urg1 = p.lib.serial_write urg (scip2_answer ++ (10 ∷ 0 ∷ [])) in
      let (n, line, urg2) = p.lib.serial_readline urg1 9 in
      let (result, urg3) = p.lib.reopen urg2 in
      if ltb_ℤ (pos 0) n && equal_bytes line scip2_answer
      then (urg3, leb_ℤ (pos 0) result)
      else (urg2, false)

  unfoldable pub set_to_scip2 : ℕ → p.lib.Sensor → Option (p.lib.Sensor × Bool)
  unfolding drain_lines switch_to_scip2
  set_to_scip2 fuel urg =
      if p.lib.is_ethernet urg
      then some (urg, false)
      else elim (drain_lines fuel urg) [ none ↦ none | some urg' ↦ some (switch_to_scip2 urg') ]

  -- The size of the data with its repair in `initialize`: `none` stands for the exception.
  unfoldable pub data_size : ℕ → p.lib.Sensor → Option (Option ℤ × p.lib.Sensor)
  unfolding set_to_scip2
  data_size fuel urg =
      let (size, urg1) = p.lib.max_data_size urg in
      if ltb_ℤ size (pos 0)
      then elim (set_to_scip2 fuel urg1) [
        | none ↦ none
        | some (urg2, false) ↦ some (none, urg2)
        | some (urg2, true) ↦
            let (size2, urg3) = p.lib.max_data_size urg2 in
            let (size3, urg4) = p.lib.max_data_size urg3 in
            if leb_ℤ (pos 0) size2 then some (some size3, urg4) else some (none, urg3)
      ]
      else some (some size, urg1)

  -- The fields that `initialize` sets, with arrays for so many beams.
  unfoldable pub initial_state : ℤ → Bool → p.lib.Sensor → UrgCWrapper p → UrgCWrapper p
  unfolding resize
  initial_state urg_data_size synchronize_time urg w =
      let capped = if ltb_ℤ (pos 5000) urg_data_size then pos 5000 else urg_data_size in
      let size = pos_part capped * p.lib.max_echo in
      record w {
        urg = urg;
        ranges = resize size (pos 0) w.ranges;
        intensity = resize size 0 w.intensity;
        started = false;
        frame_id = [];
        first_step = pos 0;
        last_step = pos 0;
        cluster = pos 1;
        skip = pos 0;
        range_offset = p.float.literal 0 0;
        synchronize_time = synchronize_time;
        hardware_clock = p.double.literal 0 1;
        last_hardware_time_stamp = pos 0;
        hardware_clock_adj = p.double.literal 0 1;
        adj_count = 0;
      }

  -- What `initialize` does with the choices of intensities and echoes.
  unfoldable pub with_choices : Bool → Bool → UrgCWrapper p → UrgCWrapper p
  unfolding is_intensity_supported is_multi_echo_supported
  with_choices using_intensity using_multiecho w =
      let (w1, intensity) = if using_intensity then is_intensity_supported w else (w, false) in
      let (w2, multiecho) = if using_multiecho then is_multi_echo_supported w1 else (w1, false) in
      record w2 {
        use_intensity = intensity;
        use_multiecho = multiecho;
        measurement_type = measurement_type_of intensity multiecho;
      }

  -- `initialize(using_intensity, using_multiecho, synchronize_time)`: whether it did without an
  -- exception, and the state; on an exception the sensor is stopped and closed. The outer `none` is
  -- the loop of `setToSCIP2()` that has not ended.
  unfoldable pub initialize : ℕ → Bool → Bool → Bool → UrgCWrapper p → Option (UrgCWrapper p × Bool)
  unfolding data_size initial_state with_choices stop
  initialize fuel using_intensity using_multiecho synchronize_time w = elim (data_size fuel w.urg) [
    | none ↦ none
    | some (none, urg) ↦
        let w' = stop (record w { urg = urg }) in
        some (record w' { urg = p.lib.close w'.urg }, false)
    | some (some size, urg) ↦ some (
      with_choices using_intensity using_multiecho (initial_state size synchronize_time urg w),
      true,
    )
  ]

  -- `setFrameId`, `setUserLatency`, `setRangeOffset` and `setSkip`.
  unfoldable pub set_frame_id : Bytes → UrgCWrapper p → UrgCWrapper p
  set_frame_id id w = record w { frame_id = id }

  unfoldable pub set_user_latency : p.double.Real → UrgCWrapper p → UrgCWrapper p
  set_user_latency latency w = record w { user_latency = p.ros.duration_from_sec latency }

  unfoldable pub set_range_offset : p.float.Real → UrgCWrapper p → UrgCWrapper p
  set_range_offset offset w = record w { range_offset = offset }

  unfoldable pub set_skip : ℤ → UrgCWrapper p → UrgCWrapper p
  set_skip n w = record w { skip = n }
