-- ===== src/Urg/Scans.antt =====
-- Both `grabScan` of urg_node/src/urg_c_wrapper.cpp: a measurement of the sensor as a message of ROS. The
-- arrays of a measurement are read at indices below its count; what a read past their end finds there is up
-- to the platform.
pub mod Filling
pub mod Beams
pub mod Echoes
use urg_node.Prelude.{
  ℕ, zero, suc, ◌+◌, ◌*◌, Bool, true, false, ◌&&◌, List, [], ◌∷◌, ◌++◌, if◌then◌else◌, get_or,
  set_at,
}
use urg_node.Prelude.Int.{ℤ, pos, eq_ℤ, leb_ℤ, pos_part}
use urg_node.Codec.Bytes.{Bytes}
use urg_node.Urg.Library.{
  Platform, Measurement, distance_type, distance_intensity_type, multiecho_type,
  multiecho_intensity_type,
}
use urg_node.Urg.{UrgCWrapper, resize}
use urg_node.Urg.Limits.{
  get_angle_min, get_angle_max, get_angle_min_limit, get_angle_increment, get_scan_period,
  get_time_increment, get_range_min, get_range_max,
}
use urg_node.Urg.Clock.{get_synchronized_time}

-- What `sensor_msgs::LaserScan` and `sensor_msgs::MultiEchoLaserScan` have in common.
pub record ScanHeader (p : Platform) : Type 0 where
  pub frame_id : Bytes
  pub stamp : p.ros.Time
  pub angle_min : p.float.Real
  pub angle_max : p.float.Real
  pub angle_increment : p.float.Real
  pub scan_time : p.float.Real
  pub time_increment : p.float.Real
  pub range_min : p.float.Real
  pub range_max : p.float.Real

pub record LaserScan (p : Platform) : Type 0 where
  pub header : ScanHeader p
  pub ranges : List p.float.Real
  pub intensities : List p.float.Real

-- An element of `ranges` or `intensities` is the list of its echoes.
pub record MultiEchoLaserScan (p : Platform) : Type 0 where
  pub header : ScanHeader p
  pub ranges : List (List p.float.Real)
  pub intensities : List (List p.float.Real)

module _ (p : Platform) where
  -- `getAngularTimeOffset()`.
  unfoldable pub get_angular_time_offset : UrgCWrapper p → p.ros.Duration
  unfolding get_angle_min_limit get_angle_min get_scan_period
  get_angular_time_offset w =
      let r = p.double in
      let half = r.literal 3_141_592 6 in
      let angle =
        if eq_ℤ w.first_step (pos 0) && eq_ℤ w.last_step (pos 0)
        then get_angle_min_limit p w
        else get_angle_min p w in
      p.ros.duration_from_sec
        (r.times (r.over (r.plus angle half) (r.times (r.literal 20 1) half)) (get_scan_period p w))

  -- The header of a scan, with the stamp that it had.
  unfoldable pub scan_header : p.ros.Time → UrgCWrapper p → ScanHeader p
  scan_header stamp w = record {
    frame_id = w.frame_id;
    stamp = stamp;
    angle_min = p.narrow (get_angle_min p w);
    angle_max = p.narrow (get_angle_max p w);
    angle_increment = p.narrow (get_angle_increment p w);
    scan_time = p.narrow (get_scan_period p w);
    time_increment = p.narrow (get_time_increment p w);
    range_min = p.narrow (get_range_min p w);
    range_max = p.narrow (get_range_max p w);
  }

  -- A time stamp with the latencies and the offset of the first angle.
  unfoldable pub delayed : UrgCWrapper p → p.ros.Time → p.ros.Time
  unfolding get_angular_time_offset
  delayed w stamp =
      p.ros.time_plus (p.ros.time_plus (p.ros.time_plus stamp w.system_latency) w.user_latency)
        (get_angular_time_offset w)

  -- `range_offset_ + static_cast<float>(distance) / 1000.0f`.
  unfoldable pub range_of : UrgCWrapper p → ℤ → p.float.Real
  range_of w distance =
      let r = p.float in r.plus w.range_offset (r.over (r.of_int distance) (r.literal 10_000 1))

  abbrev pub intensity_of : ℕ → p.float.Real
  intensity_of n = p.float.of_int (pos n)

  -- One round of the loop over the beams, on the ranges and the intensities of the message.
  unfoldable pub fill_beam :
      UrgCWrapper p
      → ℕ
      → List p.float.Real × List p.float.Real
      → List p.float.Real × List p.float.Real
  unfolding range_of
  fill_beam w i (ranges, intensities) =
      let d = get_or w.ranges i (p.lib.past_ranges i) in
      if eq_ℤ d (pos 0) then (set_at i p.nan ranges, intensities) else (
        set_at i (range_of w d) ranges,
        if w.use_intensity
            then set_at i (intensity_of (get_or w.intensity i (p.lib.past_intensities i)))
                intensities
            else intensities,
      )

  -- The loop for so many beams from `i` on.
  unfoldable pub fill_beams :
      UrgCWrapper p
      → ℕ
      → ℕ
      → List p.float.Real × List p.float.Real
      → List p.float.Real × List p.float.Real
  unfolding fill_beam
  fill_beams w zero i lists = lists
  fill_beams w (suc n) i lists = fill_beams w n (i + 1) (fill_beam w i lists)

  -- The measurement for a scan of one echo, and the state with its arrays.
  unfoldable pub measure : UrgCWrapper p → UrgCWrapper p × Measurement
  measure w =
      let type = if w.use_intensity then distance_intensity_type else distance_type in
      let (m, urg) = p.lib.get_measurement w.urg type w.ranges w.intensity in
      (record w { urg = urg; ranges = m.ranges; intensity = m.intensities }, m)

  -- The stamp of a scan before it is delayed.
  unfoldable pub stamp_of : Measurement → UrgCWrapper p → UrgCWrapper p × p.ros.Time
  unfolding get_synchronized_time
  stamp_of m w =
      if w.synchronize_time
      then get_synchronized_time p m.time_stamp m.system_time_stamp w
      else (w, p.ros.from_nsec m.system_time_stamp)

  -- `grabScan(msg)` for a scan of one echo: the state, the message, and whether there was a scan.
  unfoldable pub grab_scan : LaserScan p → UrgCWrapper p → UrgCWrapper p × LaserScan p × Bool
  unfolding scan_header delayed measure stamp_of resize fill_beams
  grab_scan msg w =
      let (w1, m) = measure w in
      let header = scan_header msg.header.stamp w in
      let (w2, stamp) = stamp_of m w1 in
      let n = pos_part m.count in
      let zero_float = p.float.literal 0 0 in
      let (ranges, intensities) = fill_beams w2 n 0 (
        resize n zero_float msg.ranges,
        if w2.use_intensity then resize n zero_float msg.intensities else msg.intensities,
      ) in
      if leb_ℤ m.count (pos 0) then (w1, record msg { header = header }, false) else (
        w2,
        record {
          header = record header { stamp = delayed w2 stamp };
          ranges = ranges;
          intensities = intensities;
        },
        true,
      )

  -- The inner loop: the echoes of a beam from an index on, at most so many, up to the first 0.
  unfoldable pub grab_echoes : UrgCWrapper p → ℕ → ℕ → List p.float.Real × List p.float.Real
  unfolding range_of
  grab_echoes w zero at = ([], [])
  grab_echoes w (suc n) at =
      let (ranges, intensities) = grab_echoes w n (at + 1) in
      let d = get_or w.ranges at (p.lib.past_ranges at) in
      if eq_ℤ d (pos 0) then ([], []) else (
        range_of w d ∷ ranges,
        if w.use_intensity
            then intensity_of (get_or w.intensity at (p.lib.past_intensities at)) ∷ intensities
            else intensities,
      )

  -- The outer loop, for so many beams from `i` on: what it adds to both lists of the message.
  unfoldable pub grab_beams :
      UrgCWrapper p → ℕ → ℕ → List (List p.float.Real) × List (List p.float.Real)
  unfolding grab_echoes
  grab_beams w zero i = ([], [])
  grab_beams w (suc n) i =
      let (ranges, intensities) = grab_beams w n (i + 1) in
      let (range_echo, intensity_echo) = grab_echoes w p.lib.max_echo (p.lib.max_echo * i) in
      (range_echo ∷ ranges, if w.use_intensity then intensity_echo ∷ intensities else intensities)

  unfoldable pub measure_echoes : UrgCWrapper p → UrgCWrapper p × Measurement
  measure_echoes w =
      let type = if w.use_intensity then multiecho_intensity_type else multiecho_type in
      let (m, urg) = p.lib.get_measurement w.urg type w.ranges w.intensity in
      (record w { urg = urg; ranges = m.ranges; intensity = m.intensities }, m)

  -- `grabScan(msg)` for a scan of several echoes.
  unfoldable pub grab_multi_echo_scan :
      MultiEchoLaserScan p → UrgCWrapper p → UrgCWrapper p × MultiEchoLaserScan p × Bool
  unfolding scan_header delayed measure_echoes grab_beams
  grab_multi_echo_scan msg w =
      let header = scan_header msg.header.stamp w in
      let (w', m) = measure_echoes w in
      let (ranges, intensities) = grab_beams w' (pos_part m.count) 0 in
      if leb_ℤ m.count (pos 0) then (w', record msg { header = header }, false) else (
        w',
        record {
          header = record header { stamp = delayed w' (p.ros.from_nsec m.system_time_stamp) };
          ranges = msg.ranges ++ ranges;
          intensities = msg.intensities ++ intensities;
        },
        true,
      )
