-- ===== src/Node/Scans.antt =====
-- `scanCallback` of urg_node/include/uam/uam_driver_ros.h: a reply with distances as a scan of ROS. To read
-- the area past its end is undefined behaviour, which is `none` here.
pub mod Window
pub mod Published
pub mod Bounds
use urg_node.Prelude.{
  ℕ, suc, Bool, true, false, not, ◌&&◌, Option, none, some, List, [], ◌∷◌, ◌++◌, map, ltb, leb,
  ◌==◌, if◌then◌else◌, ◌>>=◌, take, drop, ◌-◌, get_elem?,
}
use urg_node.Prelude.Int.{pos}
use urg_node.Prelude.Maps.{find_key}
use urg_node.Prelude.{length}
use urg_node.Protocol.Area.{area_type_code}
use urg_node.Protocol.Sensing.{SensingDataHeader}
use urg_node.Protocol.Replies.{Ar00CommandReply, Ar01CommandReply, Ar06CommandReply}
use urg_node.Scan.{set_angle_limits}
use urg_node.Urg.Scans.{LaserScan}
use urg_node.Node.{UamRos, Publication, laser_scan}
use urg_node.Node.Library.{NodePlatform}
use urg_node.Node.Status.{update_status}
use urg_node.Node.Points.{to_size, IndexedRange, publish_points_in_area}

-- What the callback uses of a reply: `intensities` is there for the types that have the member.
pub record ScanReply : Type 0 where
  pub sensing_data : SensingDataHeader
  pub ranges : List ℕ
  pub intensities : Option (List ℕ)

-- The three instances of the callback.
abbrev pub of_ar00 : Ar00CommandReply → ScanReply
of_ar00 r = record { sensing_data = r.sensing_data; ranges = r.ranges; intensities = none }

abbrev pub of_ar01 : Ar01CommandReply → ScanReply
of_ar01 r = record {
  sensing_data = r.sensing_data;
  ranges = r.ranges;
  intensities = some r.intensities;
}

abbrev pub of_ar06 : Ar06CommandReply → ScanReply
of_ar06 r = record { sensing_data = r.sensing_data; ranges = r.ranges; intensities = none }

module _ (p : NodePlatform) where
  -- What the loop over the ranges collects.
  pub record Collected : Type 0 where
    pub ranges : List p.base.float.Real
    pub any_finite_ranges : Bool
    pub ranges_in_safety_area : List (IndexedRange p)

  -- `range_m`.
  unfoldable pub range_in_meters : p.base.double.Real → ℕ → p.base.float.Real
  range_in_meters range_offset range =
      let r = p.base.float in
      if not (range == 0) && ltb range 0xFFFC
      then r.plus (p.base.narrow range_offset) (r.over (r.of_int (pos range)) (r.literal 10_000 1))
      else p.base.nan

  -- Whether a distance lies in the area, where there is one.
  unfoldable pub is_in_area : Option (LaserScan p.base) → ℕ → p.base.float.Real → Option Bool
  is_in_area none idx range_m = some false
  is_in_area (some area) idx range_m =
      if p.is_nan range_m
      then some false
      else (get_elem? area.ranges idx >>= λ safety_range.
          some (not (p.is_nan safety_range) && p.at_most range_m safety_range))

  -- One turn of the loop, on top of what the later ones collect.
  unfoldable pub collect : ℕ → ℕ → ℕ → p.base.float.Real → Bool → Collected → Collected
  collect first_step last_step idx range_m in_area rest =
      let within_fov = leb first_step idx && leb idx last_step in
      record {
        ranges = if within_fov then range_m ∷ rest.ranges else rest.ranges;
        any_finite_ranges =
            if within_fov && not (p.is_nan range_m) then true else rest.any_finite_ranges;
        ranges_in_safety_area =
            if in_area
            then (idx, range_m) ∷ rest.ranges_in_safety_area
            else rest.ranges_in_safety_area;
      }

  -- The loop over the ranges from an index on.
  unfoldable pub collect_ranges :
      ℕ → ℕ → p.base.double.Real → Option (LaserScan p.base) → ℕ → List ℕ → Option Collected
  unfolding range_in_meters is_in_area collect
  collect_ranges first_step last_step range_offset area idx [] =
      some (record { ranges = []; any_finite_ranges = false; ranges_in_safety_area = [] })
  collect_ranges first_step last_step range_offset area idx (range ∷ ranges) =
      let rest = collect_ranges first_step last_step range_offset area (suc idx) ranges in
      let range_m = range_in_meters range_offset range in
      is_in_area area idx range_m >>= λ in_area.
      rest >>= λ later. some (collect first_step last_step idx range_m in_area later)

  -- `safety_area`: the reference area of the area number that the sensor reports, `none` for a null pointer.
  unfoldable pub reference_area : UamRos p → ℕ → Option (LaserScan p.base)
  reference_area node area_number = node.params.reference_safety_area >>= λ code.
      find_key area_number node.safety_areas >>= λ area. find_key code area >>= λ scan. some scan.1

  -- The message, once the ranges are known. An intensity array is as long as the ranges.
  unfoldable pub scan_message :
      UamRos p → p.base.ros.Time → ScanReply → List p.base.float.Real → LaserScan p.base
  scan_message node wall_time reply ranges =
      let s = node.scan_params in
      let t = p.base.ros in
      let first_step = to_size s.first_step in
      let last_step = to_size s.last_step in
      record {
        header = record {
          frame_id = node.params.frame_id;
          stamp =
              t.time_plus (t.time_plus wall_time node.params.time_offset)
                (t.duration_from_sec s.angular_time_offset);
          angle_min = p.base.narrow s.angle_min;
          angle_max = p.base.narrow s.angle_max;
          angle_increment = p.base.narrow s.angle_increment;
          scan_time = p.base.narrow s.scan_period;
          time_increment = p.base.narrow s.time_increment;
          range_min = p.base.narrow s.range_min;
          range_max = p.base.narrow s.range_max;
        };
        ranges = ranges;
        intensities = elim reply.intensities [
          | none ↦ []
          | some is ↦
              map (λ i. p.base.float.of_int (pos i))
                (take (suc last_step - first_step) (drop first_step is))
        ];
      }

  -- The callback from the loop over the ranges on.
  unfoldable pub publish_scan :
      UamRos p → ScanReply → p.base.ros.Time → Option (UamRos p × List (Publication p))
  unfolding collect_ranges reference_area scan_message publish_points_in_area
  publish_scan node reply wall_time =
      let s = node.scan_params in
      let area = reference_area node reply.sensing_data.area_number in
      collect_ranges (to_size s.first_step) (to_size s.last_step) node.params.range_offset area 0
        reply.ranges
      >>= λ c.
          if not c.any_finite_ranges
          then some (node, [])
          else (let msg = scan_message node wall_time reply c.ranges in
              publish_points_in_area p node c.ranges_in_safety_area msg.header.stamp >>= λ r.
              some (r.0, laser_scan msg ∷ r.1))

  -- The limits that a changed configuration asks for.
  unfoldable pub apply_params : UamRos p → UamRos p
  apply_params node =
      if node.params_changed
      then record node {
        scan_params =
            set_angle_limits p.base.double node.scan_params node.params.angle_min
              node.params.angle_max;
        params_changed = false;
      }
      else node

  -- `scanCallback(reply, wall_time)` at the time `now`; `none` is undefined behaviour.
  unfoldable pub scan_callback :
      p.base.ros.Time
      → UamRos p
      → ScanReply
      → p.base.ros.Time
      → Option (UamRos p × List (Publication p))
  unfolding apply_params publish_scan
  scan_callback now node reply wall_time =
      let seen = record node { scan_stamp = now } in
      let (updated, statuses) = update_status p (apply_params seen) reply.sensing_data false in
      if not (p.is_zero node.discard_data_until) && p.time_less now node.discard_data_until
      then some (seen, [])
      else if not (reply.sensing_data.lockout_state == 0)
      then some (updated, statuses)
      else if leb (length reply.ranges) (to_size updated.scan_params.last_step)
      then some (updated, statuses)
      else (publish_scan updated reply wall_time >>= λ r. some (r.0, statuses ++ r.1))
