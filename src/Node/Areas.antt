-- ===== src/Node/Areas.antt =====
-- `readSafetyAreas` of urg_node/src/uam/uam_driver_ros.cpp. What each request of an area meets comes from
-- outside, by its number and its type.
pub mod Reading
pub mod Answering
use urg_node.Prelude.{
  ℕ, zero, suc, Bool, true, false, Option, none, some, List, [], ◌∷◌, map, ltb, if◌then◌else◌,
  ◌>>=◌,
}
use urg_node.Prelude.Int.{pos}
use urg_node.Prelude.Maps.{insert_key}
use urg_node.Protocol.Area.{EyrAreaType, YrCommandReply, area_type_code}
use urg_node.Protocol.Replies.{nr_ranges, max_safety_area_index}
use urg_node.Worker.Crc.{Crc}
use urg_node.Dispatch.{Event, got_yr}
use urg_node.Driver.{UamDriver, Surroundings, get_safety_area}
use urg_node.Scan.{ScanParameters}
use urg_node.Urg.Scans.{LaserScan, ScanHeader}
use urg_node.Node.{UamRos, ScanWithCrc, SafetyArea}
use urg_node.Node.Library.{NodePlatform}
use urg_node.Node.Status.{area_types}

-- `safety_areas_.empty()`.
abbrev pub is_empty {ℓ} : {A : Type ℓ} → List A → Bool
is_empty [] = true
is_empty (x ∷ xs) = false

module _ (p : NodePlatform) where
  -- A distance of an area, in meters.
  unfoldable pub area_range : ℕ → p.base.float.Real
  area_range range =
      let r = p.base.float in
      if ltb range 0x7FFF then r.over (r.of_int (pos range)) (r.literal 10_000 1) else p.base.nan

  -- `toSafetyArea(yr)`.
  unfoldable pub to_safety_area : UamRos p → YrCommandReply → ScanWithCrc p
  unfolding area_range
  to_safety_area node yr =
      let s = node.scan_params in
      (
        yr.footer.crc,
        record {
          header = record {
            frame_id = node.params.frame_id;
            stamp = p.zero_time;
            angle_min = p.base.narrow s.angle_min_limit;
            angle_max = p.base.narrow s.angle_max_limit;
            angle_increment = p.base.narrow s.angle_increment;
            scan_time = p.base.narrow s.scan_period;
            time_increment = p.base.narrow s.time_increment;
            range_min = p.base.narrow s.range_min;
            range_max = p.base.narrow s.range_max;
          };
          ranges = map area_range yr.area_data;
          intensities = [];
        },
      )

  -- `pending_command_reply_.get<Reply>()` for the YR worker. A late reply of another type is not refused: its
  -- memory is read as if it were one of these.
  unfoldable pub as_yr : ℕ → EyrAreaType → UamDriver → Event → YrCommandReply
  as_yr area_number area_type lidar (got_yr r) = r
  as_yr area_number area_type lidar event = p.memory_as_yr area_number area_type lidar event

  module _ (crc : Crc) (around : ℕ → EyrAreaType → Surroundings) (node : UamRos p) where
    -- `lidar_.getSafetyArea(area_type, area_number, 0, c_nr_ranges)`; `none` is an exception.
    unfoldable pub request_area : UamDriver → ℕ → EyrAreaType → UamDriver × Option YrCommandReply
    request_area lidar area_number area_type =
        let (lidar', event) =
          get_safety_area crc (around area_number area_type) lidar area_type area_number 0
            nr_ranges in
        (lidar', event >>= λ e. some (as_yr area_number area_type lidar' e))

    -- The loop over the area types.
    unfoldable pub read_types :
        UamDriver → ℕ → List EyrAreaType → SafetyArea p → UamDriver × Option (SafetyArea p)
    unfolding request_area to_safety_area
    read_types lidar area_number [] area = (lidar, some area)
    read_types lidar area_number (area_type ∷ types) area =
        let (lidar', reply) = request_area lidar area_number area_type in
        elim reply [
          | none ↦ (lidar', none)
          | some yr ↦
              read_types lidar' area_number types
                (insert_key (area_type_code area_type) (to_safety_area node yr) area)
        ]

    -- The loop over the area numbers, for the count of them that is left.
    unfoldable pub read_numbers :
        UamDriver → ℕ → ℕ → List (ℕ × SafetyArea p) → UamDriver × Option (List (ℕ × SafetyArea p))
    unfolding read_types
    read_numbers lidar zero area_number areas = (lidar, some areas)
    read_numbers lidar (suc left) area_number areas =
        let (lidar', area) = read_types lidar area_number area_types [] in
        elim area [
          | none ↦ (lidar', none)
          | some a ↦ read_numbers lidar' left (suc area_number) (insert_key area_number a areas)
        ]

  -- The areas are swapped in once all are read.
  abbrev pub with_areas : UamRos p → UamDriver × Option (List (ℕ × SafetyArea p)) → UamRos p × Bool
  with_areas node (lidar, none) = (record node { lidar = lidar }, false)
  with_areas node (lidar, some cached_areas) =
      (record node { lidar = lidar; safety_areas = cached_areas }, true)

  -- `readSafetyAreas()`: the result is whether there was no exception.
  unfoldable pub read_safety_areas :
      Crc → (ℕ → EyrAreaType → Surroundings) → UamRos p → UamRos p × Bool
  unfolding read_numbers
  read_safety_areas crc around node =
      if is_empty node.safety_areas
      then with_areas node (read_numbers crc around node node.lidar max_safety_area_index 1 [])
      else (node, true)
