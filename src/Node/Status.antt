-- ===== src/Node/Status.antt =====
-- The status of `UamROS`: `updateStatus`, `publishSafetyArea` and the service `statusCallback` of
-- urg_node/src/uam/uam_driver_ros.cpp.
pub mod Updates
pub mod Waiting
use urg_node.Prelude.{
  ℕ, zero, suc, Bool, true, false, not, ◌&&◌, ◌||◌, Option, none, some, List, [], ◌∷◌, ◌++◌, ◌==◌,
  if◌then◌else◌,
}
use urg_node.Prelude.Maps.{find_key}
use urg_node.Protocol.Area.{
  EyrAreaType, protection_1, protection_2, warning_1, warning_2, muting_1, muting_2,
  reference_center, reference_max, reference_min, area_type_code,
}
use urg_node.Protocol.Sensing.{SensingDataHeader}
use urg_node.Node.{
  UamRos, StatusMessage, SafetyArea, Publication, status_on_request, status_on_update, area_scan,
}
use urg_node.Node.Library.{NodePlatform}

-- The area types from `protection_1` to below `MAX`.
abbrev pub area_types : List EyrAreaType
area_types =
    protection_1 ∷ protection_2 ∷ warning_1 ∷ warning_2 ∷ muting_1 ∷ muting_2 ∷ reference_center
    ∷ reference_max ∷ reference_min ∷ []

-- The comparison of the members that the status is about.
unfoldable pub equal_status : SensingDataHeader → SensingDataHeader → Bool
equal_status lhs rhs =
    (lhs.area_number == rhs.area_number)
    && (lhs.error_code == rhs.error_code)
    && (lhs.error_state == rhs.error_state)
    && (lhs.lockout_state == rhs.lockout_state)
    && (lhs.operating_mode == rhs.operating_mode)
    && (lhs.optical_window_contaminated == rhs.optical_window_contaminated)
    && (lhs.ossd1_state == rhs.ossd1_state)
    && (lhs.ossd2_state == rhs.ossd2_state)
    && (lhs.warning1_state == rhs.warning1_state)
    && (lhs.warning2_state == rhs.warning2_state)

unfoldable pub status_message : SensingDataHeader → StatusMessage
status_message sensing_data = record {
  operating_mode = sensing_data.operating_mode;
  area_number = sensing_data.area_number;
  error_status = sensing_data.error_state;
  error_code = sensing_data.error_code;
  lockout_status = sensing_data.lockout_state;
  ossd1_state = sensing_data.ossd1_state;
  ossd2_state = sensing_data.ossd2_state;
  warning1_state = sensing_data.warning1_state;
  warning2_state = sensing_data.warning2_state;
  optical_window_contaminated = sensing_data.optical_window_contaminated;
}

-- `scan_cycles_timeout * 2`.
abbrev pub half_scan_cycles_timeout : ℕ
half_scan_cycles_timeout = 4

module _ (p : NodePlatform) where
  -- The loop over the area types.
  unfoldable pub publish_types : SafetyArea p → List EyrAreaType → List (Publication p)
  publish_types area [] = []
  publish_types area (area_type ∷ types) =
      let rest = publish_types area types in
      elim (find_key (area_type_code area_type) area) [
        | none ↦ rest
        | some (crc, scan) ↦ area_scan area_type scan ∷ rest
      ]

  -- `publishSafetyArea(area_number)`.
  unfoldable pub publish_safety_area : UamRos p → ℕ → List (Publication p)
  unfolding publish_types
  publish_safety_area node area_number = elim (find_key area_number node.safety_areas) [
    | none ↦ []
    | some area ↦ publish_types area area_types
  ]

  -- `updateStatus(sensing_data, override_check)`.
  unfoldable pub update_status :
      UamRos p → SensingDataHeader → Bool → UamRos p × List (Publication p)
  unfolding equal_status status_message publish_safety_area
  update_status node sensing_data override_check =
      let on_request_status = override_check || node.publish_status_requested in
      let on_update_status =
        override_check || not (equal_status node.last_received_status sensing_data) in
      let msg = status_message sensing_data in
      let areas = publish_safety_area node sensing_data.area_number in
      if on_request_status || on_update_status
      then (
        record node {
          last_received_status = sensing_data;
          publish_status_requested =
              if on_request_status then false else node.publish_status_requested;
        },
        (if on_request_status then status_on_request msg ∷ areas else [])
            ++ (if on_update_status then status_on_update msg ∷ areas else []),
      )
      else (node, [])

  -- The loop of `statusCallback`, for the half cycles that are left: `handled` is what the receiver does
  -- to the node while the service sleeps, by the number of the half cycle. The result has the count of
  -- the half cycles waited.
  unfoldable pub wait_for_status :
      (ℕ → UamRos p → UamRos p) → (ℕ → Bool) → UamRos p → ℕ → ℕ → UamRos p × ℕ
  wait_for_status handled ros_ok node zero cycles_waited = (node, cycles_waited)
  wait_for_status handled ros_ok node (suc left) cycles_waited =
      let rest =
        wait_for_status handled ros_ok (handled cycles_waited node) left (suc cycles_waited) in
      if ros_ok cycles_waited && node.publish_status_requested then rest else (node, cycles_waited)

  -- `statusCallback(req, res)`: the result is `res.success`.
  unfoldable pub status_callback :
      (ℕ → UamRos p → UamRos p) → (ℕ → Bool) → UamRos p → UamRos p × Bool
  unfolding wait_for_status
  status_callback handled ros_ok node =
      let (waited, cycles) =
        wait_for_status handled ros_ok (record node { publish_status_requested = true })
          half_scan_cycles_timeout 0 in
      if not node.configured then (node, false) else (waited, not waited.publish_status_requested)
