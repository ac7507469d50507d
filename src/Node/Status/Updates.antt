-- ===== src/Node/Status/Updates.antt =====
-- What `updateStatus` of urg_node/src/uam/uam_driver_ros.cpp publishes and keeps.
use urg_node.Prelude.{
  ℕ, ◌≡◌, arith, Bool, true, false, not, ◌||◌, List, [], ◌∷◌, if◌then◌else◌, if-holds, All,
  All-append, some, none,
}
use urg_node.Protocol.Sensing.{SensingDataHeader}
use urg_node.Prelude.Maps.{find_key}
use urg_node.Protocol.Area.{EyrAreaType, area_type_code}
use urg_node.Urg.Scans.{LaserScan}
use urg_node.Node.{
  SafetyArea, StatusMessage, UamRos, Publication, status_on_request, status_on_update, area_scan,
}
use urg_node.Node.Library.{NodePlatform}
use urg_node.Node.Status.{
  publish_types, area_types, equal_status, status_message, publish_safety_area, update_status,
}

equal_status_refl : (s : SensingDataHeader) → equal_status s s ≡ true
unfolding equal_status
equal_status_refl s = ground arith

module _ (p : NodePlatform) where
  -- What holds of every status and every area holds of all that is published.
  module _ (P : Publication p → Type 0) (request : (m : StatusMessage) → P (status_on_request m))
      (update : (m : StatusMessage) → P (status_on_update m))
      (area : (t : EyrAreaType) (s : LaserScan p.base) → P (area_scan t s)) where
    publish_types-All :
        (a : SafetyArea p) (types : List EyrAreaType) → All P (publish_types p a types)
    unfolding publish_types
    publish_types-All a [] = tt
    publish_types-All a (t ∷ types) =
        let rest = publish_types-All a types in
        elim (find_key (area_type_code t) a)
          as (λ found. All P (elim found [
            | none ↦ publish_types p a types
            | some (crc, scan) ↦ area_scan t scan ∷ publish_types p a types
          ])) [ none ↦ rest | some (crc, scan) ↦ (area t scan, rest) ]

    publish_safety_area-All : (node : UamRos p) (n : ℕ) → All P (publish_safety_area p node n)
    unfolding publish_safety_area
    publish_safety_area-All node n =
        elim (find_key n node.safety_areas)
          as (λ found. All P (elim found [ none ↦ [] | some a ↦ publish_types p a area_types ])) [
            | none ↦ tt
            | some a ↦ publish_types-All a area_types
          ]

    pub update_status-All :
        (node : UamRos p) (sensing_data : SensingDataHeader) (override_check : Bool)
        → All P (update_status p node sensing_data override_check).1
    unfolding update_status
    update_status-All node sensing_data override_check =
        let areas = publish_safety_area p node sensing_data.area_number in
        let all = publish_safety_area-All node sensing_data.area_number in
        let msg = status_message sensing_data in
        let on_request = override_check || node.publish_status_requested in
        let on_update =
          override_check || not (equal_status node.last_received_status sensing_data) in
        let requested = if on_request then status_on_request msg ∷ areas else [] in
        let updated = if on_update then status_on_update msg ∷ areas else [] in
        let both =
          All-append P requested updated
            (if-holds (All P) on_request (status_on_request msg ∷ areas) [] (request msg, all) tt)
            (if-holds (All P) on_update (status_on_update msg ∷ areas) [] (update msg, all) tt) in
        if-holds (λ (r : UamRos p × List (Publication p)). All P r.1) (on_request || on_update) _
          (node, []) both tt

  -- A status leaves the parameters of a scan alone.
  pub update_status-keeps :
      (node : UamRos p) (sensing_data : SensingDataHeader) (override_check : Bool)
      → let node' = (update_status p node sensing_data override_check).0 in
        (node'.scan_params ≡ node.scan_params)
        × (node'.params ≡ node.params)
        × (node'.safety_areas ≡ node.safety_areas)
        × (node'.lut ≡ node.lut)
  unfolding update_status
  update_status-keeps node sensing_data override_check = ground arith

  -- Nor does it touch what the reset and the timer are about.
  pub update_status-life :
      (node : UamRos p) (sensing_data : SensingDataHeader) (override_check : Bool)
      → let node' = (update_status p node sensing_data override_check).0 in
        (node'.params ≡ node.params)
        × (node'.last_restart_time ≡ node.last_restart_time)
        × (node'.timer_running ≡ node.timer_running)
        × (node'.configured ≡ node.configured)
        × (node'.lidar ≡ node.lidar)
  unfolding update_status
  update_status-life node sensing_data override_check = ground arith

  -- After `updateStatus` of any status, with or without an override, a second one of the same
  -- status without an override changes nothing and publishes nothing.
  pub update_status-again :
      (node : UamRos p) (sensing_data : SensingDataHeader) (override_check : Bool)
      → let node' = (update_status p node sensing_data override_check).0 in
        update_status p node' sensing_data false ≡ (node', [])
  unfolding update_status
  update_status-again node sensing_data override_check =
      let same = equal_status_refl sensing_data in ground arith
