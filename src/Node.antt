-- ===== src/Node.antt =====
-- `UamROS` of urg_node/include/uam/uam_driver_ros.h and urg_node/src/uam/uam_driver_ros.cpp: the state of the
-- node of a UAM sensor, and what it publishes. `Node.Status`, `Node.Areas`, `Node.Scans`, `Node.Points`
-- and `Node.Lifecycle` hold its operations, `Node.Params` its parameters.
pub mod Library
pub mod Params
pub mod Status
pub mod Areas
pub mod Points
pub mod Scans
pub mod Resets
pub mod Configure
pub mod Lifecycle
use urg_node.Prelude.{ℕ, Bool, true, false, Option, none, some, List, []}
use urg_node.Codec.Bytes.{Bytes}
use urg_node.Protocol.Area.{EyrAreaType}
use urg_node.Protocol.Sensing.{SensingDataHeader}
use urg_node.Driver.{UamDriver}
use urg_node.Scan.{ScanParameters}
use urg_node.Urg.Scans.{LaserScan}
use urg_node.Node.Library.{NodePlatform}
use urg_node.Node.Params.{UamRosParams}

-- `urg_node_msgs::Status`.
pub record StatusMessage : Type 0 where
  pub operating_mode : ℕ
  pub area_number : ℕ
  pub error_status : ℕ
  pub error_code : ℕ
  pub lockout_status : ℕ
  pub ossd1_state : ℕ
  pub ossd2_state : ℕ
  pub warning1_state : ℕ
  pub warning2_state : ℕ
  pub optical_window_contaminated : ℕ

module _ (p : NodePlatform) where
  -- `ScanWithCRC`, and `SafetyArea` by the codes of the area types.
  abbrev pub ScanWithCrc : Type 0
  ScanWithCrc = ℕ × LaserScan p.base

  abbrev pub SafetyArea : Type 0
  SafetyArea = List (ℕ × ScanWithCrc)

-- The two tables of `LaserScanCachedLookup`.
pub record LaserScanCachedLookup (p : NodePlatform) : Type 0 where
  pub sin_lookup : List p.base.float.Real
  pub cos_lookup : List p.base.float.Real

-- The limits of `urg_node::URGConfig` that the node sets.
pub record ReconfigureLimits (p : NodePlatform) : Type 0 where
  pub min_angle_min : p.base.double.Real
  pub min_angle_max : p.base.double.Real
  pub max_angle_min : p.base.double.Real
  pub max_angle_max : p.base.double.Real

-- What the publishers of the node publish, each by its topic. A marker is the end points of its rays, which
-- all begin at the origin; a point of the cloud has x and y. The last one is no topic: it is the call of the
-- service that restarts the sensor, with the two times that `lidarHardReset` takes before it.
pub data Publication (p : NodePlatform) : Type 0 where
  status_on_request status_on_update : StatusMessage → Publication p
  area_scan : EyrAreaType → LaserScan p.base → Publication p
  laser_scan : LaserScan p.base → Publication p
  markers : p.base.ros.Time → List (p.base.double.Real × p.base.double.Real) → Publication p
  cloud : p.base.ros.Time → List (p.base.float.Real × p.base.float.Real) → Publication p
  restart_call : p.base.ros.Time → p.base.ros.Time → Publication p

-- `timer_running` is the state of `configure_timer_`, and `lut` that of the static variable of
-- `publishPointsInArea`.
pub record UamRos (p : NodePlatform) : Type 0 where
  pub configured : Bool
  pub configure_attempts : ℕ
  pub lidar : UamDriver
  pub safety_areas : List (ℕ × SafetyArea p)
  pub params : UamRosParams p
  pub params_changed : Bool
  pub scan_stamp : p.base.ros.Time
  pub configured_stamp : p.base.ros.Time
  pub discard_data_until : p.base.ros.Time
  pub timer_running : Bool
  pub limits : ReconfigureLimits p
  pub scan_params : ScanParameters p.base.double
  pub last_restart_time : Option p.base.ros.Time
  pub last_received_status : SensingDataHeader
  pub publish_status_requested : Bool
  pub lut : Option (LaserScanCachedLookup p)
