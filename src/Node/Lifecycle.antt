-- ===== src/Node/Lifecycle.antt =====
-- The constructor of `UamROS`, `configureTimerCallback` and `dynamicReconfigureCallback` of
-- urg_node/src/uam/uam_driver_ros.cpp.
pub mod Spacing
pub mod Attempts
pub mod Scanning
pub mod Runs
use urg_node.Prelude.{
  ℕ, ◌+◌, ◌%◌, ◌^◌, Bool, true, false, not, ◌&&◌, Option, none, some, List, [], ◌∷◌, ◌++◌, ltb,
  if◌then◌else◌,
}
use urg_node.Prelude.Int.{ℤ, pos, ltb_ℤ}
use urg_node.Protocol.Area.{EyrAreaType}
use urg_node.Protocol.Sensing.{SensingDataHeader}
use urg_node.Worker.Crc.{Crc}
use urg_node.Tcp.{Address, Attempt, connect, disconnect}
use urg_node.Driver.{UamDriver, Surroundings, start_streaming}
use urg_node.Driver.Requests.{
  PpSurroundings, get_scan_details, get_version_details, get_sensor_status,
}
use urg_node.Scan.{ScanParameters, set_angle_limits}
use urg_node.Node.{UamRos, ReconfigureLimits, Publication, restart_call}
use urg_node.Node.Library.{NodePlatform}
use urg_node.Node.Params.{UamRosParams, to_unsigned}
use urg_node.Node.Status.{update_status}
use urg_node.Node.Areas.{read_safety_areas}
use urg_node.Node.Configure.{ConfigureCall, configure}

-- The fields of `urg_node::URGConfig` that the node reads and writes.
pub record UrgConfig (p : NodePlatform) : Type 0 where
  pub angle_min : p.base.double.Real
  pub angle_max : p.base.double.Real
  pub time_offset : p.base.double.Real
  pub range_offset : p.base.double.Real
  pub discard_startup_data_s : p.base.double.Real

module _ (p : NodePlatform) where
  -- The last lines of the constructor, on what it makes of the members before.
  unfoldable pub constructed : Crc → ConfigureCall p → UamRos p → UamRos p × List (Publication p)
  unfolding configure
  constructed crc call node =
      let (node', out) = configure p crc call node in
      (if not node'.configured then record node' { timer_running = true } else node', out)

  -- `configureTimerCallback(event)`.
  unfoldable pub configure_timer_callback :
      Crc → ConfigureCall p → UamRos p → UamRos p × List (Publication p)
  unfolding configure
  configure_timer_callback crc call node =
      let stopped = record node { timer_running = false } in
      let (node', out) = configure p crc call stopped in
      if not stopped.configured
      then (if not node'.configured then record node' { timer_running = true } else node', out)
      else (stopped, [])

  -- `dynamicReconfigureCallback(config, level)`.
  unfoldable pub dynamic_reconfigure_callback :
      p.base.ros.Time → UamRos p → UrgConfig p → ℤ → UamRos p × UrgConfig p
  dynamic_reconfigure_callback now node config level =
      let q = node.params in
      if ltb_ℤ level (pos 0)
      then (
        node,
        record {
          angle_min = q.angle_min;
          angle_max = q.angle_max;
          time_offset = p.base.ros.duration_to_sec q.time_offset;
          range_offset = q.range_offset;
          discard_startup_data_s = q.discard_startup_data_s;
        },
      )
      else (
        record node {
          params = record q {
            angle_min = config.angle_min;
            angle_max = config.angle_max;
            time_offset = p.base.ros.duration_from_sec config.time_offset;
            range_offset = config.range_offset;
            discard_startup_data_s = config.discard_startup_data_s;
          };
          discard_data_until =
              if p.differs q.discard_startup_data_s config.discard_startup_data_s
              then p.base.ros.time_plus now
                  (p.base.ros.duration_from_sec config.discard_startup_data_s)
              else node.discard_data_until;
          params_changed = true;
        },
        config,
      )
