-- ===== src/Node/Configure.antt =====
-- `configure` and `updateReconfigureLimits` of urg_node/src/uam/uam_driver_ros.cpp, as a chain of steps that
-- ends at the first exception. What the calls of the sensor meet comes from outside.
pub mod Outcome
use urg_node.Prelude.{
  ℕ, ◌+◌, ◌%◌, ◌^◌, Bool, true, false, not, ◌&&◌, Option, none, some, List, [], ◌∷◌, ◌++◌, ltb,
  if◌then◌else◌,
}
use urg_node.Prelude.Int.{ℤ, pos, ltb_ℤ}
use urg_node.Protocol.Area.{EyrAreaType}
use urg_node.Protocol.Sensing.{SensingDataHeader}
use urg_node.Worker.Crc.{Crc}
use urg_node.Tcp.{Address, Attempt, connect, disconnect}
use urg_node.Driver.{UamDriver, Surroundings, start_streaming}
use urg_node.Driver.Requests.{
  PpSurroundings, get_scan_details, get_version_details, get_sensor_status,
}
use urg_node.Scan.{ScanParameters, set_angle_limits}
use urg_node.Node.{UamRos, ReconfigureLimits, Publication, restart_call}
use urg_node.Node.Library.{NodePlatform}
use urg_node.Node.Params.{UamRosParams, to_unsigned}
use urg_node.Node.Status.{update_status}
use urg_node.Node.Areas.{read_safety_areas}
use urg_node.Node.Resets.{Progress, then_step, ResetCall, lidar_hard_reset, disconnected}

-- What `configure` meets, in the order of its calls. `fresh` is what the new struct of the status holds.
pub record ConfigureCall (p : NodePlatform) : Type 0 where
  pub address : Address
  pub attempt : Attempt
  pub option_set : Bool
  pub details : PpSurroundings
  pub version : Surroundings
  pub areas : ℕ → EyrAreaType → Surroundings
  pub fresh : SensingDataHeader
  pub unsubscribe : Surroundings
  pub status : Surroundings
  pub now : p.base.ros.Time
  pub subscribe : Surroundings
  pub reset : ResetCall p

module _ (p : NodePlatform) where
  -- `updateReconfigureLimits()`.
  unfoldable pub update_reconfigure_limits : UamRos p → UamRos p
  update_reconfigure_limits node = record node {
    limits = record {
      min_angle_min = node.scan_params.angle_min_limit;
      min_angle_max = node.scan_params.angle_min_limit;
      max_angle_min = node.scan_params.angle_max_limit;
      max_angle_max = node.scan_params.angle_max_limit;
    };
  }

  -- The steps of the `try` block, each with one call of the sensor.
  unfoldable pub connect_step : ConfigureCall p → UamRos p → Progress p
  connect_step call node =
      let (client, ok) = connect node.lidar.client call.address call.attempt call.option_set in
      (record node { lidar = record node.lidar { client = client } }, [], ok)

  -- The scan details, with the angles and the limits.
  abbrev pub with_details : UamRos p → Option (ScanParameters p.base.double) → Progress p
  with_details node none = (node, [], false)
  with_details node (some details) = (
    update_reconfigure_limits (record node {
      scan_params =
          set_angle_limits p.base.double details node.params.angle_min node.params.angle_max;
    }),
    [],
    true,
  )

  unfoldable pub details_step : ConfigureCall p → UamRos p → Progress p
  unfolding update_reconfigure_limits
  details_step call node =
      with_details node (get_scan_details p.base.double node.lidar call.details)

  unfoldable pub version_step : Crc → ConfigureCall p → UamRos p → Progress p
  version_step crc call node =
      let (lidar, version) = get_version_details crc call.version node.lidar in
      (record node { lidar = lidar }, [], elim version [ none ↦ false | some _ ↦ true ])

  unfoldable pub areas_step : Crc → ConfigureCall p → UamRos p → Progress p
  areas_step crc call node =
      let (node', ok) = read_safety_areas p crc call.areas node in (node', [], ok)

  -- The status, which is published in any case.
  abbrev pub with_status : UamRos p → Option SensingDataHeader → Progress p
  with_status node none = (node, [], false)
  with_status node (some status) = let r = update_status p node status true in (r.0, r.1, true)

  unfoldable pub status_step : Crc → ConfigureCall p → UamRos p → Progress p
  status_step crc call node =
      let (lidar, status) =
        get_sensor_status crc call.fresh call.unsubscribe call.status node.lidar in
      with_status (record node { lidar = lidar }) status

  -- From the deadline of the scans to discard to the start of the stream.
  unfoldable pub streaming_step : Crc → ConfigureCall p → UamRos p → Progress p
  streaming_step crc call node =
      let r = p.base.double in
      let discard = node.params.discard_startup_data_s in
      let (lidar, ok) =
        start_streaming crc call.subscribe node.lidar node.params.use_intensity
          node.params.use_multi_echo in
      (
        record node {
          configured_stamp = call.now;
          discard_data_until =
              if r.less (r.literal 0 1) discard
              then p.base.ros.time_plus call.now (p.base.ros.duration_from_sec discard)
              else p.zero_time;
          lidar = lidar;
        },
        [],
        ok,
      )

  -- The `try` block.
  unfoldable pub attempt : Crc → ConfigureCall p → UamRos p → Progress p
  unfolding connect_step details_step version_step areas_step status_step streaming_step
  attempt crc call node =
      then_step p
        (then_step p
          (then_step p
            (then_step p (then_step p (connect_step call node) (details_step call))
              (version_step crc call))
            (areas_step crc call))
          (status_step crc call))
        (streaming_step crc call)

  -- The `catch` block.
  unfoldable pub recover : ConfigureCall p → UamRos p → UamRos p × List (Publication p)
  unfolding lidar_hard_reset
  recover call node =
      let attempts = (node.configure_attempts + 1) % 2 ^ 32 in
      let failed = record (disconnected p node) { configure_attempts = attempts } in
      let r = lidar_hard_reset p failed call.reset in
      if ltb (to_unsigned node.params.configure_attempts) attempts
      then (
        record r.0 { configure_attempts = if r.2 then 0 else attempts; configured = false },
        r.1,
      )
      else (record failed { configured = false }, [])

  -- The end of `configure`.
  abbrev pub configure_end : ConfigureCall p → Progress p → UamRos p × List (Publication p)
  configure_end call (node, out, true) =
      (record node { configure_attempts = 0; configured = true }, out)
  configure_end call (node, out, false) = let r = recover call node in (r.0, out ++ r.1)

  -- `configure()`, whose result is `configured`.
  unfoldable pub configure : Crc → ConfigureCall p → UamRos p → UamRos p × List (Publication p)
  unfolding attempt recover
  configure crc call node = configure_end call (attempt crc call node)
