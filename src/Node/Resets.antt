-- ===== src/Node/Resets.antt =====
-- How `UamROS` of urg_node/src/uam/uam_driver_ros.cpp starts over: `lidarHardReset`, `triggerReconfigure` and
-- `scanWatchdogTimerCallback`. What a call meets comes from outside.
use urg_node.Prelude.{Bool, true, false, ◌&&◌, none, some, List, [], ◌∷◌, ◌++◌, if◌then◌else◌}
use urg_node.Tcp.{disconnect}
use urg_node.Node.{UamRos, Publication, restart_call}
use urg_node.Node.Library.{NodePlatform}

-- How the call of the service that restarts the sensor ends.
pub data ResetAnswer : Type 0 where
  reset_done reset_refused not_called reset_threw : ResetAnswer

-- What `lidarHardReset` meets: the times of its two readings of the clock, and the answer of the service.
pub record ResetCall (p : NodePlatform) : Type 0 where
  pub checked : p.base.ros.Time
  pub stamped : p.base.ros.Time
  pub answer : ResetAnswer

module _ (p : NodePlatform) where
  -- What a step leaves and puts out, and whether there was no exception.
  abbrev pub Progress : Type 0
  Progress = UamRos p × List (Publication p) × Bool

  -- The next step, unless an exception is on its way.
  abbrev pub then_step : Progress → (UamRos p → Progress) → Progress
  then_step (node, out, false) next = (node, out, false)
  then_step (node, out, true) next = let r = next node in (r.0, out ++ r.1, r.2)

  -- `lidarHardReset()`.
  unfoldable pub lidar_hard_reset : UamRos p → ResetCall p → Progress
  lidar_hard_reset node call =
      let is_due : Bool = elim node.last_restart_time [
        | none ↦ true
        | some last ↦
            p.base.ros.duration_less node.params.lidar_power_cycle_interval
              (p.base.ros.time_diff call.checked last)
      ] in
      if is_due
      then (
        record node { last_restart_time = some call.stamped },
        restart_call call.checked call.stamped ∷ [],
        elim call.answer [ reset_done ↦ true | _ ↦ false ],
      )
      else (node, [], false)

  abbrev pub disconnected : UamRos p → UamRos p
  disconnected node = record node {
    lidar = record node.lidar { client = disconnect node.lidar.client };
  }

  -- `triggerReconfigure()`.
  unfoldable pub trigger_reconfigure : UamRos p → UamRos p
  trigger_reconfigure node = record (disconnected node) { configured = false; timer_running = true }

  -- `std::max` of two times.
  abbrev pub later : p.base.ros.Time → p.base.ros.Time → p.base.ros.Time
  later a b = if p.time_less a b then b else a

  -- `scanWatchdogTimerCallback(event)`.
  unfoldable pub scan_watchdog_timer_callback :
      UamRos p → p.base.ros.Time → ResetCall p → UamRos p × List (Publication p)
  unfolding lidar_hard_reset trigger_reconfigure
  scan_watchdog_timer_callback node current_real call =
      let elapsed_time =
        p.base.ros.time_diff current_real (later node.configured_stamp node.scan_stamp) in
      let r = lidar_hard_reset node call in
      if node.configured && p.base.ros.duration_less node.params.scan_timeout elapsed_time
      then (trigger_reconfigure r.0, r.1)
      else (node, [])
