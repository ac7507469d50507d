-- ===== src/Node/Lifecycle/Attempts.antt =====
-- What `configure` of urg_node/src/uam/uam_driver_ros.cpp does to the timer and to the restarts of the sensor.
use urg_node.Prelude.{
  ℕ, ◌≡◌, refl, ap, ◌∙◌, Bool, true, false, Option, none, some, List, [], ◌++◌, if◌then◌else◌,
  if-holds, All, ltb, ◌%◌, ◌^◌, ◌+◌,
}
use urg_node.Protocol.Sensing.{SensingDataHeader}
use urg_node.Protocol.Replies.{max_safety_area_index}
use urg_node.Worker.Crc.{Crc}
use urg_node.Driver.{UamDriver}
use urg_node.Driver.Requests.{get_scan_details, get_sensor_status}
use urg_node.Scan.{ScanParameters}
use urg_node.Node.{UamRos, SafetyArea, Publication}
use urg_node.Node.Library.{NodePlatform}
use urg_node.Node.Params.{UamRosParams, to_unsigned}
use urg_node.Node.Status.{update_status}
use urg_node.Node.Status.Updates.{update_status-All, update_status-life}
use urg_node.Node.Areas.{read_safety_areas, with_areas, is_empty, read_numbers}
use urg_node.Node.Resets.{Progress, then_step, lidar_hard_reset, disconnected}
use urg_node.Node.Configure.{
  ConfigureCall, connect_step, details_step, with_details, with_status, version_step, areas_step,
  status_step, streaming_step, attempt, recover, configure_end, configure,
  update_reconfigure_limits,
}
use urg_node.Node.Lifecycle.Spacing.{
  Quiet, IsPaced, IsPaced-append, IsPaced-Quiet, IsPaced-lidar_hard_reset,
}

module _ (p : NodePlatform) where
  -- A step is paced and leaves the timer alone.
  abbrev pub Keeps : UamRos p → UamRos p × List (Publication p) → Type 0
  Keeps node r = IsPaced p node r × (r.0.timer_running ≡ node.timer_running)

  pub Keeps-append :
      (node middle last : UamRos p) (xs ys : List (Publication p))
      → Keeps node (middle, xs)
      → Keeps middle (last, ys)
      → Keeps node (last, xs ++ ys)
  Keeps-append node middle last xs ys h h' =
      (IsPaced-append p node middle last xs ys h.0 h'.0, h'.1 ∙ h.1)

  -- The members that only the reset and the timer are about, and the configuration, stay the same.
  abbrev pub Same : UamRos p → UamRos p → Type 0
  Same node node' =
      (node'.params ≡ node.params)
      × (node'.last_restart_time ≡ node.last_restart_time)
      × (node'.timer_running ≡ node.timer_running)

  pub Keeps-Same :
      (node node' : UamRos p) (out : List (Publication p))
      → Same node node'
      → All (Quiet p) out
      → Keeps node (node', out)
  Keeps-Same node node' out (e, e', t) quiet =
      (IsPaced-Quiet p node node' out (ap (λ q. q.lidar_power_cycle_interval) e) e' quiet, t)

  StepKeeps : (UamRos p → Progress p) → Type 0
  StepKeeps step = (node : UamRos p) → Keeps node ((step node).0, (step node).1)

  then_step-Keeps :
      (node : UamRos p) (r : Progress p) (step : UamRos p → Progress p)
      → Keeps node (r.0, r.1)
      → StepKeeps step
      → let q = then_step p r step in Keeps node (q.0, q.1)
  unfolding StepKeeps
  then_step-Keeps node (middle, out, false) step h keeps = h
  then_step-Keeps node (middle, out, true) step h keeps =
      Keeps-append node middle (step middle).0 out (step middle).1 h (keeps middle)

  connect_step-Keeps : (call : ConfigureCall p) → StepKeeps (connect_step p call)
  unfolding StepKeeps connect_step
  connect_step-Keeps call node =
      Keeps-Same node (connect_step p call node).0 [] (refl, refl, refl) tt

  with_details-Keeps :
      (node : UamRos p) (o : Option (ScanParameters p.base.double))
      → let r = with_details p node o in Keeps node (r.0, r.1)
  unfolding update_reconfigure_limits
  with_details-Keeps node none = Keeps-Same node node [] (refl, refl, refl) tt
  with_details-Keeps node (some d) =
      Keeps-Same node (with_details p node (some d)).0 [] (refl, refl, refl) tt

  details_step-Keeps : (call : ConfigureCall p) → StepKeeps (details_step p call)
  unfolding StepKeeps details_step
  details_step-Keeps call node =
      with_details-Keeps node (get_scan_details p.base.double node.lidar call.details)

  version_step-Keeps : (crc : Crc) (call : ConfigureCall p) → StepKeeps (version_step p crc call)
  unfolding StepKeeps version_step
  version_step-Keeps crc call node =
      Keeps-Same node (version_step p crc call node).0 [] (refl, refl, refl) tt

  with_areas-Same :
      (node : UamRos p) (r : UamDriver × Option (List (ℕ × SafetyArea p)))
      → Same node (with_areas p node r).0
  with_areas-Same node (lidar, none) = (refl, refl, refl)
  with_areas-Same node (lidar, some areas) = (refl, refl, refl)

  areas_step-Keeps : (crc : Crc) (call : ConfigureCall p) → StepKeeps (areas_step p crc call)
  unfolding StepKeeps areas_step read_safety_areas
  areas_step-Keeps crc call node =
      let read = read_numbers p crc call.areas node node.lidar max_safety_area_index 1 [] in
      Keeps-Same node (areas_step p crc call node).0 []
        (if-holds (λ (r : UamRos p × Bool). Same node r.0) (is_empty node.safety_areas)
          (with_areas p node read) (node, true) (with_areas-Same node read) (refl, refl, refl))
        tt

  pub update_status-Keeps :
      (node : UamRos p) (sensing_data : SensingDataHeader) (b : Bool)
      → Keeps node (update_status p node sensing_data b)
  update_status-Keeps node sensing_data b =
      let r = update_status p node sensing_data b in
      let same = update_status-life p node sensing_data b in
      Keeps-Same node r.0 r.1 (same.0, same.1, same.2)
        (update_status-All p (Quiet p) (λ m i t. (tt, refl)) (λ m i t. (tt, refl))
          (λ t s i u. (tt, refl)) node sensing_data b)

  with_status-Keeps :
      (node node' : UamRos p) (o : Option SensingDataHeader)
      → Keeps node (node', [])
      → let r = with_status p node' o in Keeps node (r.0, r.1)
  with_status-Keeps node node' none h = h
  with_status-Keeps node node' (some status) h =
      let r = update_status p node' status true in
      Keeps-append node node' r.0 [] r.1 h (update_status-Keeps node' status true)

  status_step-Keeps : (crc : Crc) (call : ConfigureCall p) → StepKeeps (status_step p crc call)
  unfolding StepKeeps status_step
  status_step-Keeps crc call node =
      let answer = get_sensor_status crc call.fresh call.unsubscribe call.status node.lidar in
      let node' = record node { lidar = answer.0 } in
      with_status-Keeps node node' answer.1 (Keeps-Same node node' [] (refl, refl, refl) tt)

  streaming_step-Keeps :
      (crc : Crc) (call : ConfigureCall p) → StepKeeps (streaming_step p crc call)
  unfolding StepKeeps streaming_step
  streaming_step-Keeps crc call node =
      Keeps-Same node (streaming_step p crc call node).0 [] (refl, refl, refl) tt

  pub attempt-Keeps :
      (crc : Crc) (call : ConfigureCall p) (node : UamRos p)
      → let r = attempt p crc call node in Keeps node (r.0, r.1)
  unfolding attempt StepKeeps
  attempt-Keeps crc call node =
      let r1 = connect_step p call node in
      let r2 = then_step p r1 (details_step p call) in
      let r3 = then_step p r2 (version_step p crc call) in
      let r4 = then_step p r3 (areas_step p crc call) in
      let r5 = then_step p r4 (status_step p crc call) in
      let k2 =
        then_step-Keeps node r1 (details_step p call) (connect_step-Keeps call node)
          (details_step-Keeps call) in
      let k3 = then_step-Keeps node r2 (version_step p crc call) k2 (version_step-Keeps crc call) in
      let k4 = then_step-Keeps node r3 (areas_step p crc call) k3 (areas_step-Keeps crc call) in
      let k5 = then_step-Keeps node r4 (status_step p crc call) k4 (status_step-Keeps crc call) in
      then_step-Keeps node r5 (streaming_step p crc call) k5 (streaming_step-Keeps crc call)

  -- What is neither about the restarts nor about the timer may change besides.
  pub Keeps-besides :
      (node node' node'' : UamRos p) (out : List (Publication p))
      → Keeps node (node', out)
      → Same node' node''
      → Keeps node (node'', out)
  Keeps-besides node node' node'' out (paced, timer) (e, e', t) = (
    record {
      interval_eq = ap (λ (q : UamRosParams p). q.lidar_power_cycle_interval) e ∙ paced.interval_eq;
      last_eq = e' ∙ paced.last_eq;
      spaced = paced.spaced;
    },
    t ∙ timer,
  )

  pub recover-Keeps :
      (call : ConfigureCall p) (node : UamRos p)
      → Keeps node (recover p call node) × ((recover p call node).0.configured ≡ false)
  unfolding recover
  recover-Keeps call node =
      let attempts = (node.configure_attempts + 1) % 2 ^ 32 in
      let failed = record (disconnected p node) { configure_attempts = attempts } in
      let r = lidar_hard_reset p failed call.reset in
      let (paced, timer, _) = IsPaced-lidar_hard_reset p failed call.reset in
      let start = Keeps-Same node failed [] (refl, refl, refl) tt in
      let reset = record r.0 {
        configure_attempts = if r.2 then 0 else attempts;
        configured = false;
      } in
      let all = Keeps-append node failed r.0 [] r.1 start (paced, timer) in
      if-holds (λ (r : UamRos p × List (Publication p)). Keeps node r × (r.0.configured ≡ false))
        (ltb (to_unsigned node.params.configure_attempts) attempts) (reset, r.1)
        (record failed { configured = false }, [])
        (Keeps-besides node r.0 reset r.1 all (refl, refl, refl), refl)
        (
          Keeps-besides node failed (record failed { configured = false }) [] start
              (refl, refl, refl),
          refl,
        )

  configure_end-Keeps :
      (call : ConfigureCall p) (node : UamRos p) (r : Progress p)
      → Keeps node (r.0, r.1)
      → Keeps node (configure_end p call r)
  configure_end-Keeps call node (node', out, true) h =
      Keeps-besides node node' _ out h (refl, refl, refl)
  configure_end-Keeps call node (node', out, false) h =
      Keeps-append node node' (recover p call node').0 out (recover p call node').1 h
        (recover-Keeps call node').0

  pub configure-Keeps :
      (crc : Crc) (call : ConfigureCall p) (node : UamRos p)
      → Keeps node (configure p crc call node)
  unfolding configure
  configure-Keeps crc call node =
      configure_end-Keeps call node (attempt p crc call node) (attempt-Keeps crc call node)
