-- ===== src/UrgNode.antt =====
-- `UrgNode` of urg_node/include/urg_node/urg_node_driver.h and urg_node/src/urg_node_driver.cpp: the node of a
-- sensor that the C library drives. What the library answers about its status, a new message and the
-- memory of a command come from outside.
pub mod Names
pub mod Diagnostics
pub mod Scanning
pub mod Reconfiguring
use urg_node.Prelude.{
  ℕ, suc, ◌+◌, Bool, true, false, not, ◌||◌, ◌&&◌, Option, none, some, List, [], ◌∷◌, ◌++◌, ltb,
  ◌==◌, if◌then◌else◌,
}
use urg_node.Prelude.Int.{ℤ, pos, ltb_ℤ, ◌+ℤ◌}
use urg_node.Codec.Bytes.{Bytes}
use urg_node.Protocol.Replies.{Ar00CommandReply}
use urg_node.Protocol.Sensing.{SensingDataHeader}
use urg_node.Worker.Crc.{Crc}
use urg_node.Worker.Base.{Locals}
use urg_node.Urg.Library.{Platform}
use urg_node.Urg.{
  UrgCWrapper, start, stop, set_frame_id, set_user_latency, set_range_offset, set_skip,
}
use urg_node.Urg.Limits.{
  set_angle_limits_and_cluster, get_angle_min_limit, get_angle_max_limit, get_scan_period,
}
use urg_node.Urg.Latency.{compute_latency}
use urg_node.Urg.Command.{get_ar00_status}
use urg_node.Urg.Scans.{LaserScan, MultiEchoLaserScan, grab_scan, grab_multi_echo_scan}
use urg_node.Node.{StatusMessage}
use urg_node.Node.Status.{status_message}

-- The members that change while the node runs, and the parameters that its operations read. A null pointer
-- is `none`.
pub record UrgNode (p : Platform) : Type 0 where
  pub urg : Option (UrgCWrapper p)
  pub status_str : Bytes
  pub detailed_status : SensingDataHeader
  pub error_count : ℕ
  pub freq_min : p.double.Real
  pub service_yield : Bool
  pub has_shut_down : Bool
  pub error_limit : ℤ
  pub publish_multiecho : Bool
  pub get_detailed_status : Bool

-- What the node publishes.
pub data Output (p : Platform) : Type 0 where
  status : StatusMessage → Output p
  scan : LaserScan p → Output p
  echoes : MultiEchoLaserScan p → Output p

-- The fields of `urg_node::URGConfig` that the node reads, with the frame that `tf::resolve` makes.
pub record UrgNodeConfig (p : Platform) : Type 0 where
  pub angle_min : p.double.Real
  pub angle_max : p.double.Real
  pub cluster : ℤ
  pub skip : ℤ
  pub frame_id : Bytes
  pub time_offset : p.double.Real
  pub range_offset : p.float.Real

-- The memory of `getAR00Status`: the fuel of its loops, and what it finds where nothing was written.
pub record Memory : Type 0 where
  pub fuel : ℕ
  pub fresh : ℕ → Bytes
  pub crc : Crc
  pub locals : Locals
  pub uninit : Ar00CommandReply

-- What is done where a pointer may be null.
abbrev pub on_sensor {ℓ κ} : {A : Type ℓ} {B : Type κ} → B → Option A → (A → B) → B
on_sensor missing none f = missing
on_sensor missing (some a) f = f a

module _ (p : Platform) where
  -- The answer to `getAR00Status`, with the sensor that gave it.
  unfoldable pub with_ar00 :
      UrgNode p
      → Option (UrgCWrapper p × Option (Bool × SensingDataHeader))
      → Option (UrgNode p × List (Output p) × Bool)
  with_ar00 node none = none
  with_ar00 node (some (w, none)) = none
  with_ar00 node (some (w, some (false, detailed))) =
      some (record node { urg = some w; detailed_status = detailed }, [], false)
  with_ar00 node (some (w, some (true, detailed))) = some (
    record node { urg = some w; detailed_status = detailed },
    status (status_message detailed) ∷ [],
    true,
  )

  -- `updateStatus()`; `none` is an exception, or a loop that does not end.
  unfoldable pub update_status :
      (p.lib.Sensor → Bytes) → Memory → UrgNode p → Option (UrgNode p × List (Output p) × Bool)
  unfolding with_ar00
  update_status sensor_status memory node =
      let yielding = record node { service_yield = true } in
      elim node.urg [
        | none ↦ some (yielding, [], false)
        | some w ↦
            let known = record yielding { status_str = sensor_status w.urg } in
            if node.get_detailed_status
            then with_ar00 known (
                get_ar00_status p memory.fuel memory.fresh memory.crc memory.locals memory.uninit
                  node.detailed_status w)
            else some (known, [], false)
      ]

  -- The lines of `reconfigure_callback` behind its branches.
  abbrev pub reconfigured : UrgNode p → UrgNodeConfig p → UrgCWrapper p → UrgNode p × Bool
  reconfigured node config w =
      let r = p.double in
      let framed = set_frame_id p config.frame_id w in
      let delayed = set_user_latency p config.time_offset framed in
      (
        record node {
          urg = some (set_range_offset p config.range_offset delayed);
          freq_min =
              r.over (r.literal 10 1)
                (r.times (get_scan_period p w) (r.of_int (config.skip +ℤ pos 1)));
        },
        true,
      )

  abbrev pub set_limits : UrgNodeConfig p → UrgCWrapper p → UrgCWrapper p
  set_limits config w =
      set_skip p config.skip
        (set_angle_limits_and_cluster p config.angle_min config.angle_max config.cluster w).0

  -- `reconfigure_callback(config, level)` on a sensor.
  unfoldable pub reconfigure_sensor :
      UrgNode p → UrgNodeConfig p → ℤ → UrgCWrapper p → UrgNode p × Bool
  reconfigure_sensor node config level w =
      let (restarted, ok) = start p (set_limits config (stop p w)) in
      if ltb_ℤ level (pos 0)
      then reconfigured node config (set_limits config w)
      else if ltb_ℤ (pos 0) level
      then (if ok
          then reconfigured node config restarted
          else (record node { urg = some restarted; has_shut_down = true }, false))
      else reconfigured node config w

  unfoldable pub reconfigure_callback : UrgNode p → UrgNodeConfig p → ℤ → UrgNode p × Bool
  unfolding reconfigure_sensor
  reconfigure_callback node config level =
      on_sensor (node, false) node.urg (reconfigure_sensor node config level)

  -- `calibrate_time_offset()`.
  unfoldable pub calibrate_time_offset : UrgNode p → UrgNode p
  calibrate_time_offset node = elim node.urg [
    | none ↦ node
    | some w ↦
        let (w', latency) = compute_latency p 10 w in
        let measured = record node { urg = some w' } in
        elim latency [ none ↦ record measured { has_shut_down = true } | some _ ↦ measured ]
  ]

  -- The start of the sensor in `scanThread`, with the status of the sensor: what is returned is whether the
  -- thread goes on to the loop over the scans.
  unfoldable pub start_urg : (p.lib.Sensor → Bytes) → UrgNode p → UrgNode p × Bool
  start_urg sensor_status node =
      on_sensor (node, false) node.urg
        (λ w.
          let (w', ok) = start p w in
          let known = record node { status_str = sensor_status w.urg } in
          if ok
          then (record known { urg = some w'; error_count = 0 }, true)
          else (record known { urg = none }, false))

  -- A scan that could not be grabbed.
  abbrev pub failed : (p.lib.Sensor → Bytes) → UrgNode p → UrgCWrapper p → UrgNode p
  failed sensor_status node w = record node {
    urg = some w;
    status_str = sensor_status w.urg;
    error_count = suc node.error_count;
  }

  -- The `try` of the loop over the scans, on a sensor: `threw` is whether there is an exception before
  -- the sensor is asked, as from the mutex.
  unfoldable pub grab :
      (p.lib.Sensor → Bytes)
      → LaserScan p
      → MultiEchoLaserScan p
      → Bool
      → UrgNode p
      → UrgCWrapper p
      → UrgNode p × List (Output p)
  grab sensor_status blank blank_echoes threw node w =
      let (w1, msg, ok) = grab_scan p blank w in
      let (w2, msg2, ok2) = grab_multi_echo_scan p blank_echoes w in
      if threw
      then (record node { error_count = suc node.error_count }, [])
      else if node.publish_multiecho
      then (if ok2
          then (record node { urg = some w2 }, echoes msg2 ∷ [])
          else (failed sensor_status node w2, []))
      else if ok
      then (record node { urg = some w1 }, scan msg ∷ [])
      else (failed sensor_status node w1, [])

  -- The lines behind it: the thread yields, and gives the sensor up after too many errors.
  unfoldable pub give_up : UrgNode p → UrgNode p
  give_up node =
      let yielded = record node { service_yield = false } in
      if ltb_ℤ node.error_limit (pos node.error_count)
      then record yielded { urg = none }
      else yielded

  -- The loop over the scans, for as many turns as there are elements: it ends where the sensor is given up.
  unfoldable pub grab_scans :
      (p.lib.Sensor → Bytes)
      → LaserScan p
      → MultiEchoLaserScan p
      → List Bool
      → UrgNode p
      → UrgNode p × List (Output p)
  unfolding grab give_up
  grab_scans sensor_status blank blank_echoes [] node = (node, [])
  grab_scans sensor_status blank blank_echoes (threw ∷ turns) node =
      on_sensor (node, []) node.urg
        (λ w.
          let (grabbed, out) = grab sensor_status blank blank_echoes threw node w in
          let (last, rest) = grab_scans sensor_status blank blank_echoes turns (give_up grabbed) in
          (last, out ++ rest))
