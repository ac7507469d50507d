-- ===== src/Node/Lifecycle/Runs.antt =====
-- The runs of the node of urg_node/src/uam/uam_driver_ros.cpp: its constructor, and then callbacks in any order.
use urg_node.Prelude.{
  ◌≡◌, refl, ap, sym, ◌∙◌, subst, arith, true, false, not, none, some, List, [], ◌++◌,
  if◌then◌else◌, if-holds, if-cases,
}
use urg_node.Prelude.Int.{ℤ, pos, ltb_ℤ}
use urg_node.Worker.Crc.{Crc}
use urg_node.Node.{UamRos, Publication}
use urg_node.Node.Library.{NodePlatform}
use urg_node.Node.Resets.{
  ResetCall, lidar_hard_reset, trigger_reconfigure, scan_watchdog_timer_callback,
}
use urg_node.Node.Configure.{ConfigureCall, configure}
use urg_node.Node.Scans.{ScanReply, scan_callback}
use urg_node.Node.Lifecycle.{
  UrgConfig, constructed, configure_timer_callback, dynamic_reconfigure_callback,
}
use urg_node.Node.Lifecycle.Spacing.{
  IsPaced, IsPaced-Quiet, IsPaced-append, IsPaced-lidar_hard_reset, Spaced,
}
use urg_node.Node.Lifecycle.Attempts.{configure-Keeps}
use urg_node.Node.Lifecycle.Scanning.{scan_callback-Lives}

module _ (p : NodePlatform) (crc : Crc) where
  -- A callback that ROS, the timers or the receiver make on a node, and what it leads to. The service of
  -- the status is its request; what it waits for are the scans that follow.
  pub data Step (node : UamRos p) (r : UamRos p × List (Publication p)) : Type 0 where
    watchdog_fired :
        (current_real : p.base.ros.Time) (call : ResetCall p)
        → scan_watchdog_timer_callback p node current_real call ≡ r
        → Step node r
    timer_fired :
        (call : ConfigureCall p)
        → node.timer_running ≡ true
        → configure_timer_callback p crc call node ≡ r
        → Step node r
    reconfigured :
        (now : p.base.ros.Time) (config : UrgConfig p) (level : ℤ)
        → ((dynamic_reconfigure_callback p now node config level).0, []) ≡ r
        → Step node r
    scanned :
        (now : p.base.ros.Time) (reply : ScanReply) (wall_time : p.base.ros.Time)
        → scan_callback p now node reply wall_time ≡ some r
        → Step node r
    status_requested :
        node.configured ≡ true
        → (record node { publish_status_requested = true }, []) ≡ r
        → Step node r

  -- A new node, before the constructor configures it.
  pub record IsNew (node : UamRos p) : Type 0 where
    pub not_configured : node.configured ≡ false
    pub timer_stopped : node.timer_running ≡ false
    pub never_restarted : node.last_restart_time ≡ none

  -- The node after its constructor and some callbacks, with all that it put out.
  pub data Run (interval : p.base.ros.Duration) : UamRos p × List (Publication p) → Type 0 where
    started :
        (r : UamRos p × List (Publication p)) (node : UamRos p) (call : ConfigureCall p)
        → IsNew node
        → node.params.lidar_power_cycle_interval ≡ interval
        → constructed p crc call node ≡ r
        → Run interval r
    stepped :
        (r before after : UamRos p × List (Publication p))
        → Run interval before
        → Step before.0 after
        → (after.0, before.1 ++ after.1) ≡ r
        → Run interval r

  -- The timer runs exactly while the node is not configured.
  abbrev pub IsRetrying : UamRos p → Type 0
  IsRetrying node = node.timer_running ≡ not node.configured

  -- The timer is started if the node is not configured.
  restarted : UamRos p → UamRos p
  restarted node = if not node.configured then record node { timer_running = true } else node

  restarted-IsRetrying :
      (node : UamRos p) → node.timer_running ≡ false → IsRetrying (restarted node)
  unfolding restarted
  restarted-IsRetrying node h = ground arith

  restarted-IsPaced :
      (node middle : UamRos p) (out : List (Publication p))
      → IsPaced p node (middle, out)
      → IsPaced p node (restarted middle, out)
  unfolding restarted
  restarted-IsPaced node middle out h =
      if-holds (λ (m : UamRos p). IsPaced p node (m, out)) (not middle.configured)
        (record middle { timer_running = true }) middle
        (record { interval_eq = h.interval_eq; last_eq = h.last_eq; spaced = h.spaced }) h

  constructed_lem :
      (call : ConfigureCall p) (node : UamRos p)
      → node.timer_running ≡ false
      → let r = constructed p crc call node in IsPaced p node r × IsRetrying r.0
  unfolding constructed restarted
  constructed_lem call node stopped =
      let r = configure p crc call node in
      let (paced, timer) = configure-Keeps p crc call node in
      (restarted-IsPaced node r.0 r.1 paced, restarted-IsRetrying r.0 (timer ∙ stopped))

  timer_lem :
      (call : ConfigureCall p) (node : UamRos p)
      → IsRetrying node
      → let r = configure_timer_callback p crc call node in IsPaced p node r × IsRetrying r.0
  unfolding configure_timer_callback restarted
  timer_lem call node retrying =
      let stopped = record node { timer_running = false } in
      let r = configure p crc call stopped in
      let (paced, timer) = configure-Keeps p crc call stopped in
      if-cases (λ (r : UamRos p × List (Publication p)). IsPaced p node r × IsRetrying r.0)
        (not node.configured) (restarted r.0, r.1) (stopped, [])
        (λ _.
          let all = restarted-IsPaced stopped r.0 r.1 paced in
          (
            record { interval_eq = all.interval_eq; last_eq = all.last_eq; spaced = all.spaced },
            restarted-IsRetrying r.0 timer,
          ))
        (λ configured. (IsPaced-Quiet p node stopped [] refl refl tt, sym configured))

  watchdog_lem :
      (node : UamRos p) (current_real : p.base.ros.Time) (call : ResetCall p)
      → IsRetrying node
      → let r = scan_watchdog_timer_callback p node current_real call in
        IsPaced p node r × IsRetrying r.0
  unfolding scan_watchdog_timer_callback trigger_reconfigure
  watchdog_lem node current_real call retrying =
      let r = lidar_hard_reset p node call in
      let paced = (IsPaced-lidar_hard_reset p node call).0 in
      if-holds (λ (r : UamRos p × List (Publication p)). IsPaced p node r × IsRetrying r.0) _
        (trigger_reconfigure p r.0, r.1) (node, [])
        (
          record {
            interval_eq = paced.interval_eq;
            last_eq = paced.last_eq;
            spaced = paced.spaced;
          },
          refl,
        )
        (IsPaced-Quiet p node node [] refl refl tt, retrying)

  reconfigure_lem :
      (now : p.base.ros.Time) (node : UamRos p) (config : UrgConfig p) (level : ℤ)
      → IsRetrying node
      → let node' = (dynamic_reconfigure_callback p now node config level).0 in
        IsPaced p node (node', []) × IsRetrying node'
  unfolding dynamic_reconfigure_callback
  reconfigure_lem now node config level retrying =
      if-holds (λ (r : UamRos p × UrgConfig p). IsPaced p node (r.0, []) × IsRetrying r.0)
        (ltb_ℤ level (pos 0)) (node, _) _ (IsPaced-Quiet p node node [] refl refl tt, retrying)
        (IsPaced-Quiet p node _ [] refl refl tt, retrying)

  Step_lem :
      (node : UamRos p) (r : UamRos p × List (Publication p))
      → Step node r
      → IsRetrying node
      → IsPaced p node r × IsRetrying r.0
  Step_lem node r (watchdog_fired t call e) retrying =
      subst (λ (r : UamRos p × List (Publication p)). IsPaced p node r × IsRetrying r.0) e
        (watchdog_lem node t call retrying)
  Step_lem node r (timer_fired call running e) retrying =
      subst (λ (r : UamRos p × List (Publication p)). IsPaced p node r × IsRetrying r.0) e
        (timer_lem call node retrying)
  Step_lem node r (reconfigured now config level e) retrying =
      subst (λ (r : UamRos p × List (Publication p)). IsPaced p node r × IsRetrying r.0) e
        (reconfigure_lem now node config level retrying)
  Step_lem node r (scanned now reply wall_time e) retrying =
      let ((paced, timer), configured) = scan_callback-Lives p now node reply wall_time r e in
      (paced, timer ∙ retrying ∙ ap not (sym configured))
  Step_lem node r (status_requested configured e) retrying =
      let asked = record node { publish_status_requested = true } in
      subst (λ (r : UamRos p × List (Publication p)). IsPaced p node r × IsRetrying r.0) e
        (IsPaced-Quiet p node asked [] refl refl tt, retrying)

  -- What holds of every run.
  record Lasting (interval : p.base.ros.Duration) (r : UamRos p × List (Publication p))
      : Type 0 where
    retrying : IsRetrying r.0
    origin : UamRos p
    fresh : origin.last_restart_time ≡ none
    set : origin.params.lidar_power_cycle_interval ≡ interval
    paced : IsPaced p origin r

  Run-Lasting :
      (interval : p.base.ros.Duration) (r : UamRos p × List (Publication p))
      → Run interval r
      → Lasting interval r
  Run-Lasting interval r (started _ node call new set e) =
      let (paced, retrying) = constructed_lem call node new.timer_stopped in
      subst (Lasting interval) e (record {
        retrying = retrying;
        origin = node;
        fresh = new.never_restarted;
        set = set;
        paced = paced;
      })
  Run-Lasting interval r (stepped _ before after run step e) =
      let old = Run-Lasting interval before run in
      let (paced, retrying) = Step_lem before.0 after step old.retrying in
      subst (Lasting interval) e (record {
        retrying = retrying;
        origin = old.origin;
        fresh = old.fresh;
        set = old.set;
        paced = IsPaced-append p old.origin before.0 after.0 before.1 after.1 old.paced paced;
      })

  -- At the end of every run of the node, from its constructor through watchdog, timer,
  -- reconfiguration, scans and requests in any order and whatever they meet, the timer for
  -- another attempt to configure runs just when the node is not configured.
  pub Run-IsRetrying :
      (interval : p.base.ros.Duration) (r : UamRos p × List (Publication p))
      → Run interval r
      → IsRetrying r.0
  Run-IsRetrying interval r run = (Run-Lasting interval r run).retrying

  -- In every run of the node, from its constructor through watchdog, timer, reconfiguration,
  -- scans and requests in any order and whatever they meet, each call of the service that
  -- restarts the sensor is made when more than the power cycle interval lies between the time
  -- taken for the test and the time noted with the call before, if there was one.
  pub Run-Spaced :
      (interval : p.base.ros.Duration) (r : UamRos p × List (Publication p))
      → Run interval r
      → Spaced p interval none r.1
  Run-Spaced interval r run =
      let l = Run-Lasting interval r run in
      subst (λ i. Spaced p i none r.1) l.set
        (subst (λ t. Spaced p l.origin.params.lidar_power_cycle_interval t r.1) l.fresh
          l.paced.spaced)
