-- ===== src/Node/Lifecycle/Spacing.antt =====
-- The spacing of the calls, by the node of urg_node/src/uam/uam_driver_ros.cpp, of the service that restarts
-- the sensor.
use urg_node.Prelude.{
  ◌≡◌, refl, ap, sym, ◌∙◌, subst, Bool, true, false, Option, none, some, List, [], ◌∷◌, ◌++◌,
  if-cases, All,
}
use urg_node.Node.{UamRos, Publication, restart_call}
use urg_node.Node.Library.{NodePlatform}
use urg_node.Node.Resets.{Progress, ResetCall, lidar_hard_reset}

module _ (p : NodePlatform) where
  -- A restart of the sensor may follow the last one.
  abbrev pub IsDue : p.base.ros.Duration → Option p.base.ros.Time → p.base.ros.Time → Type 0
  IsDue interval none checked = Unit
  IsDue interval (some last) checked =
      p.base.ros.duration_less interval (p.base.ros.time_diff checked last) ≡ true

  -- The time of the last restart after something is put out, and whether it may be put out.
  abbrev pub last_with : Option p.base.ros.Time → Publication p → Option p.base.ros.Time
  last_with last (restart_call checked stamped) = some stamped
  last_with last publication = last

  abbrev pub IsDueAt : p.base.ros.Duration → Option p.base.ros.Time → Publication p → Type 0
  IsDueAt interval last (restart_call checked stamped) = IsDue interval last checked
  IsDueAt interval last publication = Unit

  -- Every restart in what is put out is due, with the time of the last restart before.
  abbrev pub Spaced : p.base.ros.Duration → Option p.base.ros.Time → List (Publication p) → Type 0
  Spaced interval last [] = Unit
  Spaced interval last (x ∷ out) = IsDueAt interval last x × Spaced interval (last_with last x) out

  abbrev pub last_after : Option p.base.ros.Time → List (Publication p) → Option p.base.ros.Time
  last_after last [] = last
  last_after last (x ∷ out) = last_after (last_with last x) out

  -- No restart.
  abbrev pub Quiet : Publication p → Type 0
  Quiet x =
      (interval : p.base.ros.Duration) (last : Option p.base.ros.Time)
      → IsDueAt interval last x × (last_with last x ≡ last)

  last_after-Quiet :
      (last : Option p.base.ros.Time) (out : List (Publication p))
      → All Quiet out
      → last_after last out ≡ last
  last_after-Quiet last [] h = refl
  last_after-Quiet last (x ∷ out) h =
      last_after-Quiet (last_with last x) out h.1 ∙ (h.0 p.base.ros.no_time last).1

  Spaced-Quiet :
      (interval : p.base.ros.Duration) (last : Option p.base.ros.Time) (out : List (Publication p))
      → All Quiet out
      → Spaced interval last out
  Spaced-Quiet interval last [] h = tt
  Spaced-Quiet interval last (x ∷ out) h =
      ((h.0 interval last).0, Spaced-Quiet interval (last_with last x) out h.1)

  last_after-append :
      (last : Option p.base.ros.Time) (xs ys : List (Publication p))
      → last_after last (xs ++ ys) ≡ last_after (last_after last xs) ys
  last_after-append last [] ys = refl
  last_after-append last (x ∷ xs) ys = last_after-append (last_with last x) xs ys

  Spaced-append :
      (interval : p.base.ros.Duration) (last : Option p.base.ros.Time)
      (xs ys : List (Publication p))
      → Spaced interval last xs
      → Spaced interval (last_after last xs) ys
      → Spaced interval last (xs ++ ys)
  Spaced-append interval last [] ys hx hy = hy
  Spaced-append interval last (x ∷ xs) ys hx hy =
      (hx.0, Spaced-append interval (last_with last x) xs ys hx.1 hy)

  -- A step keeps the interval between restarts, the time of the last one, and the spacing.
  pub record IsPaced (node : UamRos p) (r : UamRos p × List (Publication p)) : Type 0 where
    pub interval_eq : r.0.params.lidar_power_cycle_interval ≡ node.params.lidar_power_cycle_interval
    pub last_eq : r.0.last_restart_time ≡ last_after node.last_restart_time r.1
    pub spaced : Spaced node.params.lidar_power_cycle_interval node.last_restart_time r.1

  pub IsPaced-append :
      (node middle last : UamRos p) (xs ys : List (Publication p))
      → IsPaced node (middle, xs)
      → IsPaced middle (last, ys)
      → IsPaced node (last, xs ++ ys)
  IsPaced-append node middle last xs ys h h' =
      let spaced' = subst (λ i. Spaced i middle.last_restart_time ys) h.interval_eq h'.spaced in
      record {
        interval_eq = h'.interval_eq ∙ h.interval_eq;
        last_eq =
            h'.last_eq
            ∙ ap (λ t. last_after t ys) h.last_eq
            ∙ sym (last_after-append node.last_restart_time xs ys);
        spaced =
            Spaced-append node.params.lidar_power_cycle_interval node.last_restart_time xs ys
              h.spaced
              (subst (λ t. Spaced node.params.lidar_power_cycle_interval t ys) h.last_eq spaced');
      }

  -- A step that keeps the interval and the last restart, without a restart.
  pub IsPaced-Quiet :
      (node node' : UamRos p) (out : List (Publication p))
      → node'.params.lidar_power_cycle_interval ≡ node.params.lidar_power_cycle_interval
      → node'.last_restart_time ≡ node.last_restart_time
      → All Quiet out
      → IsPaced node (node', out)
  IsPaced-Quiet node node' out same same' quiet = record {
    interval_eq = same;
    last_eq = same' ∙ sym (last_after-Quiet node.last_restart_time out quiet);
    spaced = Spaced-Quiet node.params.lidar_power_cycle_interval node.last_restart_time out quiet;
  }

  pub IsPaced-lidar_hard_reset :
      (node : UamRos p) (call : ResetCall p)
      → let r = lidar_hard_reset p node call in
        IsPaced node (r.0, r.1)
        × (r.0.timer_running ≡ node.timer_running)
        × (r.0.configured ≡ node.configured)
  unfolding lidar_hard_reset
  IsPaced-lidar_hard_reset node call =
      let due : Option p.base.ros.Time → Bool = λ o. elim o [
        | none ↦ true
        | some last ↦
            p.base.ros.duration_less node.params.lidar_power_cycle_interval
              (p.base.ros.time_diff call.checked last)
      ] in
      if-cases
        (λ (r : Progress p).
          IsPaced node (r.0, r.1)
          × (r.0.timer_running ≡ node.timer_running)
          × (r.0.configured ≡ node.configured))
        (due node.last_restart_time) _ (node, [], false)
        (λ h. (
          record {
            interval_eq = refl;
            last_eq = refl;
            spaced = (due_lem node.last_restart_time h, tt);
          },
          refl,
          refl,
        ))
        (λ _. (IsPaced-Quiet node node [] refl refl tt, refl, refl))
    where
      due_lem :
          (o : Option p.base.ros.Time)
          → (elim o [
            | none ↦ true
            | some last ↦
                p.base.ros.duration_less node.params.lidar_power_cycle_interval
                  (p.base.ros.time_diff call.checked last)
          ])
            ≡ true
          → IsDue node.params.lidar_power_cycle_interval o call.checked
      due_lem none h = tt
      due_lem (some last) h = h
