-- ===== src/UrgNode/Reconfiguring.antt =====
-- What `reconfigure_callback` of urg_node/src/urg_node_driver.cpp leaves of a sensor that has to stop for it.
use urg_node.Prelude.{
  ◌≡◌, refl, ap, sym, ◌∙◌, subst, arith, Bool, true, false, some, if-true, if-false, if-cases,
}
use urg_node.Prelude.Int.{ℤ, pos, ◌<ℤ◌, ltb_ℤ}
use urg_node.Urg.Library.{Platform}
use urg_node.Urg.{UrgCWrapper, start, stop, set_frame_id, set_user_latency, set_range_offset}
use urg_node.UrgNode.{
  UrgNode, UrgNodeConfig, reconfigured, set_limits, reconfigure_sensor, reconfigure_callback,
  on_sensor,
}

module _ (p : Platform) where
  start-started : (w : UrgCWrapper p) → (start p w).1 ≡ true → (start p w).0.started ≡ true
  unfolding start
  start-started w h = ground arith

  -- After a success the sensor is started, with the frame, the latency and the offset of the
  -- configuration; after a failure the node has shut down.
  pub record IsReconfigured (node : UrgNode p) (config : UrgNodeConfig p) : Type 0 where
    pub sensor : UrgCWrapper p
    pub connected : node.urg ≡ some sensor
    pub running : sensor.started ≡ true
    pub framed : sensor.frame_id ≡ config.frame_id
    pub offset : sensor.range_offset ≡ config.range_offset
    pub latency : sensor.user_latency ≡ p.ros.duration_from_sec config.time_offset

  abbrev pub Outcome : UrgNodeConfig p → UrgNode p × Bool → Type 0
  Outcome config (node, true) = IsReconfigured node config
  Outcome config (node, false) = node.has_shut_down ≡ true

  reconfigured-Outcome :
      (node : UrgNode p) (config : UrgNodeConfig p) (w : UrgCWrapper p)
      → w.started ≡ true
      → Outcome config (reconfigured p node config w)
  unfolding set_frame_id set_user_latency set_range_offset
  reconfigured-Outcome node config w running = record {
    sensor =
        set_range_offset p config.range_offset
          (set_user_latency p config.time_offset (set_frame_id p config.frame_id w));
    connected = refl;
    running = running;
    framed = refl;
    offset = refl;
    latency = refl;
  }

  -- On a sensor, with a level above 0, `reconfigure_callback` either reports success and leaves a
  -- started sensor with the frame, the latency and the offset of the configuration, or reports a
  -- failure and has the node shut down.
  pub reconfigure_callback-Outcome :
      (node : UrgNode p) (config : UrgNodeConfig p) (level : ℤ) (w : UrgCWrapper p)
      → node.urg ≡ some w
      → pos 0 <ℤ level
      → Outcome config (reconfigure_callback p node config level)
  unfolding reconfigure_callback reconfigure_sensor
  reconfigure_callback-Outcome node config level w e up =
      let s = start p (set_limits p config (stop p w)) in
      let whole = ap (λ o. on_sensor (node, false) o (reconfigure_sensor p node config level)) e in
      let not_below : ltb_ℤ level (pos 0) ≡ false = ground arith in
      let above : ltb_ℤ (pos 0) level ≡ true = ground arith in
      subst (Outcome config) (sym (whole ∙ if-false _ _ _ not_below ∙ if-true _ _ _ above)) (
        if-cases (Outcome config) s.1 (reconfigured p node config s.0) _
          (λ ok. reconfigured-Outcome node config s.0 (start-started _ ok)) (λ _. refl))
