-- ===== src/UrgNode/Scanning.antt =====
-- The loop over the scans of `scanThread` in urg_node/src/urg_node_driver.cpp.
use urg_node.Prelude.{
  ℕ, suc, ◌+◌, ◌≤◌, ◌<◌, ◌≡◌, inl, inr, refl, ap, ◌∙◌, subst, arith, Bool, true, false, none, some,
  List, [], ◌∷◌, ◌++◌, sym, Bool-cases, length, length-append, if-holds, if-true, if-false,
}
use urg_node.Prelude.Int.{ℤ, pos, ltb_ℤ}
use urg_node.Codec.Bytes.{Bytes}
use urg_node.Urg.Library.{Platform}
use urg_node.Urg.{UrgCWrapper}
use urg_node.Urg.Scans.{LaserScan, MultiEchoLaserScan, grab_scan, grab_multi_echo_scan}
use urg_node.UrgNode.{UrgNode, Output, scan, echoes, failed, grab, give_up, on_sensor, grab_scans}

past_limit : (n : ℕ) (z : ℤ) (limit : ℕ) → z ≡ pos limit → ltb_ℤ z (pos n) ≡ true → limit < n
past_limit n z limit e h = ground arith

within_limit : (n : ℕ) (z : ℤ) (limit : ℕ) → z ≡ pos limit → ltb_ℤ z (pos n) ≡ false → n ≤ limit
within_limit n z limit e h = ground arith

module _ (p : Platform) (sensor_status : p.lib.Sensor → Bytes) (blank : LaserScan p)
    (blank_echoes : MultiEchoLaserScan p) where
  -- A turn on a sensor publishes a scan or counts an error, and keeps the limit and the sensor.
  record IsTurn (node : UrgNode p) (r : UrgNode p × List (Output p)) : Type 0 where
    counted : length r.1 + r.0.error_count ≡ suc node.error_count
    count_le : r.0.error_count ≤ suc node.error_count
    count_ge : node.error_count ≤ r.0.error_count
    limit : r.0.error_limit ≡ node.error_limit
    sensor : (w : UrgCWrapper p) × (r.0.urg ≡ some w)

  grab-IsTurn :
      (threw : Bool) (node : UrgNode p) (w : UrgCWrapper p)
      → node.urg ≡ some w
      → IsTurn node (grab p sensor_status blank blank_echoes threw node w)
  unfolding grab
  grab-IsTurn threw node w e =
      let (w1, msg, ok) = grab_scan p blank w in
      let (w2, msg2, ok2) = grab_multi_echo_scan p blank_echoes w in
      let shown : (v : UrgCWrapper p) (x : Output p)
          → IsTurn node (record node { urg = some v }, x ∷ []) =
        λ v x. record {
          counted = omega arith;
          count_le = omega arith;
          count_ge = omega arith;
          limit = refl;
          sensor = (v, refl);
        } in
      let missed : (v : UrgCWrapper p) → IsTurn node (failed p sensor_status node v, []) = λ v.
        record {
          counted = omega arith;
          count_le = omega arith;
          count_ge = omega arith;
          limit = refl;
          sensor = (v, refl);
        } in
      if-holds (IsTurn node) threw (record node { error_count = suc node.error_count }, []) _
        (record {
          counted = omega arith;
          count_le = omega arith;
          count_ge = omega arith;
          limit = refl;
          sensor = (w, e);
        })
        (if-holds (IsTurn node) node.publish_multiecho _ _
          (if-holds (IsTurn node) ok2 _ _ (shown w2 (echoes msg2)) (missed w2))
          (if-holds (IsTurn node) ok _ _ (shown w1 (scan msg)) (missed w1)))

  -- How some turns of the loop end, from a count of errors: each of them published a scan or counted an
  -- error, and either the errors are within the limit and the sensor is there, or they are one more than
  -- the limit, and the sensor is given up.
  pub data Ending (limit turns errors : ℕ) (r : UrgNode p × List (Output p)) : Type 0 where
    streaming :
        (w : UrgCWrapper p)
        → r.0.urg ≡ some w
        → r.0.error_count ≤ limit
        → length r.1 + r.0.error_count ≡ turns + errors
        → Ending limit turns errors r
    given_up :
        r.0.urg ≡ none
        → r.0.error_count ≡ suc limit
        → length r.1 + r.0.error_count ≤ turns + errors
        → Ending limit turns errors r

  module _ (threw : Bool) (turns : List Bool) (node : UrgNode p) where
    -- A turn, and the turns after it.
    turn : UrgCWrapper p → UrgNode p × List (Output p)
    turn w =
        let g = grab p sensor_status blank blank_echoes threw node w in
        let r = grab_scans p sensor_status blank blank_echoes turns (give_up p g.0) in
        (r.0, g.1 ++ r.1)

    grab_scans-none :
        node.urg ≡ none
        → grab_scans p sensor_status blank blank_echoes (threw ∷ turns) node ≡ (node, [])
    unfolding grab_scans turn
    grab_scans-none e = ap (λ o. on_sensor (node, []) o turn) e

    grab_scans-some :
        (w : UrgCWrapper p)
        → node.urg ≡ some w
        → grab_scans p sensor_status blank blank_echoes (threw ∷ turns) node ≡ turn w
    unfolding grab_scans turn
    grab_scans-some w e = ap (λ o. on_sensor (node, []) o turn) e

  grab_scans-stopped :
      (turns : List Bool) (node : UrgNode p)
      → node.urg ≡ none
      → grab_scans p sensor_status blank blank_echoes turns node ≡ (node, [])
  unfolding grab_scans
  grab_scans-stopped [] node e = refl
  grab_scans-stopped (threw ∷ turns) node e = grab_scans-none threw turns node e

  -- A turn before an ending.
  Ending-turn :
      (limit turns errors later : ℕ) (last : UrgNode p) (out rest : List (Output p))
      → length out + later ≡ suc errors
      → Ending limit turns later (last, rest)
      → Ending limit (suc turns) errors (last, out ++ rest)
  Ending-turn limit turns errors later last out rest h (streaming w e within counted) =
      streaming w e within (omega (arith, length-append out rest))
  Ending-turn limit turns errors later last out rest h (given_up e past counted) =
      given_up e past (omega (arith, length-append out rest))

  -- If the loop over the scans starts with a sensor and with no more errors than the limit, then
  -- after any turns, with any sensor and any exceptions, either the sensor is still there, the
  -- errors are within the limit, and the scans published and the new errors together are as many
  -- as the turns, or the sensor is given up with just one error more than the limit.
  pub grab_scans-Ending :
      (turns : List Bool) (node : UrgNode p) (w : UrgCWrapper p) (limit : ℕ)
      → node.urg ≡ some w
      → node.error_limit ≡ pos limit
      → node.error_count ≤ limit
      → Ending limit
          (length turns)
          node.error_count
          (grab_scans p sensor_status blank blank_echoes turns node)
  unfolding grab_scans turn
  grab_scans-Ending [] node w limit e l within = streaming w e within refl
  grab_scans-Ending (threw ∷ turns) node w limit e l within =
      let g = grab p sensor_status blank blank_echoes threw node w in
      let t = grab-IsTurn threw node w e in
      let (v, there) = t.sensor in
      let errors = t.counted in
      let loop = grab_scans p sensor_status blank blank_echoes turns in
      let yielded = record g.0 { service_yield = false } in
      let End : UrgNode p → Type 0 =
        λ n. Ending limit (suc (length turns)) node.error_count ((loop n).0, g.1 ++ (loop n).1) in
      let rest : End (give_up p g.0) =
        elim (Bool-cases (ltb_ℤ g.0.error_limit (pos g.0.error_count))) [
          | inl past ↦
              let gone = record yielded { urg = none } in
              let count = past_limit g.0.error_count g.0.error_limit limit (t.limit ∙ l) past in
              subst End (sym (if-true _ gone yielded past)) (
                Ending-turn limit (length turns) node.error_count g.0.error_count (loop gone).0 g.1
                  (loop gone).1 errors
                  (subst (Ending limit (length turns) g.0.error_count)
                    (sym (grab_scans-stopped turns gone refl))
                    (given_up refl (omega (arith, t.count_le)) (omega arith))))
          | inr fine ↦
              let count = within_limit g.0.error_count g.0.error_limit limit (t.limit ∙ l) fine in
              subst End (sym (if-false _ (record yielded { urg = none }) yielded fine)) (
                Ending-turn limit (length turns) node.error_count g.0.error_count (loop yielded).0
                  g.1 (loop yielded).1 errors
                  (grab_scans-Ending turns yielded v limit there (t.limit ∙ l) count))
        ] in
      subst (Ending limit (suc (length turns)) node.error_count)
        (sym (grab_scans-some threw turns node w e)) rest
