-- ===== src/Node/Lifecycle/Scanning.antt =====
-- A scan, as `scanCallback` of urg_node/include/uam/uam_driver_ros.h handles it, and the life of the node.
use urg_node.Prelude.{
  ◌≡◌, refl, ◌∙◌, subst, false, not, Option, some, List, [], ◌∷◌, ◌++◌, if◌then◌else◌, if-holds,
  if-cases, ◌>>=◌, >>=-eq-some, some-injective, leb, ◌==◌, length,
}
use urg_node.Node.{UamRos, Publication, laser_scan}
use urg_node.Node.Library.{NodePlatform}
use urg_node.Node.Status.{update_status}
use urg_node.Node.Status.Updates.{update_status-life}
use urg_node.Node.Points.{to_size, points_of, cached_lut, publish_points_in_area, IndexedRange}
use urg_node.Node.Scans.{
  ScanReply, collect_ranges, reference_area, scan_message, publish_scan, apply_params,
  scan_callback,
}
use urg_node.Node.Lifecycle.Attempts.{Keeps, Same, Keeps-Same, Keeps-append, update_status-Keeps}

module _ (p : NodePlatform) where
  -- The node is as configured as it was, nothing restarts, and the timer is left alone.
  abbrev pub Lives : UamRos p → UamRos p × List (Publication p) → Type 0
  Lives node r = Keeps p node r × (r.0.configured ≡ node.configured)

  publish_points-Lives :
      (node : UamRos p) (points : List (IndexedRange p)) (stamp : p.base.ros.Time)
      (r : UamRos p × List (Publication p))
      → publish_points_in_area p node points stamp ≡ some r
      → Lives node r
  unfolding publish_points_in_area
  publish_points-Lives node points stamp r e =
      let (pts, _, e1) = >>=-eq-some (points_of p (cached_lut p node) points) _ e in
      let cached = record node { lut = some (cached_lut p node) } in
      subst (Lives node) (some-injective e1) (
        Keeps-Same p node cached _ (refl, refl, refl)
            ((λ i t. (tt, refl)), ((λ i t. (tt, refl)), tt)),
        refl,
      )

  publish_scan-Lives :
      (node : UamRos p) (reply : ScanReply) (wall_time : p.base.ros.Time)
      (r : UamRos p × List (Publication p))
      → publish_scan p node reply wall_time ≡ some r
      → Lives node r
  unfolding publish_scan
  publish_scan-Lives node reply wall_time r e =
      let s = node.scan_params in
      let area = reference_area p node reply.sensing_data.area_number in
      let (c, e1, e2) =
        >>=-eq-some
          (collect_ranges p (to_size s.first_step) (to_size s.last_step) node.params.range_offset
            area 0 reply.ranges)
          _ e in
      let msg = scan_message p node wall_time reply c.ranges in
      let points = publish_points_in_area p node c.ranges_in_safety_area msg.header.stamp in
      if-cases (λ (o : Option (UamRos p × List (Publication p))). o ≡ some r → Lives node r)
        (not c.any_finite_ranges) (some (node, []))
        (points >>= λ q. some (q.0, laser_scan msg ∷ q.1))
        (λ _ h.
          subst (Lives node) (some-injective h)
            (Keeps-Same p node node [] (refl, refl, refl) tt, refl))
        (λ _ h.
          let (q, h1, h2) = >>=-eq-some points _ h in
          let lives = publish_points-Lives node c.ranges_in_safety_area msg.header.stamp q h1 in
          let scan =
            Keeps-Same p node node (laser_scan msg ∷ []) (refl, refl, refl)
              ((λ i t. (tt, refl)), tt) in
          subst (Lives node) (some-injective h2)
            (Keeps-append p node node q.0 (laser_scan msg ∷ []) q.1 scan lives.0, lives.1))
        e2

  prepared-Same :
      (node : UamRos p) (now : p.base.ros.Time)
      → let node' = apply_params p (record node { scan_stamp = now }) in
        Same p node node' × (node'.configured ≡ node.configured)
  unfolding apply_params
  prepared-Same node now =
      if-holds (λ (m : UamRos p). Same p node m × (m.configured ≡ node.configured))
        node.params_changed _ (record node { scan_stamp = now }) ((refl, refl, refl), refl)
        ((refl, refl, refl), refl)

  -- Whatever a scan leads to, the node lives on as it did.
  pub scan_callback-Lives :
      (now : p.base.ros.Time) (node : UamRos p) (reply : ScanReply) (wall_time : p.base.ros.Time)
      (r : UamRos p × List (Publication p))
      → scan_callback p now node reply wall_time ≡ some r
      → Lives node r
  unfolding scan_callback
  scan_callback-Lives now node reply wall_time r e =
      let seen = record node { scan_stamp = now } in
      let prepared = apply_params p seen in
      let u = update_status p prepared reply.sensing_data false in
      let (same, configured) = prepared-Same node now in
      let start = Keeps-Same p node prepared [] same tt in
      let updated =
        Keeps-append p node prepared u.0 [] u.1 start
          (update_status-Keeps p prepared reply.sensing_data false) in
      let (_, _, _, still, _) = update_status-life p prepared reply.sensing_data false in
      let P : Option (UamRos p × List (Publication p)) → Type 0 = λ o. o ≡ some r → Lives node r in
      let quiet : P (some u) =
        λ h. subst (Lives node) (some-injective h) (updated, still ∙ configured) in
      let publish = publish_scan p u.0 reply wall_time in
      let whole = publish >>= λ q. some (q.0, u.1 ++ q.1) in
      let rest =
        if leb (length reply.ranges) (to_size u.0.scan_params.last_step) then some u else whole in
      if-holds P _ (some (seen, [])) _
        (λ h.
          subst (Lives node) (some-injective h)
            (Keeps-Same p node seen [] (refl, refl, refl) tt, refl))
        (if-holds P (not (reply.sensing_data.lockout_state == 0)) (some u) rest quiet (
          if-holds P (leb (length reply.ranges) (to_size u.0.scan_params.last_step)) (some u) whole
            quiet
            (λ h.
              let (q, h1, h2) = >>=-eq-some publish _ h in
              let lives = publish_scan-Lives u.0 reply wall_time q h1 in
              subst (Lives node) (some-injective h2) (
                Keeps-append p node u.0 q.0 u.1 q.1 updated lives.0,
                lives.1 ∙ still ∙ configured,
              ))))
        e
