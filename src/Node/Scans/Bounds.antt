-- ===== src/Node/Scans/Bounds.antt =====
-- When `scanCallback` of urg_node/include/uam/uam_driver_ros.h reads within its arrays, and then publishes.
use urg_node.Prelude.{
  ℕ, suc, ◌+◌, ◌-◌, ◌≤◌, ◌<◌, ◌≡◌, refl, ap, ◌∙◌, arith, Bool, true, false, not, ◌&&◌, Option, none,
  some, List, [], ◌∷◌, ◌++◌, map, length, take, drop, leb, ◌==◌, if◌then◌else◌, if-holds, if-false,
  ◌>>=◌, >>=-some, >>=-none, All, get_elem?, get_elem?-some, get_elem?-none,
}
use urg_node.Urg.Scans.{LaserScan}
use urg_node.Node.{UamRos, Publication, laser_scan}
use urg_node.Node.Library.{NodePlatform}
use urg_node.Node.Status.{update_status}
use urg_node.Node.Points.{to_size, IndexedRange, publish_points_in_area, points_of, cached_lut}
use urg_node.Node.Points.Bounds.{Covers, points_of-Covers}
use urg_node.Node.Scans.{
  Collected, ScanReply, range_in_meters, is_in_area, collect, collect_ranges, reference_area,
  scan_message, publish_scan, apply_params, scan_callback,
}
use urg_node.Node.Scans.Published.{window-zero}
use urg_node.Node.Scans.Window.{has_number, collect_ranges-window}

locked_false : (n : ℕ) → n ≡ 0 → not (n == 0) ≡ false
locked_false n h = ground arith

leb-false : (a b : ℕ) → b < a → leb a b ≡ false
leb-false a b h = ground arith

module _ (p : NodePlatform) where
  -- The area, where there is one, has that many ranges.
  abbrev pub AreaCovers : Option (LaserScan p.base) → ℕ → Type 0
  AreaCovers none n = Unit
  AreaCovers (some area) n = n ≤ length area.ranges

  is_in_area-some :
      (area : Option (LaserScan p.base)) (idx : ℕ) (range_m : p.base.float.Real)
      → AreaCovers area (suc idx)
      → (b : Bool) × (is_in_area p area idx range_m ≡ some b)
  unfolding is_in_area
  is_in_area-some none idx range_m h = (false, refl)
  is_in_area-some (some area) idx range_m h =
      let (safety, e) = get_elem?-some area.ranges idx (omega arith) in
      let b = not (p.is_nan safety) && p.at_most range_m safety in
      inside (p.is_nan range_m) b (>>=-some (get_elem? area.ranges idx) _ e)
    where
      inside :
          (nan : Bool) (b : Bool) {m : Option Bool}
          → m ≡ some b
          → (c : Bool) × ((if nan then some false else m) ≡ some c)
      inside true b e = (false, refl)
      inside false b e = (b, e)

  AreaCovers-less :
      (area : Option (LaserScan p.base)) (m n : ℕ) → m ≤ n → AreaCovers area n → AreaCovers area m
  AreaCovers-less none m n le h = tt
  AreaCovers-less (some area) m n le h = omega arith

  -- The indices that the loop keeps are below the count of the ranges.
  abbrev Below : ℕ → List (IndexedRange p) → Type 0
  Below n points = All (λ (r : IndexedRange p). r.0 < n) points

  Below-collect :
      (first last idx n : ℕ) (range_m : p.base.float.Real) (in_area : Bool) (rest : Collected p)
      → idx < n
      → Below n rest.ranges_in_safety_area
      → Below n (collect p first last idx range_m in_area rest).ranges_in_safety_area
  unfolding collect
  Below-collect first last idx n range_m true rest h below = (h, below)
  Below-collect first last idx n range_m false rest h below = below

  -- The loop ends, with indices below the count of the ranges, if the area is as long as they are.
  pub collect_ranges-some :
      (first last : ℕ) (offset : p.base.double.Real) (area : Option (LaserScan p.base)) (idx n : ℕ)
      (ranges : List ℕ)
      → idx + length ranges ≡ n
      → AreaCovers area n
      → (c : Collected p) × (collect_ranges p first last offset area idx ranges ≡ some c)
        × Below n c.ranges_in_safety_area
  unfolding collect_ranges
  collect_ranges-some first last offset area idx n [] e covers = (_, refl, tt)
  collect_ranges-some first last offset area idx n (range ∷ ranges) e covers =
      let range_m = range_in_meters p offset range in
      let (b, e1) =
        is_in_area-some area idx range_m (AreaCovers-less area (suc idx) n (omega arith) covers) in
      let (rest, e2, below) =
        collect_ranges-some first last offset area (suc idx) n ranges (omega arith) covers in
      (
        collect p first last idx range_m b rest,
        >>=-some (is_in_area p area idx range_m) _ e1
            ∙ >>=-some (collect_ranges p first last offset area (suc idx) ranges) _ e2,
        Below-collect first last idx n range_m b rest (omega arith) below,
      )

  -- A distance past the end of the area, if it is a number, is undefined behaviour.
  pub is_in_area-none :
      (area : LaserScan p.base) (idx : ℕ) (range_m : p.base.float.Real)
      → p.is_nan range_m ≡ false
      → length area.ranges ≤ idx
      → is_in_area p (some area) idx range_m ≡ none
  unfolding is_in_area
  is_in_area-none area idx range_m number h =
      if-false _ _ _ number
      ∙ >>=-none (get_elem? area.ranges idx) _ (get_elem?-none area.ranges idx h)

  -- The node once the callback has taken over the limits and the status of a reply, with the statuses.
  abbrev pub updated : p.base.ros.Time → UamRos p → ScanReply → UamRos p × List (Publication p)
  updated now node reply =
      update_status p (apply_params p (record node { scan_stamp = now })) reply.sensing_data false

  -- The distances of a reply from the first step to the last, in meters.
  abbrev pub shown_ranges : UamRos p → ScanReply → List p.base.float.Real
  shown_ranges node reply = map (range_in_meters p node.params.range_offset) (
      take (suc (to_size node.scan_params.last_step) - to_size node.scan_params.first_step)
        (drop (to_size node.scan_params.first_step) reply.ranges))

  module _ (node : UamRos p) (reply : ScanReply) (wall_time : p.base.ros.Time)
      (area_covers : AreaCovers
        (reference_area p node reply.sensing_data.area_number)
        (length reply.ranges))
      (lut_covers : Covers p (cached_lut p node) (length reply.ranges)) where
    -- What the loop collects, and what the points of the area make of it.
    record Complete : Type 0 where
      c : Collected p
      pts : List (p.base.double.Real × p.base.double.Real)
      collected :
          collect_ranges p
            (to_size node.scan_params.first_step)
            (to_size node.scan_params.last_step)
            node.params.range_offset
            (reference_area p node reply.sensing_data.area_number)
            0
            reply.ranges
          ≡ some c
      shown : c.ranges ≡ shown_ranges node reply
      finite : c.any_finite_ranges ≡ has_number p (shown_ranges node reply)
      points : points_of p (cached_lut p node) c.ranges_in_safety_area ≡ some pts

    complete : Complete
    complete =
        let first = to_size node.scan_params.first_step in
        let last = to_size node.scan_params.last_step in
        let offset = node.params.range_offset in
        let area = reference_area p node reply.sensing_data.area_number in
        let n = length reply.ranges in
        let (c, e1, below) =
          collect_ranges-some first last offset area 0 n reply.ranges (omega arith) area_covers in
        let (in_window, finite) =
          collect_ranges-window p first last offset area 0 reply.ranges c e1 in
        let shown : c.ranges ≡ shown_ranges node reply =
          in_window ∙ ap (map (range_in_meters p offset)) (window-zero first last reply.ranges) in
        let (pts, e2) =
          points_of-Covers p (cached_lut p node) n c.ranges_in_safety_area lut_covers below in
        record {
          c = c;
          pts = pts;
          collected = e1;
          shown = shown;
          finite = finite ∙ ap (has_number p) shown;
          points = e2;
        }

    -- The points are published.
    points_published :
        (stamp : p.base.ros.Time)
        → (r : UamRos p × List (Publication p)) × (publish_points_in_area p node
              complete.c.ranges_in_safety_area stamp
            ≡ some r)
    unfolding publish_points_in_area
    points_published stamp = (
      _,
      >>=-some (points_of p (cached_lut p node) complete.c.ranges_in_safety_area) _ complete.points,
    )

    -- The end of the callback publishes the scan if one of its distances is a number.
    publish_scan-shows :
        has_number p (shown_ranges node reply) ≡ true
        → (node' : UamRos p) × (rest : List (Publication p)) × (publish_scan p node reply wall_time
            ≡ some (
              node',
              laser_scan (scan_message p node wall_time reply (shown_ranges node reply)) ∷ rest,
            ))
    unfolding publish_scan
    publish_scan-shows number =
        let c = complete.c in
        let msg = scan_message p node wall_time reply c.ranges in
        let (r, e) = points_published msg.header.stamp in
        (
          r.0,
          r.1,
          >>=-some _ _ complete.collected
              ∙ if-false _ _ _ (ap not (complete.finite ∙ number))
              ∙ >>=-some (publish_points_in_area p node c.ranges_in_safety_area msg.header.stamp) _
                  e
              ∙ ap (λ rs. some (r.0, laser_scan (scan_message p node wall_time reply rs) ∷ r.1))
                  complete.shown,
        )

    publish_scan-defined :
        (r : UamRos p × List (Publication p)) × (publish_scan p node reply wall_time ≡ some r)
    unfolding publish_scan
    publish_scan-defined =
        let c = complete.c in
        let msg = scan_message p node wall_time reply c.ranges in
        let (r, e) = points_published msg.header.stamp in
        let points = publish_points_in_area p node c.ranges_in_safety_area msg.header.stamp in
        let (q, h) =
          if-holds
            (λ (o : Option (UamRos p × List (Publication p))).
              (q : UamRos p × List (Publication p)) × (o ≡ some q))
            (not c.any_finite_ranges) (some (node, []))
            (points >>= λ q. some (q.0, laser_scan msg ∷ q.1)) ((node, []), refl)
            (_, >>=-some points _ e) in
        (q, >>=-some _ _ complete.collected ∙ h)

  -- If the time is not before the deadline for scans to discard, the reply reports no lockout and
  -- has more distances than the last step, one of those shown is not nan, and the reference area
  -- and the tables of sines and cosines have an entry for each distance, then `scanCallback`
  -- publishes the scan with these distances behind the statuses.
  pub scan_callback-shows :
      (now : p.base.ros.Time) (node : UamRos p) (reply : ScanReply) (wall_time : p.base.ros.Time)
      → let seen = (updated now node reply).0 in
        (not (p.is_zero node.discard_data_until) && p.time_less now node.discard_data_until) ≡ false
        → reply.sensing_data.lockout_state ≡ 0
        → to_size seen.scan_params.last_step < length reply.ranges
        → AreaCovers (reference_area p seen reply.sensing_data.area_number) (length reply.ranges)
        → Covers p (cached_lut p seen) (length reply.ranges)
        → has_number p (shown_ranges seen reply) ≡ true
        → (node' : UamRos p) × (rest : List (Publication p)) × (scan_callback p now node reply
              wall_time
            ≡ some (
              node',
              (updated now node reply).1
                  ++ (laser_scan (scan_message p seen wall_time reply (shown_ranges seen reply))
                      ∷ rest),
            ))
  unfolding scan_callback
  scan_callback-shows now node reply wall_time kept unlocked long area_covers lut_covers finite =
      let r = updated now node reply in
      let (node', rest, e) = publish_scan-shows r.0 reply wall_time area_covers lut_covers finite in
      (
        node',
        rest,
        if-false _ _ _ kept
            ∙ if-false _ _ _ (locked_false _ unlocked)
            ∙ if-false _ _ _ (leb-false _ _ long)
            ∙ >>=-some (publish_scan p r.0 reply wall_time) _ e,
      )

  -- If the reference area of the area number in the reply, where there is one, and the tables of
  -- sines and cosines have at least as many entries as the reply has distances, `scanCallback`
  -- reads neither of them past its end.
  pub scan_callback-defined :
      (now : p.base.ros.Time) (node : UamRos p) (reply : ScanReply) (wall_time : p.base.ros.Time)
      → let seen = (updated now node reply).0 in
        AreaCovers (reference_area p seen reply.sensing_data.area_number) (length reply.ranges)
        → Covers p (cached_lut p seen) (length reply.ranges)
        → (r : UamRos p × List (Publication p)) × (scan_callback p now node reply wall_time
            ≡ some r)
  unfolding scan_callback
  scan_callback-defined now node reply wall_time area_covers lut_covers =
      let r = updated now node reply in
      let P : Option (UamRos p × List (Publication p)) → Type 0 =
        λ o. (q : UamRos p × List (Publication p)) × (o ≡ some q) in
      let (q, e) = publish_scan-defined r.0 reply wall_time area_covers lut_covers in
      if-holds P _ (some (record node { scan_stamp = now }, [])) _ (_, refl)
        (if-holds P _ (some r) _ (r, refl)
          (if-holds P _ (some r) _ (r, refl)
            (_, >>=-some (publish_scan p r.0 reply wall_time) _ e)))
