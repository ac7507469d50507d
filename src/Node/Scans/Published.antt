-- ===== src/Node/Scans/Published.antt =====
-- What `scanCallback` of urg_node/include/uam/uam_driver_ros.h publishes of a reply.
use urg_node.Prelude.{
  ltb, ℕ, suc, ◌-◌, ◌<◌, ◌≡◌, refl, ap, sym, ◌∙◌, subst, arith, Bool, true, false, not, ◌&&◌,
  Option, some, some-injective, List, [], ◌∷◌, ◌++◌, map, length, length-map, length-take,
  length-drop, take, drop, leb, ◌==◌, if◌then◌else◌, if-cases, ◌>>=◌, >>=-eq-some, All, All-append,
}
use urg_node.Prelude.Int.{pos}
use urg_node.Scan.{ScanParameters}
use urg_node.Urg.Scans.{LaserScan}
use urg_node.Node.{
  UamRos, Publication, status_on_request, status_on_update, area_scan, laser_scan, markers, cloud,
  restart_call,
}
use urg_node.Node.Library.{NodePlatform}
use urg_node.Node.Params.{UamRosParams}
use urg_node.Node.Status.{update_status}
use urg_node.Node.Status.Updates.{update_status-All}
use urg_node.Node.Points.{to_size, publish_points_in_area, points_of, cached_lut}
use urg_node.Node.Scans.{
  ScanReply, range_in_meters, collect_ranges, reference_area, scan_message, publish_scan,
  apply_params, scan_callback,
}
use urg_node.Node.Scans.Window.{has_number, window, collect_ranges-window}

not-false : (b : Bool) → not b ≡ false → b ≡ true
not-false b h = ground arith

zero_of : (n : ℕ) → not (n == 0) ≡ false → n ≡ 0
zero_of n h = ground arith

leb→lt : (a b : ℕ) → leb a b ≡ false → b < a
leb→lt a b h = ground arith

pub window-zero :
    {A : Type 0} (first last : ℕ) (xs : List A)
    → window first last 0 xs ≡ take (suc last - first) (drop first xs)
window-zero first last xs =
    let e : (suc last - first) - (0 - first) ≡ suc last - first = omega arith in
    let e' : first - 0 ≡ first = omega arith in
    ap (λ k. take ((suc last - first) - (0 - first)) (drop k xs)) e'
    ∙ ap (λ k. take k (drop first xs)) e

length-window :
    {A : Type 0} (first last : ℕ) (xs : List A)
    → last < length xs
    → length (take (suc last - first) (drop first xs)) ≡ suc last - first
length-window first last xs h =
    omega (arith, length-take (suc last - first) (drop first xs), length-drop first xs)

All-weaken :
    {A : Type 0} {P Q : A → Type 0} (xs : List A) → ((x : A) → P x → Q x) → All P xs → All Q xs
All-weaken [] f h = tt
All-weaken (x ∷ xs) f h = (f x h.0, All-weaken xs f h.1)

module _ (p : NodePlatform) where
  -- A value over 1000 with the offset added, unless it is 0 or at least 65532.
  abbrev pub distance_of : p.base.double.Real → ℕ → p.base.float.Real
  distance_of range_offset range =
      let r = p.base.float in
      if not (range == 0) && ltb range 65_532
      then r.plus (p.base.narrow range_offset) (r.over (r.of_int (pos range)) (r.literal 10_000 1))
      else p.base.nan

  -- The scan has the distances between the first and the last step in meters, and one of them is a number.
  pub record IsScanOf (s : ScanParameters p.base.double) (range_offset : p.base.double.Real)
      (ranges : List ℕ) (msg : LaserScan p.base) : Type 0 where
    pub in_window :
        msg.ranges
        ≡ map (distance_of range_offset) (
            take
              (suc (to_size s.last_step) - to_size s.first_step)
              (drop (to_size s.first_step) ranges))
    pub finite : has_number p msg.ranges ≡ true

  abbrev ShowsScan :
      ScanParameters p.base.double → p.base.double.Real → List ℕ → Publication p → Type 0
  ShowsScan s offset ranges (laser_scan msg) = IsScanOf s offset ranges msg
  ShowsScan s offset ranges publication = Unit

  -- The outcome has the parameters of a scan unchanged, and what it publishes is as it should be.
  abbrev Shows : (Publication p → Type 0) → UamRos p → UamRos p × List (Publication p) → Type 0
  Shows P node r = (r.0.scan_params ≡ node.scan_params) × (r.0.params ≡ node.params) × All P r.1

  publish_points-Shows :
      (node : UamRos p) (points : List (ℕ × p.base.float.Real)) (stamp : p.base.ros.Time)
      (P : Publication p → Type 0)
      → ((t : p.base.ros.Time) (pts : List (p.base.double.Real × p.base.double.Real))
          → P (markers t pts))
      → ((t : p.base.ros.Time) (pts : List (p.base.float.Real × p.base.float.Real))
          → P (cloud t pts))
      → (r : UamRos p × List (Publication p)) → publish_points_in_area p node points stamp ≡ some r
      → Shows P node r
  unfolding publish_points_in_area
  publish_points-Shows node points stamp P marker clouds r e =
      let (pts, _, e1) = >>=-eq-some (points_of p (cached_lut p node) points) _ e in
      subst (Shows P node) (some-injective e1) (refl, refl, (marker _ _, (clouds _ _, tt)))

  publish_scan-Shows :
      (node : UamRos p) (reply : ScanReply) (wall_time : p.base.ros.Time)
      (r : UamRos p × List (Publication p))
      → publish_scan p node reply wall_time ≡ some r
      → Shows (ShowsScan node.scan_params node.params.range_offset reply.ranges) node r
  unfolding publish_scan scan_message range_in_meters
  publish_scan-Shows node reply wall_time r e =
      let first = to_size node.scan_params.first_step in
      let last = to_size node.scan_params.last_step in
      let offset = node.params.range_offset in
      let area = reference_area p node reply.sensing_data.area_number in
      let P = ShowsScan node.scan_params offset reply.ranges in
      let (c, e1, e2) = >>=-eq-some (collect_ranges p first last offset area 0 reply.ranges) _ e in
      let (in_window, finite) =
        collect_ranges-window p first last offset area 0 reply.ranges c e1 in
      let msg = scan_message p node wall_time reply c.ranges in
      let points = publish_points_in_area p node c.ranges_in_safety_area msg.header.stamp in
      if-cases (λ (o : Option (UamRos p × List (Publication p))). o ≡ some r → Shows P node r)
        (not c.any_finite_ranges) (some (node, []))
        (points >>= λ q. some (q.0, laser_scan msg ∷ q.1))
        (λ _ h. subst (Shows P node) (some-injective h) (refl, refl, tt))
        (λ some_finite h.
          let (q, h1, h2) = >>=-eq-some points _ h in
          let shown =
            publish_points-Shows node c.ranges_in_safety_area msg.header.stamp P (λ t pts. tt)
              (λ t pts. tt) q h1 in
          subst (Shows P node) (some-injective h2) (
            shown.0,
            shown.1,
            (
              record {
                in_window =
                    in_window
                    ∙ ap (map (range_in_meters p offset)) (window-zero first last reply.ranges);
                finite = sym finite ∙ not-false c.any_finite_ranges some_finite;
              },
              shown.2,
            ),
          ))
        e2

  -- What a published scan says of the callback: the sensor was not locked out, the scan was not to be
  -- discarded, and its ranges are those of the reply from the first step to the last.
  pub record IsPublished (now : p.base.ros.Time) (node : UamRos p) (reply : ScanReply)
      (node' : UamRos p) (msg : LaserScan p.base) : Type 0 where
    pub unlocked : reply.sensing_data.lockout_state ≡ 0
    pub kept :
        (not (p.is_zero node.discard_data_until) && p.time_less now node.discard_data_until) ≡ false
    pub scan : IsScanOf node'.scan_params node'.params.range_offset reply.ranges msg
    pub length_eq :
        length msg.ranges
        ≡ suc (to_size node'.scan_params.last_step) - to_size node'.scan_params.first_step

  abbrev pub Published : p.base.ros.Time → UamRos p → ScanReply → UamRos p → Publication p → Type 0
  Published now node reply node' (laser_scan msg) = IsPublished now node reply node' msg
  Published now node reply node' publication = Unit

  module _ (now : p.base.ros.Time) (node : UamRos p) (reply : ScanReply) where
    -- The outcome of the callback, whatever the last guards say, is silent or shows the reply.
    abbrev Outcome : UamRos p × List (Publication p) → Type 0
    Outcome r = All (Published now node reply r.0) r.1

    IsScanOf-Published :
        (updated last : UamRos p)
        → reply.sensing_data.lockout_state ≡ 0
        → (not (p.is_zero node.discard_data_until) && p.time_less now node.discard_data_until)
          ≡ false
        → to_size updated.scan_params.last_step < length reply.ranges
        → last.scan_params ≡ updated.scan_params
        → last.params ≡ updated.params
        → (x : Publication p)
        → ShowsScan updated.scan_params updated.params.range_offset reply.ranges x
        → Published now node reply last x
    IsScanOf-Published updated last unlocked kept long same same' (laser_scan msg) h =
        let scan =
          subst (λ s. IsScanOf s last.params.range_offset reply.ranges msg) (sym same)
            (subst
              (λ (q : UamRosParams p). IsScanOf updated.scan_params q.range_offset reply.ranges msg)
              (sym same') h) in
        let in_window = ap length h.in_window in
        record {
          unlocked = unlocked;
          kept = kept;
          scan = scan;
          length_eq =
              in_window
              ∙ length-map _ (distance_of updated.params.range_offset)
              ∙ length-window (to_size updated.scan_params.first_step)
                  (to_size updated.scan_params.last_step) reply.ranges long
              ∙ ap
                  (λ (s : ScanParameters p.base.double).
                    suc (to_size s.last_step) - to_size s.first_step)
                  (sym same);
        }
    IsScanOf-Published updated last unlocked kept long same same' (status_on_request m) h = tt
    IsScanOf-Published updated last unlocked kept long same same' (status_on_update m) h = tt
    IsScanOf-Published updated last unlocked kept long same same' (area_scan t s) h = tt
    IsScanOf-Published updated last unlocked kept long same same' (markers t ps) h = tt
    IsScanOf-Published updated last unlocked kept long same same' (cloud t ps) h = tt
    IsScanOf-Published updated last unlocked kept long same same' (restart_call t t') h = tt

    statuses-Published :
        (last prepared : UamRos p)
        → All (Published now node reply last) (update_status p prepared reply.sensing_data false).1
    statuses-Published last prepared =
        update_status-All p (Published now node reply last) (λ m. tt) (λ m. tt) (λ t s. tt) prepared
          reply.sensing_data false

  -- Every laser scan that `scanCallback` publishes, for any node, reply and arithmetic, has as
  -- its ranges the distances of the reply from the first step to the last step of the node it
  -- leaves, each over 1000 with the offset of the range added, or nan if it is 0 or at least
  -- 65532, as many as there are steps, at least one of them not nan; and it is published only if
  -- the reply reports no lockout and the time is not before the deadline for scans to discard.
  pub scan_callback-Published :
      (now : p.base.ros.Time) (node : UamRos p) (reply : ScanReply) (wall_time : p.base.ros.Time)
      (node' : UamRos p) (out : List (Publication p))
      → scan_callback p now node reply wall_time ≡ some (node', out)
      → All (Published now node reply node') out
  unfolding scan_callback
  scan_callback-Published now node reply wall_time node' out e =
      let seen = record node { scan_stamp = now } in
      let prepared = apply_params p seen in
      let r = update_status p prepared reply.sensing_data false in
      let discards =
        not (p.is_zero node.discard_data_until) && p.time_less now node.discard_data_until in
      let last = to_size r.0.scan_params.last_step in
      let P : Option (UamRos p × List (Publication p)) → Type 0 =
        λ o. o ≡ some (node', out) → Outcome now node reply (node', out) in
      let Q = Outcome now node reply in
      let silent : P (some r) =
        λ h. subst Q (some-injective h) (statuses-Published now node reply r.0 prepared) in
      let publish = publish_scan p r.0 reply wall_time in
      let whole = publish >>= λ q. some (q.0, r.1 ++ q.1) in
      if-cases P discards (some (seen, []))
        (if not (reply.sensing_data.lockout_state == 0)
          then some r
          else if leb (length reply.ranges) last
          then some r
          else whole)
        (λ _ h. subst Q (some-injective h) tt)
        (λ kept.
          if-cases P (not (reply.sensing_data.lockout_state == 0)) (some r)
            (if leb (length reply.ranges) last then some r else whole) (λ _. silent)
            (λ unlocked.
              if-cases P (leb (length reply.ranges) last) (some r) whole (λ _. silent)
                (λ long h.
                  let (q, h1, h2) = >>=-eq-some publish _ h in
                  let (same, same', shown) = publish_scan-Shows r.0 reply wall_time q h1 in
                  subst Q (some-injective h2) (
                    All-append (Published now node reply q.0) r.1 q.1
                      (statuses-Published now node reply q.0 prepared)
                      (All-weaken q.1
                        (IsScanOf-Published now node reply r.0 q.0 (zero_of _ unlocked) kept
                          (leb→lt _ _ long) same same')
                        shown)))))
        e
