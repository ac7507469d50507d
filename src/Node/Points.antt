-- ===== src/Node/Points.antt =====
-- `publishPointsInArea` of urg_node/src/uam/uam_driver_ros.cpp: the points of a scan that lie in the area, by
-- a table of sines and cosines. To read a table past its end is undefined behaviour, which is `none` here.
pub mod Bounds
use urg_node.Prelude.{
  ℕ, zero, suc, ◌%◌, ◌^◌, ◌-◌, Bool, true, false, Option, none, some, List, [], ◌∷◌, map,
  if◌then◌else◌, ◌>>=◌, get_elem?,
}
use urg_node.Prelude.Int.{ℤ, pos, negsuc, ◌+ℤ◌, ◌-ℤ◌}
use urg_node.Scan.{ScanParameters}
use urg_node.Node.{UamRos, LaserScanCachedLookup, Publication, markers, cloud}
use urg_node.Node.Library.{NodePlatform}

-- An `int` where a `size_t` is wanted.
abbrev pub to_size : ℤ → ℕ
to_size (pos n) = n % 2 ^ 64
to_size (negsuc n) = 2 ^ 64 - suc (n % 2 ^ 64)

module _ (p : NodePlatform) where
  -- A scan index with its distance in meters.
  abbrev pub IndexedRange : Type 0
  IndexedRange = ℕ × p.base.float.Real

  -- The angle of a step of the table.
  unfoldable pub lookup_angle : ScanParameters p.base.double → ℕ → p.base.float.Real
  lookup_angle s i =
      let r = p.base.float in
      r.plus (p.base.narrow s.angle_min_limit)
        (r.times (r.of_int (pos i)) (p.base.narrow s.angle_increment))

  -- The loop that fills a table, for the count of steps that is left.
  abbrev pub lookup_table :
      (p.base.float.Real → p.base.float.Real)
      → ScanParameters p.base.double
      → ℕ
      → ℕ
      → List p.base.float.Real
  lookup_table f s i zero = []
  lookup_table f s i (suc left) = f (lookup_angle s i) ∷ lookup_table f s (suc i) left

  -- `getLut(scan_params)`.
  unfoldable pub get_lut : ScanParameters p.base.double → LaserScanCachedLookup p
  get_lut s =
      let number_of_steps = to_size ((s.last_step -ℤ s.first_step) +ℤ pos 1) in
      record {
        sin_lookup = lookup_table p.sin s 0 number_of_steps;
        cos_lookup = lookup_table p.cos s 0 number_of_steps;
      }

  -- The static table, which the first call makes.
  abbrev pub cached_lut : UamRos p → LaserScanCachedLookup p
  cached_lut node = elim node.lut [ none ↦ get_lut node.scan_params | some lut ↦ lut ]

  -- `pt`, in doubles.
  unfoldable pub point_of :
      LaserScanCachedLookup p → IndexedRange → Option (p.base.double.Real × p.base.double.Real)
  point_of lut (index, range) = get_elem? lut.cos_lookup index >>= λ cos.
      get_elem? lut.sin_lookup index >>= λ sin.
      some (p.widen (p.base.float.times range cos), p.widen (p.base.float.times range sin))

  -- The loop over the ranges.
  unfoldable pub points_of :
      LaserScanCachedLookup p
      → List IndexedRange
      → Option (List (p.base.double.Real × p.base.double.Real))
  unfolding point_of
  points_of lut [] = some []
  points_of lut (range ∷ ranges) =
      let rest = points_of lut ranges in
      point_of lut range >>= λ pt. rest >>= λ pts. some (pt ∷ pts)

  -- `publishPointsInArea(ranges, stamp)`.
  unfoldable pub publish_points_in_area :
      UamRos p → List IndexedRange → p.base.ros.Time → Option (UamRos p × List (Publication p))
  unfolding get_lut points_of
  publish_points_in_area node ranges stamp =
      let lut = cached_lut node in
      points_of lut ranges >>= λ pts. some (
        record node { lut = some lut },
        markers stamp pts
            ∷ cloud stamp (map (λ pt. (p.base.narrow pt.0, p.base.narrow pt.1)) pts)
            ∷ [],
      )
