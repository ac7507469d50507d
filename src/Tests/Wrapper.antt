-- ===== src/Tests/Wrapper.antt =====
-- The wrapper of urg_node/src/urg_c_wrapper.cpp on a scripted sensor: steps, clock and scans.
use urg_node.Prelude.{
  ℕ, ◌≤◌, ◌*◌, some, get_elem?, ◌≤◌, ◌≡◌, ◌⊎◌, refl, arith, true, false, List, [], ◌++◌, length,
  get_or, map, replicate, length-replicate,
}
use urg_node.Prelude.Int.{pos}
use urg_node.Urg.{UrgCWrapper}
use urg_node.Urg.Limits.{IsLimited}
use urg_node.Urg.Clock.{
  Stamps, is_far, clock_time, get_synchronized_time, synchronize_all, get_synchronized_time-is_far,
  synchronize_all-clock_time,
}
use urg_node.Urg.Scans.{
  LaserScan, MultiEchoLaserScan, grab_scan, grab_multi_echo_scan, measure, measure_echoes,
  ScanHeader,
}
use urg_node.Urg.Scans.Beams.{grab_scan-beams}
use urg_node.Urg.Scans.Echoes.{group_ranges, groups, AreParallel, grab_multi_echo_scan-groups}
use urg_node.Tests.Platforms.{bench, fractions, seconds, scripted, wrapper}

abbrev still : UrgCWrapper bench
still = wrapper []

still_IsLimited : IsLimited bench scripted []
still_IsLimited = record {
  min_lt_max = omega arith;
  above_min = λ angle. omega arith;
  below_max = λ angle. omega arith;
}

near_example :
    let (w', stamp) = get_synchronized_time bench (pos 25) 1_000_000_000 still in
    (stamp ≡ seconds.from_nsec 1_000_000_000)
    ⊎ ((is_far bench stamp (seconds.from_nsec 1_000_000_000) ≡ false)
        × (100 ≤ still.adj_count)
        × (stamp ≡ clock_time bench w'))
near_example = get_synchronized_time-is_far bench (pos 25) 1_000_000_000 still

abbrev hundred : List Stamps
hundred = replicate 100 (pos 25, 1_000_000_000)

synchronized_example :
    let (w', stamp) =
      get_synchronized_time bench (pos 50) 1_025_000_000 (synchronize_all bench still hundred) in
    (stamp ≡ clock_time bench w') ⊎ (w'.adj_count ≡ 0)
synchronized_example =
    synchronize_all-clock_time bench still hundred (pos 50) 1_025_000_000 refl
      (length-replicate {A = Stamps} 100 (pos 25, 1_000_000_000))

abbrev no_header : ScanHeader bench
no_header = record {
  frame_id = [];
  stamp = seconds.no_time;
  angle_min = seconds.no_time;
  angle_max = seconds.no_time;
  angle_increment = seconds.no_time;
  scan_time = seconds.no_time;
  time_increment = seconds.no_time;
  range_min = seconds.no_time;
  range_max = seconds.no_time;
}

abbrev no_scan : LaserScan bench
no_scan = record { header = no_header; ranges = []; intensities = [] }

still_measured : (measure bench still).1.count ≡ pos 2
unfolding measure
still_measured = refl

still_lengths :
    (2 ≤ length (measure bench still).0.ranges)
    × (2 ≤ length (measure bench still).0.intensity)
    × (get_elem? (measure bench still).0.ranges 0 ≡ some (pos 1500))
unfolding measure
still_lengths = (omega arith, omega arith, refl)

beams_example :
    let (w', msg', ok) = grab_scan bench no_scan still in
    (ok ≡ true)
    × (length msg'.ranges ≡ 2)
    × (get_or msg'.ranges 0 bench.nan
        ≡ fractions.plus still.range_offset
            (fractions.over (fractions.of_int (pos 1500)) (fractions.literal 10_000 1)))
    × (still.use_intensity ≡ true
        → (length msg'.intensities ≡ 2)
          × ((i : ℕ) × (get_elem? (measure bench still).0.intensity 0 ≡ some i)
              × (get_or msg'.intensities 0 bench.nan ≡ fractions.of_int (pos i))))
beams_example =
    grab_scan-beams bench no_scan still 2 0 (pos 1500) bench.nan still_measured still_lengths.0
      (λ used. still_lengths.1) (omega arith) still_lengths.2

abbrev no_echoes : MultiEchoLaserScan bench
no_echoes = record { header = no_header; ranges = []; intensities = [] }

still_echoes : (measure_echoes bench still).1.count ≡ pos 2
unfolding measure_echoes
still_echoes = refl

still_groups :
    (3 * 2 ≤ length (measure_echoes bench still).0.ranges)
    × (3 * 2 ≤ length (measure_echoes bench still).0.intensity)
unfolding measure_echoes
still_groups = (omega arith, omega arith)

echoes_example :
    let w' = (measure_echoes bench still).0 in
    let (_, msg', ok) = grab_multi_echo_scan bench no_echoes still in
    (ok ≡ true)
    × (msg'.ranges ≡ no_echoes.ranges ++ map (group_ranges bench w') (groups 3 2 w'.ranges))
    × (still.use_intensity ≡ true
        → (added : List (List fractions.Real)) × (msg'.intensities ≡ no_echoes.intensities ++ added)
          × AreParallel bench w' 0 (map (group_ranges bench w') (groups 3 2 w'.ranges)) added)
echoes_example =
    grab_multi_echo_scan-groups bench no_echoes still 2 still_echoes (omega arith) still_groups.0
      (λ used. still_groups.1)
