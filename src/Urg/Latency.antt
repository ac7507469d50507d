-- ===== src/Urg/Latency.antt =====
-- `computeLatency` of urg_node/src/urg_c_wrapper.cpp with the offsets that it measures. The result `none` is an
-- exception; a median of no offsets is one too, where the code reads past an empty array.
use urg_node.Prelude.{
  ℕ, zero, suc, ◌-◌, ◌*◌, ◌/◌, ◌%◌, ◌^◌, Option, none, some, List, [], ◌∷◌, drop, length,
  if◌then◌else◌,
}
use urg_node.Prelude.Int.{ℤ, pos, negsuc, ltb_ℤ, leb_ℤ}
use urg_node.Urg.Library.{Platform}
use urg_node.Urg.{UrgCWrapper, start, stop}
use urg_node.Urg.Scans.{get_angular_time_offset}

-- `static_cast<uint64_t>` of a `long`.
unfoldable pub to_u64 : ℤ → ℕ
to_u64 (pos n) = n % 2 ^ 64
to_u64 (negsuc n) = 2 ^ 64 - 1 - n % 2 ^ 64

module _ (p : Platform) where
  -- A time from milliseconds: the product with 1e6 is exact below 2 ^ 53.
  abbrev pub laser_time : ℤ → p.ros.Time
  laser_time ms = p.ros.from_nsec (1_000_000 * to_u64 ms)

  unfoldable pub insert_duration : p.ros.Duration → List p.ros.Duration → List p.ros.Duration
  insert_duration d [] = d ∷ []
  insert_duration d (x ∷ xs) =
      let rest = insert_duration d xs in if p.ros.duration_less x d then x ∷ rest else d ∷ x ∷ xs

  unfoldable pub sort_durations : List p.ros.Duration → List p.ros.Duration
  unfolding insert_duration
  sort_durations [] = []
  sort_durations (x ∷ xs) = insert_duration x (sort_durations xs)

  abbrev pub first_of : List p.ros.Duration → Option p.ros.Duration
  first_of [] = none
  first_of (x ∷ xs) = some x

  -- `std::nth_element` and the element in the middle.
  unfoldable pub median : List p.ros.Duration → Option p.ros.Duration
  unfolding sort_durations
  median offsets = first_of (drop (length offsets / 2) (sort_durations offsets))

  -- The loop of `getNativeClockOffset`.
  unfoldable pub clock_offsets : ℕ → p.lib.Sensor → List p.ros.Duration × p.lib.Sensor
  unfolding to_u64
  clock_offsets zero urg = ([], urg)
  clock_offsets (suc n) urg =
      let (request, urg1) = p.lib.now urg in
      let (ms, urg2) = p.lib.time_stamp urg1 in
      let (response, urg3) = p.lib.now urg2 in
      let r = p.double in
      let average_time = p.ros.from_sec (
        r.over
          (r.plus (p.ros.to_sec (p.ros.from_nsec response))
            (p.ros.to_sec (p.ros.from_nsec request)))
          (r.literal 20 1)) in
      let (offsets, urg4) = clock_offsets n urg3 in
      (p.ros.time_diff (laser_time ms) average_time ∷ offsets, urg4)

  -- `getNativeClockOffset(num_measurements)`.
  unfoldable pub get_native_clock_offset : ℕ → UrgCWrapper p → UrgCWrapper p × Option p.ros.Duration
  unfolding clock_offsets median
  get_native_clock_offset n w =
      let (started, urg1) = p.lib.start_time_stamp_mode w.urg in
      let (offsets, urg2) = clock_offsets n urg1 in
      let (stopped, urg3) = p.lib.stop_time_stamp_mode urg2 in
      if w.started
      then (w, none)
      else if ltb_ℤ started (pos 0)
      then (record w { urg = urg1 }, none)
      else if ltb_ℤ stopped (pos 0)
      then (record w { urg = urg3 }, none)
      else (record w { urg = urg3 }, median offsets)

  -- The loop of `getTimeStampOffset`: an exception leaves it with the scan running.
  unfoldable pub scan_offsets : ℕ → UrgCWrapper p → UrgCWrapper p × Option (List p.ros.Duration)
  unfolding to_u64
  scan_offsets zero w = (w, some [])
  scan_offsets (suc n) w =
      let (m, urg) = p.lib.get_measurement w.urg w.measurement_type w.ranges w.intensity in
      let w' = record w { urg = urg; ranges = m.ranges; intensity = m.intensities } in
      let offset =
        p.ros.time_diff (laser_time m.time_stamp) (p.ros.from_nsec m.system_time_stamp) in
      let (w2, rest) = scan_offsets n w' in
      if leb_ℤ m.count (pos 0)
      then (w', none)
      else (w2, elim rest [ none ↦ none | some offsets ↦ some (offset ∷ offsets) ])

  -- The end of `getTimeStampOffset`: what was measured decides whether the scan is stopped.
  unfoldable pub stop_after :
      UrgCWrapper p × Option (List p.ros.Duration) → UrgCWrapper p × Option p.ros.Duration
  unfolding stop median
  stop_after (w, none) = (w, none)
  stop_after (w, some offsets) = (stop p w, median offsets)

  -- `getTimeStampOffset(num_measurements)`.
  unfoldable pub get_time_stamp_offset : ℕ → UrgCWrapper p → UrgCWrapper p × Option p.ros.Duration
  unfolding start scan_offsets stop_after
  get_time_stamp_offset n w =
      let (w1, ok) = start p w in
      if w.started then (w, none) else if ok then stop_after (scan_offsets n w1) else (w1, none)

  -- The loop of `computeLatency` for so many rounds, with the offset of the last round.
  unfoldable pub latency_offsets :
      ℕ
      → p.ros.Duration
      → p.ros.Duration
      → UrgCWrapper p
      → UrgCWrapper p × Option (List p.ros.Duration)
  unfolding get_time_stamp_offset get_native_clock_offset
  latency_offsets zero start_offset previous w = (w, some [])
  latency_offsets (suc n) start_offset previous w =
      let (w1, scan) = get_time_stamp_offset 1 w in
      let (w2, post) = get_native_clock_offset 1 w1 in
      elim scan [
        | none ↦ (w1, none)
        | some scan_offset ↦ elim post [
          | none ↦ (w2, none)
          | some post_offset ↦
              let adjusted_scan = p.ros.duration_diff scan_offset start_offset in
              let adjusted_post = p.ros.duration_diff post_offset start_offset in
              let r = p.double in
              let average = p.ros.duration_from_sec (
                r.over
                  (r.plus (p.ros.duration_to_sec adjusted_post) (p.ros.duration_to_sec previous))
                  (r.literal 20 1)) in
              let (w3, rest) = latency_offsets n start_offset adjusted_post w2 in
              (
                w3,
                elim rest [
                  | none ↦ none
                  | some offsets ↦ some (p.ros.duration_diff adjusted_scan average ∷ offsets)
                ],
              )
        ]
      ]

  -- `computeLatency(num_measurements)`.
  unfoldable pub compute_latency : ℕ → UrgCWrapper p → UrgCWrapper p × Option p.ros.Duration
  unfolding get_native_clock_offset latency_offsets median get_angular_time_offset
  compute_latency n w =
      let (w1, begin) = get_native_clock_offset 1 (record w { system_latency = p.ros.no_time }) in
      elim begin [
        | none ↦ (w1, none)
        | some start_offset ↦
            let (w2, offsets) = latency_offsets n start_offset p.ros.no_time w1 in
            elim offsets [
              | none ↦ (w2, none)
              | some times ↦ elim (median times) [
                | none ↦ (w2, none)
                | some latency ↦
                    let w3 = record w2 { system_latency = latency } in
                    (w3, some (p.ros.duration_plus latency (get_angular_time_offset p w3)))
              ]
            ]
      ]
