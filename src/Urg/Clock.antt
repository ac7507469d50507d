-- ===== src/Urg/Clock.antt =====
-- `getSynchronizedTime` of urg_node/src/urg_c_wrapper.cpp: the sensor's counter of milliseconds, which has
-- 24 bits, is followed as a clock and its offset from the system's clock as a moving average.
use urg_node.Prelude.{
  ℕ, ◌+◌, ◌-◌, ◌%◌, ◌^◌, ◌≤◌, ◌<◌, ◌≡◌, arith, Bool, false, ◌⊎◌, List, [], ◌∷◌, ltb, if◌then◌else◌,
  length,
}
use urg_node.Prelude.Int.{ℤ, pos, negsuc}
use urg_node.Urg.Library.{Platform}
use urg_node.Urg.{UrgCWrapper}

-- `static_cast<uint32_t>` of a `long`.
unfoldable pub to_u32 : ℤ → ℕ
to_u32 (pos n) = n % 2 ^ 32
to_u32 (negsuc n) = 2 ^ 32 - 1 - n % 2 ^ 32

-- The milliseconds from one time stamp to another: the difference wraps around at 2 ^ 32, and the mask
-- keeps its lowest 24 bits.
unfoldable pub elapsed_ms : ℤ → ℤ → ℕ
unfolding to_u32
elapsed_ms last now = (to_u32 now + (2 ^ 32 - to_u32 last)) % 2 ^ 32 % 2 ^ 24

-- A pair of time stamps for the run of the clock: of the sensor and of the system.
abbrev pub Stamps : Type 0
Stamps = ℤ × ℕ

module _ (p : Platform) where
  -- `fabs((stamp - system_time).toSec()) > 0.1`.
  unfoldable pub is_far : p.ros.Time → p.ros.Time → Bool
  is_far stamp system_time =
      p.double.less (p.double.literal 1 1)
        (p.double.abs (p.ros.duration_to_sec (p.ros.time_diff stamp system_time)))

  -- The state once the clock and the average have taken the time stamps in.
  unfoldable pub advance_clock : ℤ → p.ros.Time → UrgCWrapper p → UrgCWrapper p
  unfolding elapsed_ms
  advance_clock time_stamp system_time w =
      let r = p.double in
      let elapsed = r.of_int (pos (elapsed_ms w.last_hardware_time_stamp time_stamp)) in
      let clock = r.plus w.hardware_clock (r.over elapsed (r.literal 10_000 1)) in
      let cur_adj = r.minus (p.ros.to_sec system_time) clock in
      let alpha = r.literal 1 2 in
      let average =
        r.plus (r.times alpha cur_adj)
          (r.times (r.minus (r.literal 10 1) alpha) w.hardware_clock_adj) in
      record w {
        hardware_clock = clock;
        hardware_clock_adj = if ltb 0 w.adj_count then average else cur_adj;
        adj_count = (w.adj_count + 1) % 2 ^ 64;
        last_hardware_time_stamp = time_stamp;
      }

  -- `hardware_clock_ + hardware_clock_adj_` as a time.
  unfoldable pub clock_time : UrgCWrapper p → p.ros.Time
  clock_time w = p.ros.from_sec (p.double.plus w.hardware_clock w.hardware_clock_adj)

  unfoldable pub reset_clock : UrgCWrapper p → UrgCWrapper p
  reset_clock w = record w {
    adj_count = 0;
    hardware_clock = p.double.literal 0 1;
    last_hardware_time_stamp = pos 0;
  }

  -- `getSynchronizedTime(time_stamp, system_time_stamp)`.
  unfoldable pub get_synchronized_time : ℤ → ℕ → UrgCWrapper p → UrgCWrapper p × p.ros.Time
  unfolding is_far advance_clock clock_time reset_clock
  get_synchronized_time time_stamp system_time_stamp w =
      let system_time = p.ros.from_nsec system_time_stamp in
      let w' = advance_clock time_stamp system_time w in
      if ltb 100 w'.adj_count
      then if is_far (clock_time w') system_time
        then (reset_clock w', system_time)
        else (w', clock_time w')
      else (w', system_time)

  -- The state after a run of calls.
  unfoldable pub synchronize_all : UrgCWrapper p → List Stamps → UrgCWrapper p
  unfolding get_synchronized_time
  synchronize_all w [] = w
  synchronize_all w (stamps ∷ more) =
      synchronize_all (get_synchronized_time stamps.0 stamps.1 w).0 more

  -- The time that `getSynchronizedTime` gives is the time of the system, or it is the time of the
  -- followed clock, is not further than 0.1 from the time of the system, and at least 100
  -- adjustments came before.
  pub get_synchronized_time-is_far :
      (time_stamp : ℤ) (system_time_stamp : ℕ) (w : UrgCWrapper p)
      → let (w', stamp) = get_synchronized_time time_stamp system_time_stamp w in
        (stamp ≡ p.ros.from_nsec system_time_stamp)
        ⊎ ((is_far stamp (p.ros.from_nsec system_time_stamp) ≡ false)
            × (100 ≤ w.adj_count)
            × (stamp ≡ clock_time w'))
  unfolding get_synchronized_time advance_clock
  get_synchronized_time-is_far time_stamp system_time_stamp w = ground arith

  get_synchronized_time-adj_count :
      (time_stamp : ℤ) (system_time_stamp : ℕ) (w : UrgCWrapper p)
      → w.adj_count < 100
      → (get_synchronized_time time_stamp system_time_stamp w).0.adj_count ≡ w.adj_count + 1
  unfolding get_synchronized_time advance_clock
  get_synchronized_time-adj_count time_stamp system_time_stamp w h = ground arith

  -- No call resets the clock as long as there are at most 100.
  synchronize_all-adj_count :
      (w : UrgCWrapper p) (stamps : List Stamps)
      → w.adj_count + length stamps ≤ 100
      → (synchronize_all w stamps).adj_count ≡ w.adj_count + length stamps
  unfolding synchronize_all
  synchronize_all-adj_count w [] h = omega arith
  synchronize_all-adj_count w (s ∷ stamps) h =
      let w' = (get_synchronized_time s.0 s.1 w).0 in
      let e : w'.adj_count ≡ w.adj_count + 1 =
        get_synchronized_time-adj_count s.0 s.1 w (omega arith) in
      omega (arith, synchronize_all-adj_count w' stamps (omega arith))

  get_synchronized_time-late :
      (time_stamp : ℤ) (system_time_stamp : ℕ) (w : UrgCWrapper p)
      → w.adj_count ≡ 100
      → let (w', stamp) = get_synchronized_time time_stamp system_time_stamp w in
        (stamp ≡ clock_time w') ⊎ (w'.adj_count ≡ 0)
  unfolding get_synchronized_time advance_clock reset_clock clock_time
  get_synchronized_time-late time_stamp system_time_stamp w h = ground arith

  -- From a state whose count of adjustments is 0, whatever the first 100 pairs of time stamps
  -- are, the next call of `getSynchronizedTime` gives the time of the followed clock, or it finds
  -- a clock warp and sets the count back to 0.
  pub synchronize_all-clock_time :
      (w : UrgCWrapper p) (stamps : List Stamps) (time_stamp : ℤ) (system_time_stamp : ℕ)
      → w.adj_count ≡ 0
      → length stamps ≡ 100
      → let (w', stamp) =
          get_synchronized_time time_stamp system_time_stamp (synchronize_all w stamps) in
        (stamp ≡ clock_time w') ⊎ (w'.adj_count ≡ 0)
  synchronize_all-clock_time w stamps time_stamp system_time_stamp fresh enough =
      get_synchronized_time-late time_stamp system_time_stamp (synchronize_all w stamps)
        (omega (arith, synchronize_all-adj_count w stamps (omega arith)))

-- For two times in milliseconds of which the second is later by less than 2 ^ 24, what
-- `getSynchronizedTime` computes from the 24 bits that the counter has of each is their difference,
-- also where the counter wraps around in between.
pub elapsed_ms_lem :
    (t0 t1 : ℕ)
    → t0 ≤ t1
    → t1 < t0 + 2 ^ 24
    → elapsed_ms (pos (t0 % 2 ^ 24)) (pos (t1 % 2 ^ 24)) ≡ t1 - t0
unfolding elapsed_ms to_u32
elapsed_ms_lem t0 t1 h1 h2 = omega arith
