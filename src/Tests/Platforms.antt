-- ===== src/Tests/Platforms.antt =====
-- A platform to run the code of urg_node/src/urg_c_wrapper.cpp and urg_node/include/uam/scan_params.h on:
-- fractions for the arithmetic, seconds for times, and a sensor that answers from a script.
use urg_node.Prelude.{
  ℕ, zero, suc, ◌*◌, ◌/◌, ◌^◌, true, false, Option, some, List, [], ◌∷◌, length, if◌then◌else◌,
}
use urg_node.Prelude.Int.{ℤ, pos, negsuc, ◌+ℤ◌, ◌-ℤ◌, ◌*ℤ◌, ltb_ℤ}
use urg_node.Prelude.Real.{Arith}
use urg_node.Codec.Bytes.{Bytes}
use urg_node.Urg.Library.{
  Platform, UrgC, RosTime, Measurement, MeasurementType, multiecho_type, multiecho_intensity_type,
}
use urg_node.Urg.{UrgCWrapper, measurement_type_of}

pub record Fraction : Type 0 where
  pub num : ℤ
  pub den : ℕ

abbrev pub negated : ℤ → ℤ
negated (pos zero) = pos 0
negated (pos (suc n)) = negsuc n
negated (negsuc n) = pos (suc n)

abbrev pub divided : Fraction → ℤ → ℕ → Fraction
divided a (pos n) d = record { num = a.num *ℤ pos d; den = a.den * n }
divided a (negsuc n) d = record { num = negated (a.num *ℤ pos d); den = a.den * suc n }

abbrev pub floor_of : ℤ → ℕ → ℤ
floor_of (pos n) d = pos (n / d)
floor_of (negsuc n) d = negsuc (n / d)

abbrev pub fractions : Arith
fractions = record {
  Real = Fraction;
  of_int = λ n. record { num = n; den = 1 };
  literal = λ n places. record { num = pos n; den = 10 ^ places };
  plus = λ a b. record { num = (a.num *ℤ pos b.den) +ℤ (b.num *ℤ pos a.den); den = a.den * b.den };
  minus = λ a b. record { num = (a.num *ℤ pos b.den) -ℤ (b.num *ℤ pos a.den); den = a.den * b.den };
  times = λ a b. record { num = a.num *ℤ b.num; den = a.den * b.den };
  over = λ a b. divided a b.num b.den;
  less = λ a b. ltb_ℤ (a.num *ℤ pos b.den) (b.num *ℤ pos a.den);
  floor_int = λ a. floor_of a.num a.den;
  ceil_int = λ a. negated (floor_of (negated a.num) a.den);
  abs = λ a. if ltb_ℤ a.num (pos 0) then record a { num = negated a.num } else a;
  pi = record { num = pos 355; den = 113 };
}

abbrev pub seconds : RosTime Fraction
seconds = record {
  Time = Fraction;
  Duration = Fraction;
  from_nsec = λ n. record { num = pos n; den = 10 ^ 9 };
  from_sec = λ t. t;
  to_sec = λ t. t;
  time_diff = fractions.minus;
  time_plus = fractions.plus;
  duration_from_sec = λ t. t;
  duration_to_sec = λ t. t;
  duration_plus = fractions.plus;
  duration_diff = fractions.minus;
  duration_less = fractions.less;
  no_time = record { num = pos 0; den = 1 };
}

-- What the next reads of the socket bring.
abbrev pub Script : Type 0
Script = List (Option Bytes)

abbrev pub next_read : Script → ℕ → Option Bytes × Script
next_read [] n = (some [], [])
next_read (r ∷ rs) n = (r, rs)

-- Two beams: of one echo and of none, or of one echo and of two.
abbrev pub beams : MeasurementType → Measurement
beams type = record {
  count = pos 2;
  ranges = elim type [
    | multiecho_type ↦ pos 700 ∷ pos 0 ∷ pos 9 ∷ pos 800 ∷ pos 900 ∷ pos 0 ∷ []
    | multiecho_intensity_type ↦ pos 700 ∷ pos 0 ∷ pos 9 ∷ pos 800 ∷ pos 900 ∷ pos 0 ∷ []
    | _ ↦ pos 1500 ∷ pos 0 ∷ []
  ];
  intensities = 40 ∷ 41 ∷ 42 ∷ 43 ∷ 44 ∷ 45 ∷ [];
  time_stamp = pos 16_777_215;
  system_time_stamp = 5_000_000_000;
}

abbrev pub scripted : UrgC Fraction
scripted = record {
  Sensor = Script;
  max_echo = 3;
  start_measurement = λ s type times skip. (pos 0, s);
  stop_measurement = λ s. s;
  get_measurement = λ s type rs is. (beams type, s);
  past_ranges = λ i. negsuc i;
  past_intensities = λ i. i;
  max_data_size = λ s. (pos 2, s);
  distance_min_max = λ s. (pos 100, pos 30_000);
  step_min_max = λ s. (pos 0, pos 1080);
  step2rad = λ s n. fractions.of_int n;
  rad2step = λ s angle. pos 540;
  scan_usec = λ s. pos 25_000;
  set_scanning_parameter = λ s first last cluster. (pos 0, s);
  start_time_stamp_mode = λ s. (pos 0, s);
  time_stamp = λ s. (pos 7, s);
  stop_time_stamp_mode = λ s. (pos 0, s);
  is_ethernet = λ s. true;
  serial_readline = λ s n. (negsuc 0, [], s);
  serial_write = λ s bs. s;
  reopen = λ s. (pos 0, s);
  close = λ s. s;
  socket_write = λ s bs. (some (length bs), s);
  socket_read = next_read;
  now = λ s. (0, s);
}

abbrev pub bench : Platform
bench = record {
  double = fractions;
  float = fractions;
  narrow = λ a. a;
  nan = record { num = pos 0; den = 0 };
  ros = seconds;
  lib = scripted;
}

-- A wrapper that is not running, with intensities.
abbrev pub wrapper : Script → UrgCWrapper bench
wrapper script = record {
  frame_id = [];
  urg = script;
  started = false;
  ranges = [];
  intensity = [];
  use_intensity = true;
  use_multiecho = false;
  measurement_type = measurement_type_of true false;
  first_step = pos 0;
  last_step = pos 1080;
  cluster = pos 1;
  skip = pos 0;
  range_offset = fractions.of_int (pos 0);
  system_latency = seconds.no_time;
  user_latency = seconds.no_time;
  synchronize_time = true;
  hardware_clock = fractions.of_int (pos 0);
  last_hardware_time_stamp = pos 0;
  hardware_clock_adj = fractions.of_int (pos 0);
  adj_count = 0;
}
