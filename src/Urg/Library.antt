-- ===== src/Urg/Library.antt =====
-- What urg_node/src/urg_c_wrapper.cpp takes from outside: the C library urg_c, the time types of ROS and
-- the arithmetic of `double` and `float`, all parameters.
use urg_node.Prelude.{ℕ, Bool, Option, List}
use urg_node.Prelude.Int.{ℤ}
use urg_node.Prelude.Real.{Arith}
use urg_node.Codec.Bytes.{Bytes}

-- `urg_measurement_type_t`.
pub data MeasurementType : Type 0 where
  distance_type distance_intensity_type multiecho_type multiecho_intensity_type : MeasurementType

-- What a call for a measurement gives: a count or an error, the two arrays as it leaves them, and the
-- two time stamps.
pub record Measurement : Type 0 where
  pub count : ℤ
  pub ranges : List ℤ
  pub intensities : List ℕ
  pub time_stamp : ℤ
  pub system_time_stamp : ℕ

-- `ros::Time` and `ros::Duration` over a type of reals.
pub record RosTime (Real : Type 0) : Type 1 where
  pub Time : Type 0
  pub Duration : Type 0
  pub from_nsec : ℕ → Time
  pub from_sec : Real → Time
  pub to_sec : Time → Real
  pub time_diff : Time → Time → Duration
  pub time_plus : Time → Duration → Time
  pub duration_from_sec : Real → Duration
  pub duration_to_sec : Duration → Real
  pub duration_plus : Duration → Duration → Duration
  pub duration_diff : Duration → Duration → Duration
  pub duration_less : Duration → Duration → Bool
  pub no_time : Duration

-- The functions of urg_c on the sensor, of type `urg_t`. A result below 0 is an error.
pub record UrgC (Real : Type 0) : Type 1 where
  pub Sensor : Type 0
  -- `URG_MAX_ECHO`.
  pub max_echo : ℕ
  pub start_measurement : Sensor → MeasurementType → ℤ → ℤ → ℤ × Sensor
  pub stop_measurement : Sensor → Sensor
  -- The four functions that get a measurement, each by its type, into the two arrays.
  pub get_measurement : Sensor → MeasurementType → List ℤ → List ℕ → Measurement × Sensor
  -- What lies in memory past the end of each of the arrays, by the index from their start.
  pub past_ranges : ℕ → ℤ
  pub past_intensities : ℕ → ℕ
  pub max_data_size : Sensor → ℤ × Sensor
  pub distance_min_max : Sensor → ℤ × ℤ
  pub step_min_max : Sensor → ℤ × ℤ
  pub step2rad : Sensor → ℤ → Real
  pub rad2step : Sensor → Real → ℤ
  pub scan_usec : Sensor → ℤ
  pub set_scanning_parameter : Sensor → ℤ → ℤ → ℤ → ℤ × Sensor
  pub start_time_stamp_mode : Sensor → ℤ × Sensor
  pub time_stamp : Sensor → ℤ × Sensor
  pub stop_time_stamp_mode : Sensor → ℤ × Sensor
  pub is_ethernet : Sensor → Bool
  -- `serial_readline` with its time out, into a buffer of so many bytes: a count or an error.
  pub serial_readline : Sensor → ℕ → ℤ × Bytes × Sensor
  pub serial_write : Sensor → Bytes → Sensor
  -- `urg_open` on the serial port.
  pub reopen : Sensor → ℤ × Sensor
  pub close : Sensor → Sensor
  -- `write` on the socket, and `read` of at most so many bytes: none is the result -1.
  pub socket_write : Sensor → Bytes → Option ℕ × Sensor
  pub socket_read : Sensor → ℕ → Option Bytes × Sensor
  -- `ros::Time::now`, in nanoseconds.
  pub now : Sensor → ℕ × Sensor

pub record Platform : Type 1 where
  pub double : Arith
  pub float : Arith
  -- `static_cast<float>` of a double.
  pub narrow : double.Real → float.Real
  pub nan : float.Real
  pub ros : RosTime double.Real
  pub lib : UrgC double.Real
