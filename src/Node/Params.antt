-- ===== src/Node/Params.antt =====
-- `UamROSParams` of urg_node/include/uam/uam_driver_ros_params.h with `loadFromROS` of
-- urg_node/src/uam/uam_driver_ros_params.cpp. The parameter server is a record of what it knows.
pub mod Usable
use urg_node.Prelude.{
  ℕ, zero, ◌%◌, ◌^◌, ◌-◌, suc, Bool, true, false, ◌&&◌, ◌||◌, Option, none, some, ltb,
  if◌then◌else◌,
}
use urg_node.Prelude.Int.{ℤ, pos, negsuc, ltb_ℤ}
use urg_node.Codec.Bytes.{Bytes}
use urg_node.Protocol.Area.{
  EyrAreaType, protection_1, protection_2, warning_1, warning_2, area_type_code,
}
use urg_node.Node.Library.{NodePlatform}

pub record UamRosParams (p : NodePlatform) : Type 0 where
  pub angle_min : p.base.double.Real
  pub angle_max : p.base.double.Real
  pub frame_id : Bytes
  pub ip_address : Bytes
  pub ip_port : ℕ
  pub log_safety_areas_crc : Bool
  pub provide_laser_status_service : Bool
  pub range_offset : p.base.double.Real
  pub reconfiguration_timeout : p.base.ros.Duration
  pub request_status_service : Bytes
  pub scan_timeout : p.base.ros.Duration
  pub scan_topic : Bytes
  pub status_topic : Bytes
  pub points_in_safety_area_topic : Bytes
  pub lidar_hard_reset_service : Bytes
  pub lidar_power_cycle_interval : p.base.ros.Duration
  pub configure_attempts : ℤ
  pub discard_startup_data_s : p.base.double.Real
  -- By its code, a `uint16_t`.
  pub reference_safety_area : Option ℕ
  pub time_offset : p.base.ros.Duration
  pub use_intensity : Bool
  pub use_multi_echo : Bool

-- The parameters that are set, by their names on the server.
pub record ParamServer (p : NodePlatform) : Type 0 where
  pub angle_min : Option p.base.double.Real
  pub angle_max : Option p.base.double.Real
  pub publish_intensity : Option Bool
  pub publish_multiecho : Option Bool
  pub frame_id : Option Bytes
  pub ip_address : Option Bytes
  pub ip_port : Option ℤ
  pub time_offset : Option p.base.double.Real
  pub reconfiguration_timeout : Option p.base.double.Real
  pub topic : Option Bytes
  pub provide_laser_status_service : Option Bool
  pub request_status_service : Option Bytes
  pub range_offset : Option p.base.double.Real
  pub log_safety_areas_crc : Option Bool
  pub discard_startup_data_s : Option p.base.double.Real
  pub reference_safety_area_type : Option ℤ
  pub configure_attempts : Option ℤ

-- `nh.getParam(name, value)`, which leaves a value alone that is not set.
abbrev pub get_param {ℓ} : {A : Type ℓ} → Option A → A → A
get_param none value = value
get_param (some a) value = a

-- `static_cast<unsigned int>` of an `int`.
abbrev pub to_unsigned : ℤ → ℕ
to_unsigned (pos n) = n % 2 ^ 32
to_unsigned (negsuc n) = 2 ^ 32 - suc (n % 2 ^ 32)

-- `static_cast<EYRAreaType>` of an `int`: the underlying type is `uint16_t`.
abbrev pub reference_type : ℤ → ℕ
reference_type (pos n) = n % 2 ^ 16
reference_type (negsuc n) = 2 ^ 16 - suc (n % 2 ^ 16)

-- The reference area, by what the server knows of it.
unfoldable pub reference_safety_area_of : Option ℕ → Option ℤ → Option ℕ
reference_safety_area_of default none = default
reference_safety_area_of default (some area) =
    if ltb_ℤ area (pos (area_type_code protection_1)) || ltb_ℤ (pos (area_type_code warning_2)) area
    then default
    else some (reference_type area)

module _ (p : NodePlatform) where
  -- `loadFromROS(nh)` on top of the values of a new struct.
  unfoldable pub load_from_ros : UamRosParams p → ParamServer p → UamRosParams p
  unfolding reference_safety_area_of
  load_from_ros params nh =
      let use_intensity = get_param nh.publish_intensity params.use_intensity in
      let use_multi_echo = get_param nh.publish_multiecho params.use_multi_echo in
      let port = get_param nh.ip_port (pos params.ip_port) in
      let duration_of : Option p.base.double.Real → p.base.ros.Duration → p.base.ros.Duration =
        λ set default. elim set [ none ↦ default | some s ↦ p.base.ros.duration_from_sec s ] in
      record params {
        angle_min = get_param nh.angle_min params.angle_min;
        angle_max = get_param nh.angle_max params.angle_max;
        use_intensity = use_intensity;
        use_multi_echo = if use_multi_echo && use_intensity then false else use_multi_echo;
        frame_id = get_param nh.frame_id params.frame_id;
        ip_address = get_param nh.ip_address params.ip_address;
        ip_port = if ltb params.ip_port 0 then params.ip_port else to_unsigned port;
        time_offset =
            p.base.ros.duration_from_sec (get_param nh.time_offset (p.base.double.literal 0 0));
        reconfiguration_timeout =
            duration_of nh.reconfiguration_timeout params.reconfiguration_timeout;
        scan_topic = get_param nh.topic params.scan_topic;
        provide_laser_status_service =
            get_param nh.provide_laser_status_service params.provide_laser_status_service;
        request_status_service = get_param nh.request_status_service params.request_status_service;
        range_offset = get_param nh.range_offset params.range_offset;
        log_safety_areas_crc = get_param nh.log_safety_areas_crc params.log_safety_areas_crc;
        discard_startup_data_s = get_param nh.discard_startup_data_s params.discard_startup_data_s;
        reference_safety_area =
            reference_safety_area_of params.reference_safety_area nh.reference_safety_area_type;
        configure_attempts = get_param nh.configure_attempts params.configure_attempts;
      }
