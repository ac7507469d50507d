-- ===== src/Protocol/Status.antt =====
-- `StatusData` of urg_node/include/uam/protocol_types/uam_protocol_types.h: what the XR00 command
-- answers. A member of type `bool` is the byte that it is stored in.
use urg_node.Prelude.{ℕ, ◌+◌, [], ◌∷◌}
use urg_node.Codec.Bytes.{Bytes, slice, read_uint}
use urg_node.Codec.Field.{boolean, u16, u32, u64}
use urg_node.Protocol.Layout.{Layout, field, chars, offset_of}

pub record StatusData : Type 0 where
  pub operating_mode : ℕ
  pub area_number : ℕ
  pub error_state : ℕ
  pub error_code : ℕ
  pub lockout_state : ℕ
  pub ossd1_state : ℕ
  pub ossd2_state : ℕ
  pub warning1_state : ℕ
  pub warning2_state : ℕ
  pub ossd3_state : ℕ
  pub ossd4_state : ℕ
  pub reserved0 : Bytes
  pub muting_state1 : ℕ
  pub muting_state2 : ℕ
  pub reset_request1 : ℕ
  pub reset_request2 : ℕ
  pub encoder_speed : ℕ
  pub laser_state_off : ℕ
  pub slave1_ossd1_2_state : ℕ
  pub slave2_ossd1_2_state : ℕ
  pub slave3_ossd1_2_state : ℕ
  pub slave1_ossd3_4_state : ℕ
  pub slave2_ossd3_4_state : ℕ
  pub slave3_ossd3_4_state : ℕ
  pub slave1_warning_1_state : ℕ
  pub slave2_warning_1_state : ℕ
  pub slave3_warning_1_state : ℕ
  pub slave1_warning_2_state : ℕ
  pub slave2_warning_2_state : ℕ
  pub slave3_warning_2_state : ℕ
  pub slave1_error_state : ℕ
  pub slave2_error_state : ℕ
  pub slave3_error_state : ℕ
  pub slave1_laser_off_state : ℕ
  pub slave2_laser_off_state : ℕ
  pub slave3_laser_off_state : ℕ
  pub timestamp : ℕ
  pub optical_window_contaminated : ℕ
  pub reserved1 : Bytes

-- The members in the order of the source, with no padding: `#pragma pack(1)`.
abbrev pub status_data_layout : Layout
status_data_layout =
    field boolean
    ∷ field u16
    ∷ field boolean
    ∷ field u16
    ∷ field boolean
    ∷ field boolean
    ∷ field boolean
    ∷ field boolean
    ∷ field boolean
    ∷ field boolean
    ∷ field boolean
    ∷ chars 2
    ∷ field boolean
    ∷ field boolean
    ∷ field boolean
    ∷ field boolean
    ∷ field u32
    ∷ field boolean
    ∷ field boolean
    ∷ field boolean
    ∷ field boolean
    ∷ field boolean
    ∷ field boolean
    ∷ field boolean
    ∷ field boolean
    ∷ field boolean
    ∷ field boolean
    ∷ field boolean
    ∷ field boolean
    ∷ field boolean
    ∷ field boolean
    ∷ field boolean
    ∷ field boolean
    ∷ field boolean
    ∷ field boolean
    ∷ field boolean
    ∷ field u64
    ∷ field boolean
    ∷ chars 39
    ∷ []

-- The struct as it lies in memory at `base`.
unfoldable pub status_data_at : Bytes → ℕ → StatusData
status_data_at bs base = record {
  operating_mode = read_uint bs (base + offset_of status_data_layout 0) 1;
  area_number = read_uint bs (base + offset_of status_data_layout 1) 2;
  error_state = read_uint bs (base + offset_of status_data_layout 2) 1;
  error_code = read_uint bs (base + offset_of status_data_layout 3) 2;
  lockout_state = read_uint bs (base + offset_of status_data_layout 4) 1;
  ossd1_state = read_uint bs (base + offset_of status_data_layout 5) 1;
  ossd2_state = read_uint bs (base + offset_of status_data_layout 6) 1;
  warning1_state = read_uint bs (base + offset_of status_data_layout 7) 1;
  warning2_state = read_uint bs (base + offset_of status_data_layout 8) 1;
  ossd3_state = read_uint bs (base + offset_of status_data_layout 9) 1;
  ossd4_state = read_uint bs (base + offset_of status_data_layout 10) 1;
  reserved0 = slice bs (base + offset_of status_data_layout 11) 2;
  muting_state1 = read_uint bs (base + offset_of status_data_layout 12) 1;
  muting_state2 = read_uint bs (base + offset_of status_data_layout 13) 1;
  reset_request1 = read_uint bs (base + offset_of status_data_layout 14) 1;
  reset_request2 = read_uint bs (base + offset_of status_data_layout 15) 1;
  encoder_speed = read_uint bs (base + offset_of status_data_layout 16) 4;
  laser_state_off = read_uint bs (base + offset_of status_data_layout 17) 1;
  slave1_ossd1_2_state = read_uint bs (base + offset_of status_data_layout 18) 1;
  slave2_ossd1_2_state = read_uint bs (base + offset_of status_data_layout 19) 1;
  slave3_ossd1_2_state = read_uint bs (base + offset_of status_data_layout 20) 1;
  slave1_ossd3_4_state = read_uint bs (base + offset_of status_data_layout 21) 1;
  slave2_ossd3_4_state = read_uint bs (base + offset_of status_data_layout 22) 1;
  slave3_ossd3_4_state = read_uint bs (base + offset_of status_data_layout 23) 1;
  slave1_warning_1_state = read_uint bs (base + offset_of status_data_layout 24) 1;
  slave2_warning_1_state = read_uint bs (base + offset_of status_data_layout 25) 1;
  slave3_warning_1_state = read_uint bs (base + offset_of status_data_layout 26) 1;
  slave1_warning_2_state = read_uint bs (base + offset_of status_data_layout 27) 1;
  slave2_warning_2_state = read_uint bs (base + offset_of status_data_layout 28) 1;
  slave3_warning_2_state = read_uint bs (base + offset_of status_data_layout 29) 1;
  slave1_error_state = read_uint bs (base + offset_of status_data_layout 30) 1;
  slave2_error_state = read_uint bs (base + offset_of status_data_layout 31) 1;
  slave3_error_state = read_uint bs (base + offset_of status_data_layout 32) 1;
  slave1_laser_off_state = read_uint bs (base + offset_of status_data_layout 33) 1;
  slave2_laser_off_state = read_uint bs (base + offset_of status_data_layout 34) 1;
  slave3_laser_off_state = read_uint bs (base + offset_of status_data_layout 35) 1;
  timestamp = read_uint bs (base + offset_of status_data_layout 36) 8;
  optical_window_contaminated = read_uint bs (base + offset_of status_data_layout 37) 1;
  reserved1 = slice bs (base + offset_of status_data_layout 38) 39;
}
