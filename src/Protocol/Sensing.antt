-- ===== src/Protocol/Sensing.antt =====
-- `SensingDataHeader` of urg_node/include/uam/protocol_types/uam_protocol_types.h: what the AR commands
-- answer before the distances. A member of type `bool` is the byte that it is stored in.
use urg_node.Prelude.{ℕ, ◌+◌, [], ◌∷◌}
use urg_node.Codec.Bytes.{Bytes, slice, read_uint}
use urg_node.Codec.Field.{boolean, u16, u32, u64}
use urg_node.Protocol.Layout.{Layout, field, chars, offset_of}

pub record SensingDataHeader : Type 0 where
  pub operating_mode : ℕ
  pub area_number : ℕ
  pub error_state : ℕ
  pub error_code : ℕ
  pub lockout_state : ℕ
  pub ossd1_state : ℕ
  pub ossd2_state : ℕ
  pub warning1_state : ℕ
  pub warning2_state : ℕ
  pub ossd3_state : ℕ
  pub ossd4_state : ℕ
  pub reserved0 : Bytes
  pub muting_state1 : ℕ
  pub muting_state2 : ℕ
  pub reset_request1 : ℕ
  pub reset_request2 : ℕ
  pub encoder_speed : ℕ
  pub timestamp : ℕ
  pub laser_state_off : ℕ
  pub optical_window_contaminated : ℕ
  pub reserved1 : Bytes

-- The members in the order of the source, with no padding: `#pragma pack(1)`.
abbrev pub sensing_data_layout : Layout
sensing_data_layout =
    field boolean
    ∷ field u16
    ∷ field boolean
    ∷ field u16
    ∷ field boolean
    ∷ field boolean
    ∷ field boolean
    ∷ field boolean
    ∷ field boolean
    ∷ field boolean
    ∷ field boolean
    ∷ chars 2
    ∷ field boolean
    ∷ field boolean
    ∷ field boolean
    ∷ field boolean
    ∷ field u32
    ∷ field u64
    ∷ field boolean
    ∷ field boolean
    ∷ chars 6
    ∷ []

-- The struct as it lies in memory at `base`.
unfoldable pub sensing_data_at : Bytes → ℕ → SensingDataHeader
sensing_data_at bs base = record {
  operating_mode = read_uint bs (base + offset_of sensing_data_layout 0) 1;
  area_number = read_uint bs (base + offset_of sensing_data_layout 1) 2;
  error_state = read_uint bs (base + offset_of sensing_data_layout 2) 1;
  error_code = read_uint bs (base + offset_of sensing_data_layout 3) 2;
  lockout_state = read_uint bs (base + offset_of sensing_data_layout 4) 1;
  ossd1_state = read_uint bs (base + offset_of sensing_data_layout 5) 1;
  ossd2_state = read_uint bs (base + offset_of sensing_data_layout 6) 1;
  warning1_state = read_uint bs (base + offset_of sensing_data_layout 7) 1;
  warning2_state = read_uint bs (base + offset_of sensing_data_layout 8) 1;
  ossd3_state = read_uint bs (base + offset_of sensing_data_layout 9) 1;
  ossd4_state = read_uint bs (base + offset_of sensing_data_layout 10) 1;
  reserved0 = slice bs (base + offset_of sensing_data_layout 11) 2;
  muting_state1 = read_uint bs (base + offset_of sensing_data_layout 12) 1;
  muting_state2 = read_uint bs (base + offset_of sensing_data_layout 13) 1;
  reset_request1 = read_uint bs (base + offset_of sensing_data_layout 14) 1;
  reset_request2 = read_uint bs (base + offset_of sensing_data_layout 15) 1;
  encoder_speed = read_uint bs (base + offset_of sensing_data_layout 16) 4;
  timestamp = read_uint bs (base + offset_of sensing_data_layout 17) 8;
  laser_state_off = read_uint bs (base + offset_of sensing_data_layout 18) 1;
  optical_window_contaminated = read_uint bs (base + offset_of sensing_data_layout 19) 1;
  reserved1 = slice bs (base + offset_of sensing_data_layout 20) 6;
}
