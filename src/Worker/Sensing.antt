-- ===== src/Worker/Sensing.antt =====
-- The decoding of the sensing data of the AR replies: `decodeSensingData` of
-- urg_node/include/uam/workers/uam_worker_base.h on the struct, and those of
-- urg_node/src/uam/workers/sensing_data on the text, through `SensingDataVisitor` of
-- urg_node/include/uam/uam_visitors.h.
use urg_node.Prelude.{ℕ, ◌+◌, ◌%◌, ◌^◌, Option, some, ◌>>=◌, ◌==◌, if◌then◌else◌}
use urg_node.Codec.Bytes.{Bytes}
use urg_node.Codec.Field.{boolean, u16, u32, u64, decode_field, decode_at}
use urg_node.Protocol.Layout.{offset_of}
use urg_node.Protocol.Sensing.{SensingDataHeader, sensing_data_layout}

-- "Grab the error code and offset by 0x40 if non-zero", on a `uint16_t`.
unfoldable pub offset_error_code : ℕ → ℕ
offset_error_code error_code = if error_code == 0 then 0 else (error_code + 0x40) % 2 ^ 16

-- `decodeSensingData(sensing_data)` of the base class.
unfoldable pub decode_sensing_data : SensingDataHeader → Option SensingDataHeader
decode_sensing_data sensing_data = do
  operating_mode ← decode_field boolean sensing_data.operating_mode
  area_number ← decode_field u16 sensing_data.area_number
  error_state ← decode_field boolean sensing_data.error_state
  error_code ← decode_field u16 sensing_data.error_code
  lockout_state ← decode_field boolean sensing_data.lockout_state
  ossd1_state ← decode_field boolean sensing_data.ossd1_state
  ossd2_state ← decode_field boolean sensing_data.ossd2_state
  warning1_state ← decode_field boolean sensing_data.warning1_state
  warning2_state ← decode_field boolean sensing_data.warning2_state
  ossd3_state ← decode_field boolean sensing_data.ossd3_state
  ossd4_state ← decode_field boolean sensing_data.ossd4_state
  muting_state1 ← decode_field boolean sensing_data.muting_state1
  muting_state2 ← decode_field boolean sensing_data.muting_state2
  reset_request1 ← decode_field boolean sensing_data.reset_request1
  reset_request2 ← decode_field boolean sensing_data.reset_request2
  encoder_speed ← decode_field u32 sensing_data.encoder_speed
  timestamp ← decode_field u64 sensing_data.timestamp
  laser_state_off ← decode_field boolean sensing_data.laser_state_off
  optical_window_contaminated ← decode_field boolean sensing_data.optical_window_contaminated
  some (record sensing_data {
    operating_mode = operating_mode;
    area_number = (area_number + 1) % 2 ^ 16;
    error_state = error_state;
    error_code = offset_error_code error_code;
    lockout_state = lockout_state;
    ossd1_state = ossd1_state;
    ossd2_state = ossd2_state;
    warning1_state = warning1_state;
    warning2_state = warning2_state;
    ossd3_state = ossd3_state;
    ossd4_state = ossd4_state;
    muting_state1 = muting_state1;
    muting_state2 = muting_state2;
    reset_request1 = reset_request1;
    reset_request2 = reset_request2;
    encoder_speed = encoder_speed;
    timestamp = timestamp;
    laser_state_off = laser_state_off;
    optical_window_contaminated = optical_window_contaminated;
  })

-- `decodeSensingData(buffer, sensing_data)` of AR00 and AR01, which are the same text. The visitor of
-- the area number adds 1.
unfoldable pub decode_sensing_data_at : ℕ → Bytes → SensingDataHeader → Option SensingDataHeader
decode_sensing_data_at idx_offset buffer sensing_data = do
  operating_mode ← decode_at boolean buffer (offset_of sensing_data_layout 0 + idx_offset) 0
  area_number ← decode_at u16 buffer (offset_of sensing_data_layout 1 + idx_offset) 1
  error_state ← decode_at boolean buffer (offset_of sensing_data_layout 2 + idx_offset) 0
  error_code ← decode_at u16 buffer (offset_of sensing_data_layout 3 + idx_offset) 0
  lockout_state ← decode_at boolean buffer (offset_of sensing_data_layout 4 + idx_offset) 0
  ossd1_state ← decode_at boolean buffer (offset_of sensing_data_layout 5 + idx_offset) 0
  ossd2_state ← decode_at boolean buffer (offset_of sensing_data_layout 6 + idx_offset) 0
  warning1_state ← decode_at boolean buffer (offset_of sensing_data_layout 7 + idx_offset) 0
  warning2_state ← decode_at boolean buffer (offset_of sensing_data_layout 8 + idx_offset) 0
  ossd3_state ← decode_at boolean buffer (offset_of sensing_data_layout 9 + idx_offset) 0
  ossd4_state ← decode_at boolean buffer (offset_of sensing_data_layout 10 + idx_offset) 0
  muting_state1 ← decode_at boolean buffer (offset_of sensing_data_layout 12 + idx_offset) 0
  muting_state2 ← decode_at boolean buffer (offset_of sensing_data_layout 13 + idx_offset) 0
  reset_request1 ← decode_at boolean buffer (offset_of sensing_data_layout 14 + idx_offset) 0
  reset_request2 ← decode_at boolean buffer (offset_of sensing_data_layout 15 + idx_offset) 0
  encoder_speed ← decode_at u32 buffer (offset_of sensing_data_layout 16 + idx_offset) 0
  timestamp ← decode_at u64 buffer (offset_of sensing_data_layout 17 + idx_offset) 0
  laser_state_off ← decode_at boolean buffer (offset_of sensing_data_layout 18 + idx_offset) 0
  optical_window_contaminated ←
      decode_at boolean buffer (offset_of sensing_data_layout 19 + idx_offset) 0
  some (record sensing_data {
    operating_mode = operating_mode;
    area_number = area_number;
    error_state = error_state;
    error_code = offset_error_code error_code;
    lockout_state = lockout_state;
    ossd1_state = ossd1_state;
    ossd2_state = ossd2_state;
    warning1_state = warning1_state;
    warning2_state = warning2_state;
    ossd3_state = ossd3_state;
    ossd4_state = ossd4_state;
    muting_state1 = muting_state1;
    muting_state2 = muting_state2;
    reset_request1 = reset_request1;
    reset_request2 = reset_request2;
    encoder_speed = encoder_speed;
    timestamp = timestamp;
    laser_state_off = laser_state_off;
    optical_window_contaminated = optical_window_contaminated;
  })

-- `decodeSensingData(buffer, sensing_data)` of AR06, which passes over half of the members.
unfoldable pub decode_multiecho_data_at : ℕ → Bytes → SensingDataHeader → Option SensingDataHeader
decode_multiecho_data_at idx_offset buffer sensing_data = do
  operating_mode ← decode_at boolean buffer (offset_of sensing_data_layout 0 + idx_offset) 0
  area_number ← decode_at u16 buffer (offset_of sensing_data_layout 1 + idx_offset) 1
  error_state ← decode_at boolean buffer (offset_of sensing_data_layout 2 + idx_offset) 0
  error_code ← decode_at u16 buffer (offset_of sensing_data_layout 3 + idx_offset) 0
  lockout_state ← decode_at boolean buffer (offset_of sensing_data_layout 4 + idx_offset) 0
  ossd1_state ← decode_at boolean buffer (offset_of sensing_data_layout 5 + idx_offset) 0
  ossd2_state ← decode_at boolean buffer (offset_of sensing_data_layout 6 + idx_offset) 0
  warning1_state ← decode_at boolean buffer (offset_of sensing_data_layout 7 + idx_offset) 0
  warning2_state ← decode_at boolean buffer (offset_of sensing_data_layout 8 + idx_offset) 0
  optical_window_contaminated ←
      decode_at boolean buffer (offset_of sensing_data_layout 19 + idx_offset) 0
  some (record sensing_data {
    operating_mode = operating_mode;
    area_number = area_number;
    error_state = error_state;
    error_code = offset_error_code error_code;
    lockout_state = lockout_state;
    ossd1_state = ossd1_state;
    ossd2_state = ossd2_state;
    warning1_state = warning1_state;
    warning2_state = warning2_state;
    optical_window_contaminated = optical_window_contaminated;
  })
