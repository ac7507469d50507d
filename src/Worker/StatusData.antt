-- ===== src/Worker/StatusData.antt =====
-- The decoding of the data of the XR00 reply: `decodeStatusData` of
-- urg_node/src/uam/workers/xr00_worker.cpp on the struct, and on the text through `StatusDataVisitor` of
-- urg_node/include/uam/uam_visitors.h.
use urg_node.Prelude.{ℕ, ◌+◌, ◌%◌, ◌^◌, Option, some, ◌>>=◌}
use urg_node.Codec.Bytes.{Bytes}
use urg_node.Codec.Field.{boolean, u16, u32, u64, decode_field, decode_at}
use urg_node.Protocol.Layout.{offset_of}
use urg_node.Protocol.Status.{StatusData, status_data_layout}
use urg_node.Worker.Sensing.{offset_error_code}

-- `decodeStatusData(status_data)`.
unfoldable pub decode_status_data : StatusData → Option StatusData
decode_status_data status_data = do
  area_number ← decode_field u16 status_data.area_number
  encoder_speed ← decode_field u32 status_data.encoder_speed
  error_code ← decode_field u16 status_data.error_code
  error_state ← decode_field boolean status_data.error_state
  laser_state_off ← decode_field boolean status_data.laser_state_off
  lockout_state ← decode_field boolean status_data.lockout_state
  muting_state1 ← decode_field boolean status_data.muting_state1
  muting_state2 ← decode_field boolean status_data.muting_state2
  operating_mode ← decode_field boolean status_data.operating_mode
  optical_window_contaminated ← decode_field boolean status_data.optical_window_contaminated
  ossd1_state ← decode_field boolean status_data.ossd1_state
  ossd2_state ← decode_field boolean status_data.ossd2_state
  ossd3_state ← decode_field boolean status_data.ossd3_state
  ossd4_state ← decode_field boolean status_data.ossd4_state
  warning1_state ← decode_field boolean status_data.warning1_state
  warning2_state ← decode_field boolean status_data.warning2_state
  reset_request1 ← decode_field boolean status_data.reset_request1
  reset_request2 ← decode_field boolean status_data.reset_request2
  slave1_error_state ← decode_field boolean status_data.slave1_error_state
  slave1_laser_off_state ← decode_field boolean status_data.slave1_laser_off_state
  slave1_ossd1_2_state ← decode_field boolean status_data.slave1_ossd1_2_state
  slave1_ossd3_4_state ← decode_field boolean status_data.slave1_ossd3_4_state
  slave1_warning_1_state ← decode_field boolean status_data.slave1_warning_1_state
  slave1_warning_2_state ← decode_field boolean status_data.slave1_warning_2_state
  slave2_error_state ← decode_field boolean status_data.slave2_error_state
  slave2_laser_off_state ← decode_field boolean status_data.slave2_laser_off_state
  slave2_ossd1_2_state ← decode_field boolean status_data.slave2_ossd1_2_state
  slave2_ossd3_4_state ← decode_field boolean status_data.slave2_ossd3_4_state
  slave2_warning_1_state ← decode_field boolean status_data.slave2_warning_1_state
  slave2_warning_2_state ← decode_field boolean status_data.slave2_warning_2_state
  slave3_error_state ← decode_field boolean status_data.slave3_error_state
  slave3_laser_off_state ← decode_field boolean status_data.slave3_laser_off_state
  slave3_ossd1_2_state ← decode_field boolean status_data.slave3_ossd1_2_state
  slave3_ossd3_4_state ← decode_field boolean status_data.slave3_ossd3_4_state
  slave3_warning_1_state ← decode_field boolean status_data.slave3_warning_1_state
  slave3_warning_2_state ← decode_field boolean status_data.slave3_warning_2_state
  timestamp ← decode_field u64 status_data.timestamp
  some (record status_data {
    area_number = (area_number + 1) % 2 ^ 16;
    encoder_speed = encoder_speed;
    error_code = offset_error_code error_code;
    error_state = error_state;
    laser_state_off = laser_state_off;
    lockout_state = lockout_state;
    muting_state1 = muting_state1;
    muting_state2 = muting_state2;
    operating_mode = operating_mode;
    optical_window_contaminated = optical_window_contaminated;
    ossd1_state = ossd1_state;
    ossd2_state = ossd2_state;
    ossd3_state = ossd3_state;
    ossd4_state = ossd4_state;
    warning1_state = warning1_state;
    warning2_state = warning2_state;
    reset_request1 = reset_request1;
    reset_request2 = reset_request2;
    slave1_error_state = slave1_error_state;
    slave1_laser_off_state = slave1_laser_off_state;
    slave1_ossd1_2_state = slave1_ossd1_2_state;
    slave1_ossd3_4_state = slave1_ossd3_4_state;
    slave1_warning_1_state = slave1_warning_1_state;
    slave1_warning_2_state = slave1_warning_2_state;
    slave2_error_state = slave2_error_state;
    slave2_laser_off_state = slave2_laser_off_state;
    slave2_ossd1_2_state = slave2_ossd1_2_state;
    slave2_ossd3_4_state = slave2_ossd3_4_state;
    slave2_warning_1_state = slave2_warning_1_state;
    slave2_warning_2_state = slave2_warning_2_state;
    slave3_error_state = slave3_error_state;
    slave3_laser_off_state = slave3_laser_off_state;
    slave3_ossd1_2_state = slave3_ossd1_2_state;
    slave3_ossd3_4_state = slave3_ossd3_4_state;
    slave3_warning_1_state = slave3_warning_1_state;
    slave3_warning_2_state = slave3_warning_2_state;
    timestamp = timestamp;
  })

-- `decodeStatusData(buffer, status_data)`. Its visitor of the area number adds nothing.
unfoldable pub decode_status_data_at : ℕ → Bytes → StatusData → Option StatusData
decode_status_data_at idx_offset buffer status_data = do
  area_number ← decode_at u16 buffer (offset_of status_data_layout 1 + idx_offset) 0
  encoder_speed ← decode_at u32 buffer (offset_of status_data_layout 16 + idx_offset) 0
  error_code ← decode_at u16 buffer (offset_of status_data_layout 3 + idx_offset) 0
  error_state ← decode_at boolean buffer (offset_of status_data_layout 2 + idx_offset) 0
  laser_state_off ← decode_at boolean buffer (offset_of status_data_layout 17 + idx_offset) 0
  lockout_state ← decode_at boolean buffer (offset_of status_data_layout 4 + idx_offset) 0
  muting_state1 ← decode_at boolean buffer (offset_of status_data_layout 12 + idx_offset) 0
  muting_state2 ← decode_at boolean buffer (offset_of status_data_layout 13 + idx_offset) 0
  operating_mode ← decode_at boolean buffer (offset_of status_data_layout 0 + idx_offset) 0
  optical_window_contaminated ←
      decode_at boolean buffer (offset_of status_data_layout 37 + idx_offset) 0
  ossd1_state ← decode_at boolean buffer (offset_of status_data_layout 5 + idx_offset) 0
  ossd2_state ← decode_at boolean buffer (offset_of status_data_layout 6 + idx_offset) 0
  ossd3_state ← decode_at boolean buffer (offset_of status_data_layout 9 + idx_offset) 0
  ossd4_state ← decode_at boolean buffer (offset_of status_data_layout 10 + idx_offset) 0
  warning1_state ← decode_at boolean buffer (offset_of status_data_layout 7 + idx_offset) 0
  warning2_state ← decode_at boolean buffer (offset_of status_data_layout 8 + idx_offset) 0
  reset_request1 ← decode_at boolean buffer (offset_of status_data_layout 14 + idx_offset) 0
  reset_request2 ← decode_at boolean buffer (offset_of status_data_layout 15 + idx_offset) 0
  slave1_error_state ← decode_at boolean buffer (offset_of status_data_layout 30 + idx_offset) 0
  slave1_laser_off_state ← decode_at boolean buffer (offset_of status_data_layout 33 + idx_offset) 0
  slave1_ossd1_2_state ← decode_at boolean buffer (offset_of status_data_layout 18 + idx_offset) 0
  slave1_ossd3_4_state ← decode_at boolean buffer (offset_of status_data_layout 21 + idx_offset) 0
  slave1_warning_1_state ← decode_at boolean buffer (offset_of status_data_layout 24 + idx_offset) 0
  slave1_warning_2_state ← decode_at boolean buffer (offset_of status_data_layout 27 + idx_offset) 0
  slave2_error_state ← decode_at boolean buffer (offset_of status_data_layout 31 + idx_offset) 0
  slave2_laser_off_state ← decode_at boolean buffer (offset_of status_data_layout 34 + idx_offset) 0
  slave2_ossd1_2_state ← decode_at boolean buffer (offset_of status_data_layout 19 + idx_offset) 0
  slave2_ossd3_4_state ← decode_at boolean buffer (offset_of status_data_layout 22 + idx_offset) 0
  slave2_warning_1_state ← decode_at boolean buffer (offset_of status_data_layout 25 + idx_offset) 0
  slave2_warning_2_state ← decode_at boolean buffer (offset_of status_data_layout 28 + idx_offset) 0
  slave3_error_state ← decode_at boolean buffer (offset_of status_data_layout 32 + idx_offset) 0
  slave3_laser_off_state ← decode_at boolean buffer (offset_of status_data_layout 35 + idx_offset) 0
  slave3_ossd1_2_state ← decode_at boolean buffer (offset_of status_data_layout 20 + idx_offset) 0
  slave3_ossd3_4_state ← decode_at boolean buffer (offset_of status_data_layout 23 + idx_offset) 0
  slave3_warning_1_state ← decode_at boolean buffer (offset_of status_data_layout 26 + idx_offset) 0
  slave3_warning_2_state ← decode_at boolean buffer (offset_of status_data_layout 29 + idx_offset) 0
  timestamp ← decode_at u64 buffer (offset_of status_data_layout 36 + idx_offset) 0
  some (record status_data {
    area_number = area_number;
    encoder_speed = encoder_speed;
    error_code = offset_error_code error_code;
    error_state = error_state;
    laser_state_off = laser_state_off;
    lockout_state = lockout_state;
    muting_state1 = muting_state1;
    muting_state2 = muting_state2;
    operating_mode = operating_mode;
    optical_window_contaminated = optical_window_contaminated;
    ossd1_state = ossd1_state;
    ossd2_state = ossd2_state;
    ossd3_state = ossd3_state;
    ossd4_state = ossd4_state;
    warning1_state = warning1_state;
    warning2_state = warning2_state;
    reset_request1 = reset_request1;
    reset_request2 = reset_request2;
    slave1_error_state = slave1_error_state;
    slave1_laser_off_state = slave1_laser_off_state;
    slave1_ossd1_2_state = slave1_ossd1_2_state;
    slave1_ossd3_4_state = slave1_ossd3_4_state;
    slave1_warning_1_state = slave1_warning_1_state;
    slave1_warning_2_state = slave1_warning_2_state;
    slave2_error_state = slave2_error_state;
    slave2_laser_off_state = slave2_laser_off_state;
    slave2_ossd1_2_state = slave2_ossd1_2_state;
    slave2_ossd3_4_state = slave2_ossd3_4_state;
    slave2_warning_1_state = slave2_warning_1_state;
    slave2_warning_2_state = slave2_warning_2_state;
    slave3_error_state = slave3_error_state;
    slave3_laser_off_state = slave3_laser_off_state;
    slave3_ossd1_2_state = slave3_ossd1_2_state;
    slave3_ossd3_4_state = slave3_ossd3_4_state;
    slave3_warning_1_state = slave3_warning_1_state;
    slave3_warning_2_state = slave3_warning_2_state;
    timestamp = timestamp;
  })
