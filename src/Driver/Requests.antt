-- ===== src/Driver/Requests.antt =====
-- The requests for details of the sensor: `getVersionDetails`, `getSensorStatus`, `getConfigurationId`,
-- `getScanDetails` and `sendPPCommandWithReply` of urg_node/src/uam/uam_driver.cpp, with `asyncReadLine` of
-- urg_node/include/uam/io/tcp_client.h.
pub mod Details
use urg_node.Prelude.{
  ℕ, zero, suc, Bool, true, false, not, Option, none, some, List, [], ◌∷◌, ◌==◌, if◌then◌else◌,
  ◌>>=◌, replicate,
}
use urg_node.Prelude.Real.{Arith}
use urg_node.Codec.Bytes.{Bytes}
use urg_node.Protocol.Sensing.{SensingDataHeader}
use urg_node.Protocol.Status.{StatusData}
use urg_node.Protocol.Replies.{
  Vr00CommandReply, Xr00CommandReply, Id00CommandReply, ConfigurationId,
}
use urg_node.Worker.Crc.{Crc}
use urg_node.Worker.Request.{get_command}
use urg_node.Dispatch.{Event, got_vr00, got_xr00, got_id00}
use urg_node.Tcp.{TcpClient, start_async_read_task, async_send}
use urg_node.Scan.{PpReply, ScanParameters, from_message}
use urg_node.Scan.Pp.{decode_pp, nr_lines}
use urg_node.Driver.{
  UamDriver, Surroundings, send_command_with_reply, stop_streaming, is_the_sensor_streaming,
}

-- The client reads, which a request starts if it does not.
unfoldable pub with_reading : UamDriver → UamDriver
with_reading d = record d {
  client = if d.client.stopped then (start_async_read_task d.client).0 else d.client;
}

-- The reply of a type that a request waits for. A late reply of another type is read as if it were of
-- that type, which is `none` here.
abbrev pub as_vr00 : Event → Option Vr00CommandReply
as_vr00 (got_vr00 r) = some r
as_vr00 event = none

abbrev pub as_xr00 : Event → Option Xr00CommandReply
as_xr00 (got_xr00 r) = some r
as_xr00 event = none

abbrev pub as_id00 : Event → Option Id00CommandReply
as_id00 (got_id00 r) = some r
as_id00 event = none

-- `getVersionDetails()`; `none` is an exception.
unfoldable pub get_version_details :
    Crc → Surroundings → UamDriver → UamDriver × Option Vr00CommandReply
unfolding with_reading
get_version_details crc around d =
    let (d', event) =
      send_command_with_reply (with_reading d) around (get_command crc (b'V', b'R') (b'0', b'0')) in
    (d', event >>= as_vr00)

-- A request that stops the stream first: `before` is what the command that stops it meets.
unfoldable pub request_at_rest :
    Crc → Surroundings → Surroundings → UamDriver → Bytes → UamDriver × Option Event
unfolding with_reading stop_streaming
request_at_rest crc before around d command =
    let d1 = with_reading d in
    let (d2, ok) =
      if is_the_sensor_streaming d1 then stop_streaming crc before d1 else (d1, true) in
    if ok then send_command_with_reply d2 around command else (d2, none)

-- The status that `getSensorStatus` copies, on top of a new struct.
unfoldable pub sensor_status : SensingDataHeader → StatusData → SensingDataHeader
sensor_status status s = record status {
  area_number = s.area_number;
  error_code = s.error_code;
  error_state = s.error_state;
  lockout_state = s.lockout_state;
  operating_mode = s.operating_mode;
  optical_window_contaminated = s.optical_window_contaminated;
  ossd1_state = s.ossd1_state;
  ossd2_state = s.ossd1_state;
  warning1_state = s.warning1_state;
  warning2_state = s.warning2_state;
}

-- `getSensorStatus()`: `fresh` is what the new struct holds.
unfoldable pub get_sensor_status :
    Crc
    → SensingDataHeader
    → Surroundings
    → Surroundings
    → UamDriver
    → UamDriver × Option SensingDataHeader
unfolding request_at_rest sensor_status
get_sensor_status crc fresh before around d =
    let (d', event) =
      request_at_rest crc before around d (get_command crc (b'X', b'R') (b'0', b'0')) in
    (d', event >>= as_xr00 >>= λ r. some (sensor_status fresh r.status_data))

-- `getConfigurationId()`.
unfoldable pub get_configuration_id :
    Crc → Surroundings → Surroundings → UamDriver → UamDriver × Option ConfigurationId
unfolding request_at_rest
get_configuration_id crc before around d =
    let (d', event) =
      request_at_rest crc before around d (get_command crc (b'I', b'D') (b'0', b'0')) in
    (d', event >>= as_id00 >>= λ r. some r.config_id)

-- `std::getline` on the bytes of a stream: the line and the rest, none at the end.
unfoldable pub split_line : Bytes → Bytes × Bytes
split_line [] = ([], [])
split_line (c ∷ cs) =
    let (line, rest) = split_line cs in if c == 10 then ([], cs) else (c ∷ line, rest)

-- The loop of `asyncReadLine` that fills the lines of a reply: those that do not come stay empty.
unfoldable pub read_lines : ℕ → Bytes → List Bytes
unfolding split_line
read_lines zero text = []
read_lines (suc n) text = elim text [
  | [] ↦ replicate (suc n) []
  | c ∷ cs ↦ let (line, rest) = split_line (c ∷ cs) in line ∷ read_lines n rest
]

-- What the PP command meets: the bytes that were sent in time, and the text that is read, if any.
pub record PpSurroundings : Type 0 where
  pub sent : Option ℕ
  pub text : Option Bytes

-- `sendPPCommandWithReply(timeout)`; `none` is an exception. A text that is no reply is no answer,
-- and neither is one whose number ends the reading thread with an exception of `std::stoi`.
unfoldable pub send_pp_command_with_reply : TcpClient → PpSurroundings → Option PpReply
unfolding read_lines decode_pp
send_pp_command_with_reply client around =
    if not client.connected
    then none
    else if not (async_send client (b'P' ∷ b'P' ∷ 10 ∷ []) around.sent)
    then none
    else if not client.stopped
    then none
    else around.text >>= λ text. decode_pp (read_lines nr_lines text) >>= λ reply. reply

-- `getScanDetails()`.
unfoldable pub get_scan_details :
    (a : Arith) → UamDriver → PpSurroundings → Option (ScanParameters a)
unfolding send_pp_command_with_reply from_message
get_scan_details a d around =
    if not d.client.stopped
    then none
    else send_pp_command_with_reply d.client around >>= λ reply. some (from_message a reply)
