-- ===== src/Tests/Geometry.antt =====
-- The scan parameters of urg_node/include/uam/scan_params.h from the text of a reply to the PP command.
use urg_node.Prelude.{ℕ, ◌≡◌, ◌≢◌, refl, arith, true, some, none, List, [], ◌∷◌, ◌++◌, replicate}
use urg_node.Prelude.Int.{pos, ◌*ℤ◌, ◌-ℤ◌}
use urg_node.Codec.Bytes.{Bytes}
use urg_node.Tcp.{async_send, start_async_read_task, connect, async_read_data, disconnect}
use urg_node.Scan.{
  ScanParameters, limits_of_message, set_angle_limits, step2index, angle_index, index_angle,
  PpReply,
}
use urg_node.Scan.Limits.{IsWithin, RoundsOutwards, set_angle_limits-IsWithin}
use urg_node.Scan.Pp.{nr_lines}
use urg_node.Scan.Pp.Reading.{IsField}
use urg_node.Driver.{
  UamDriver, invalid, send_command_with_reply, packet_events, packet_event, process_command_reply,
}
use urg_node.Driver.Requests.{read_lines, get_scan_details, request_at_rest, with_reading}
use urg_node.Driver.Requests.Details.{get_scan_details-AreFields, request_at_rest-invalid}
use urg_node.Tests.Kermit.{kermit}
use urg_node.Tests.Client.{linked}
use urg_node.Tests.Driving.{idle, answering}
use urg_node.Tests.Platforms.{fractions}

abbrev sensor_reply : PpReply
sensor_reply = record {
  min_distance = pos 100;
  max_distance = pos 30_000;
  angular_resolution = pos 1440;
  first_step = pos 0;
  last_step = pos 1080;
  front_data_step = pos 540;
  rpm = pos 2400;
}

limits_example :
    let s = limits_of_message fractions sensor_reply in
    let s' = set_angle_limits fractions s (fractions.of_int (pos 0)) (fractions.of_int (pos 0)) in
    IsWithin fractions s'
    × (s'.first_step_limit ≡ s.first_step_limit)
    × (s'.last_step_limit ≡ s.last_step_limit)
unfolding limits_of_message
limits_example =
    set_angle_limits-IsWithin fractions (limits_of_message fractions sensor_reply)
      (fractions.of_int (pos 0)) (fractions.of_int (pos 0)) (omega arith)

-- A line with a name of one letter.
abbrev line : ℕ → Bytes → Bytes
line letter digits = letter ∷ b':' ∷ (digits ++ (b';' ∷ b'Q' ∷ []))

abbrev line_nearest : Bytes
line_nearest = line b'D' (b'1' ∷ b'0' ∷ b'0' ∷ [])

line_nearest-IsField : IsField line_nearest 100
line_nearest-IsField = record {
  name = b'D' ∷ [];
  digit = b'1';
  digits = b'0' ∷ b'0' ∷ [];
  tail = b'Q' ∷ [];
  line_eq = refl;
  no_colon = (λ e. absurd (omega arith), tt);
  are_digits = omega arith;
  value_eq = refl;
  value_lt = omega arith;
}

abbrev line_farthest : Bytes
line_farthest = line b'E' (b'3' ∷ b'0' ∷ b'0' ∷ b'0' ∷ b'0' ∷ [])

line_farthest-IsField : IsField line_farthest 30000
line_farthest-IsField = record {
  name = b'E' ∷ [];
  digit = b'3';
  digits = b'0' ∷ b'0' ∷ b'0' ∷ b'0' ∷ [];
  tail = b'Q' ∷ [];
  line_eq = refl;
  no_colon = (λ e. absurd (omega arith), tt);
  are_digits = omega arith;
  value_eq = refl;
  value_lt = omega arith;
}

abbrev line_resolution : Bytes
line_resolution = line b'G' (b'1' ∷ b'4' ∷ b'4' ∷ b'0' ∷ [])

line_resolution-IsField : IsField line_resolution 1440
line_resolution-IsField = record {
  name = b'G' ∷ [];
  digit = b'1';
  digits = b'4' ∷ b'4' ∷ b'0' ∷ [];
  tail = b'Q' ∷ [];
  line_eq = refl;
  no_colon = (λ e. absurd (omega arith), tt);
  are_digits = omega arith;
  value_eq = refl;
  value_lt = omega arith;
}

abbrev line_first : Bytes
line_first = line b'A' (b'0' ∷ [])

line_first-IsField : IsField line_first 0
line_first-IsField = record {
  name = b'A' ∷ [];
  digit = b'0';
  digits = [];
  tail = b'Q' ∷ [];
  line_eq = refl;
  no_colon = (λ e. absurd (omega arith), tt);
  are_digits = omega arith;
  value_eq = refl;
  value_lt = omega arith;
}

abbrev line_last : Bytes
line_last = line b'B' (b'1' ∷ b'0' ∷ b'8' ∷ b'0' ∷ [])

line_last-IsField : IsField line_last 1080
line_last-IsField = record {
  name = b'B' ∷ [];
  digit = b'1';
  digits = b'0' ∷ b'8' ∷ b'0' ∷ [];
  tail = b'Q' ∷ [];
  line_eq = refl;
  no_colon = (λ e. absurd (omega arith), tt);
  are_digits = omega arith;
  value_eq = refl;
  value_lt = omega arith;
}

abbrev line_front : Bytes
line_front = line b'F' (b'5' ∷ b'4' ∷ b'0' ∷ [])

line_front-IsField : IsField line_front 540
line_front-IsField = record {
  name = b'F' ∷ [];
  digit = b'5';
  digits = b'4' ∷ b'0' ∷ [];
  tail = b'Q' ∷ [];
  line_eq = refl;
  no_colon = (λ e. absurd (omega arith), tt);
  are_digits = omega arith;
  value_eq = refl;
  value_lt = omega arith;
}

abbrev line_rpm : Bytes
line_rpm = line b'R' (b'2' ∷ b'4' ∷ b'0' ∷ b'0' ∷ [])

line_rpm-IsField : IsField line_rpm 2400
line_rpm-IsField = record {
  name = b'R' ∷ [];
  digit = b'2';
  digits = b'4' ∷ b'0' ∷ b'0' ∷ [];
  tail = b'Q' ∷ [];
  line_eq = refl;
  no_colon = (λ e. absurd (omega arith), tt);
  are_digits = omega arith;
  value_eq = refl;
  value_lt = omega arith;
}

abbrev three_lines : Bytes
three_lines = b'P' ∷ b'P' ∷ 10 ∷ b'0' ∷ b'0' ∷ 10 ∷ b'M' ∷ 10 ∷ []

abbrev pp_text : Bytes
pp_text =
    three_lines
    ++ (line_nearest
        ++ (10 ∷ line_farthest
            ++ (10 ∷ line_resolution
                ++ (10 ∷ line_first
                    ++ (10 ∷ line_last
                        ++ (10 ∷ line_front ++ (10 ∷ line_rpm ++ (10 ∷ 10 ∷ []))))))))

abbrev pp_lines : List Bytes
pp_lines =
    (b'P' ∷ b'P' ∷ [])
    ∷ (b'0' ∷ b'0' ∷ [])
    ∷ (b'M' ∷ [])
    ∷ line_nearest
    ∷ line_farthest
    ∷ line_resolution
    ∷ line_first
    ∷ line_last
    ∷ line_front
    ∷ line_rpm
    ∷ []

pp_text_splits : read_lines nr_lines pp_text ≡ pp_lines
unfolding read_lines
pp_text_splits = refl

abbrev resting : UamDriver
resting = record idle { client = record linked { stopped = true; connected = true } }

outwards_first : RoundsOutwards fractions (pos 1440) (step2index fractions (pos 540) (pos 0))
unfolding step2index angle_index index_angle ◌*ℤ◌ ◌-ℤ◌
outwards_first = (λ h. omega arith, λ h. absurd (omega arith))

outwards_last : RoundsOutwards fractions (pos 1440) (step2index fractions (pos 540) (pos 1080))
unfolding step2index angle_index index_angle ◌*ℤ◌ ◌-ℤ◌
outwards_last = (λ h. absurd (omega arith), λ h. omega arith)

details_example :
    (s : ScanParameters fractions) × (get_scan_details fractions resting
        (record { sent = some 3; text = some pp_text })
      ≡ some s)
    × (s.first_step ≡ pos 0)
    × (s.last_step ≡ pos 1080)
details_example =
    get_scan_details-AreFields fractions resting pp_text (b'P' ∷ b'P' ∷ []) (b'0' ∷ b'0' ∷ [])
      (b'M' ∷ []) line_nearest line_farthest line_resolution line_first line_last line_front
      line_rpm 100 30_000 1440 0 1080 540 2400 refl refl pp_text_splits
      (
        line_nearest-IsField,
        (
          line_farthest-IsField,
          (
            line_resolution-IsField,
            (line_first-IsField, (line_last-IsField, (line_front-IsField, (line_rpm-IsField, tt)))),
          ),
        ),
      )
      outwards_first outwards_last (omega arith) (omega arith)

abbrev command : Bytes
command = replicate 14 b'0'

rest_answered : (request_at_rest kermit answering answering idle command).1 ≢ none
unfolding request_at_rest with_reading send_command_with_reply packet_events packet_event
    process_command_reply async_send start_async_read_task connect async_read_data disconnect
rest_answered = λ e. ground arith

rest_example :
    (request_at_rest kermit answering answering idle command).0.subscription_mode ≡ invalid
rest_example = request_at_rest-invalid kermit answering answering idle command rest_answered
