-- ===== src/Driver/Requests/Details.antt =====
-- The details of a scan and the status of the sensor, as urg_node/src/uam/uam_driver.cpp asks for them.
use urg_node.Prelude.{
  ℕ, ◌<◌, ◌≤◌, ◌≡◌, ◌≢◌, refl, arith, Bool, true, false, not, none, some, List, [], ◌∷◌,
  if◌then◌else◌, ap, ◌∙◌, ◌>>=◌, if-false,
}
use urg_node.Prelude.Int.{pos}
use urg_node.Prelude.Real.{Arith}
use urg_node.Codec.Bytes.{Bytes}
use urg_node.Worker.Crc.{Crc}
use urg_node.Tcp.{async_send}
use urg_node.Scan.{PpReply, ScanParameters, from_message, step2index}
use urg_node.Scan.Limits.{RoundsOutwards, from_message-full}
use urg_node.Scan.Pp.{decode_pp, nr_lines}
use urg_node.Scan.Pp.Reading.{AreFields, decode_pp-AreFields}
use urg_node.Driver.{
  UamDriver, Surroundings, invalid, stop_streaming, is_the_sensor_streaming,
  send_command_with_reply,
}
use urg_node.Driver.Streaming.{send-mode, stop_streaming_lem}
use urg_node.Driver.Requests.{
  PpSurroundings, read_lines, send_pp_command_with_reply, get_scan_details, request_at_rest,
  with_reading,
}

send_pp-decode_pp :
    (d : UamDriver) (text : Bytes) (lines : List Bytes) (reply : PpReply)
    → d.client.connected ≡ true
    → d.client.stopped ≡ true
    → read_lines nr_lines text ≡ lines
    → decode_pp lines ≡ some (some reply)
    → send_pp_command_with_reply d.client (record { sent = some 3; text = some text }) ≡ some reply
unfolding send_pp_command_with_reply async_send
send_pp-decode_pp d text lines reply connected stopped split decoded =
    let c = d.client in
    let went : async_send c (b'P' ∷ b'P' ∷ 10 ∷ []) (some 3) ≡ true =
      if-false (not c.connected) false true (ap not connected) in
    if-false (not c.connected) none _ (ap not connected)
    ∙ if-false (not (async_send c (b'P' ∷ b'P' ∷ 10 ∷ []) (some 3))) none _ (ap not went)
    ∙ if-false (not c.stopped) none _ (ap not stopped)
    ∙ ap (λ ls. decode_pp ls >>= λ r. r) split
    ∙ ap (λ r. r >>= λ answer. answer) decoded

get_scan_details-from_message :
    (a : Arith) (d : UamDriver) (around : PpSurroundings) (reply : PpReply)
    → d.client.stopped ≡ true
    → send_pp_command_with_reply d.client around ≡ some reply
    → get_scan_details a d around ≡ some (from_message a reply)
unfolding get_scan_details
get_scan_details-from_message a d around reply stopped sent =
    if-false (not d.client.stopped) none _ (ap not stopped)
    ∙ ap (λ r. r >>= λ answer. some (from_message a answer)) sent

-- If a connected client that does not read sends the PP command and gets a text of ten lines, of
-- which the last seven have a number below 2 ^ 31 in digits between the first colon and a
-- semicolon, with the first step below the front step, that one at most the last step, and an
-- arithmetic that rounds the angles of both back to them or outwards, then `getScanDetails` gives
-- parameters that scan from the first to the last of these steps.
pub get_scan_details-AreFields :
    (a : Arith) (d : UamDriver) (text l0 l1 l2 l3 l4 l5 l6 l7 l8 l9 : Bytes)
    (nearest farthest resolution first last front rpm : ℕ)
    → d.client.connected ≡ true
    → d.client.stopped ≡ true
    → read_lines nr_lines text ≡ l0 ∷ l1 ∷ l2 ∷ l3 ∷ l4 ∷ l5 ∷ l6 ∷ l7 ∷ l8 ∷ l9 ∷ []
    → AreFields
        (l3 ∷ l4 ∷ l5 ∷ l6 ∷ l7 ∷ l8 ∷ l9 ∷ [])
        (nearest ∷ farthest ∷ resolution ∷ first ∷ last ∷ front ∷ rpm ∷ [])
    → RoundsOutwards a (pos resolution) (step2index a (pos front) (pos first))
    → RoundsOutwards a (pos resolution) (step2index a (pos front) (pos last))
    → first < front
    → front ≤ last
    → (s : ScanParameters a) × (get_scan_details a d (record { sent = some 3; text = some text })
        ≡ some s)
      × (s.first_step ≡ pos first)
      × (s.last_step ≡ pos last)
get_scan_details-AreFields a d text l0 l1 l2 l3 l4 l5 l6 l7 l8 l9 nearest farthest resolution first
      last front rpm connected stopped split fields round1 round2 h1 h2 =
    let lines = l0 ∷ l1 ∷ l2 ∷ l3 ∷ l4 ∷ l5 ∷ l6 ∷ l7 ∷ l8 ∷ l9 ∷ [] in
    let reply : PpReply = record {
      min_distance = pos nearest;
      max_distance = pos farthest;
      angular_resolution = pos resolution;
      first_step = pos first;
      last_step = pos last;
      front_data_step = pos front;
      rpm = pos rpm;
    } in
    let decoded : decode_pp lines ≡ some (some reply) =
      decode_pp-AreFields l0 l1 l2 l3 l4 l5 l6 l7 l8 l9 nearest farthest resolution first last front
        rpm fields in
    let steps = from_message-full a reply round1 round2 (omega arith) (omega arith) in
    (
      from_message a reply,
      get_scan_details-from_message a d _ reply stopped
          (send_pp-decode_pp d text lines reply connected stopped split decoded),
      steps.0,
      steps.1,
    )

not_streaming : (d : UamDriver) → is_the_sensor_streaming d ≡ false → d.subscription_mode ≡ invalid
not_streaming d e = ground arith

-- The end of a request, once the stream was to be stopped.
request_end :
    (r : UamDriver × Bool) (around : Surroundings) (command : Bytes)
    → (r.1 ≡ true → r.0.subscription_mode ≡ invalid)
    → let answer = if r.1 then send_command_with_reply r.0 around command else (r.0, none) in
      answer.1 ≢ none → answer.0.subscription_mode ≡ invalid
request_end (d, true) around command h some_answer = send-mode d around command ∙ h refl
request_end (d, false) around command h some_answer = absurd (some_answer refl)

-- If a request that stops the stream first gets a reply, the mode of the subscription is INVALID at
-- its end.
pub request_at_rest-invalid :
    (crc : Crc) (before around : Surroundings) (d : UamDriver) (command : Bytes)
    → (request_at_rest crc before around d command).1 ≢ none
    → (request_at_rest crc before around d command).0.subscription_mode ≡ invalid
unfolding request_at_rest
request_at_rest-invalid crc before around d command answered =
    let d1 = with_reading d in
    let stopped = if is_the_sensor_streaming d1 then stop_streaming crc before d1 else (d1, true) in
    request_end stopped around command (at_rest (is_the_sensor_streaming d1) refl) answered
  where
    at_rest :
        (b : Bool)
        → is_the_sensor_streaming (with_reading d) ≡ b
        → let r =
            if b then stop_streaming crc before (with_reading d) else (with_reading d, true) in
          r.1 ≡ true → r.0.subscription_mode ≡ invalid
    at_rest true e = (stop_streaming_lem crc before (with_reading d)).0
    at_rest false e = λ _. not_streaming (with_reading d) e
