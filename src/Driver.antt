-- ===== src/Driver.antt =====
-- `UamDriver` of urg_node/include/uam/uam_driver.h and urg_node/src/uam/uam_driver.cpp: commands that wait for
-- their reply, and the mode of the subscription. What a command meets comes from outside: the count of bytes
-- that were sent in time, and the replies that are processed before the wait ends.
pub mod Streaming
pub mod SafetyArea
pub mod Requests
use urg_node.Prelude.{
  ℕ, ◌-◌, Bool, true, false, not, Option, none, some, List, [], ◌∷◌, ◌==◌, if◌then◌else◌,
}
use urg_node.Codec.Bytes.{Bytes}
use urg_node.Protocol.Area.{EyrAreaType}
use urg_node.Worker.Crc.{Crc}
use urg_node.Worker.Request.{get_command, get_yr_command}
use urg_node.Dispatch.{
  Event, got_ar00, got_ar01, got_ar06, got_empty, got_vr00, got_xr00, got_id00, got_yr,
}
use urg_node.Tcp.{TcpClient, start_async_read_task, async_send}

-- `ESubscriptionMode`.
pub data ESubscriptionMode : Type 0 where
  invalid mode_ar02 mode_ar04 mode_ar07 : ESubscriptionMode

-- `pending_command_reply` is the reply that lies in the memory of the packet.
pub record UamDriver : Type 0 where
  pub client : TcpClient
  pub subscription_mode : ESubscriptionMode
  pub pending_command_reply_ready : Bool
  pub pending_command_reply : Option Event

-- What a command meets.
pub record Surroundings : Type 0 where
  pub sent : Option ℕ
  pub arrivals : List Event

-- `isTheSensorStreaming()`.
abbrev pub is_the_sensor_streaming : UamDriver → Bool
is_the_sensor_streaming d = elim d.subscription_mode [ invalid ↦ false | _ ↦ true ]

-- `processCommandReply(packet)`, the callback of every worker but AR00, AR01 and AR06.
unfoldable pub process_command_reply : UamDriver → Event → UamDriver
process_command_reply d event = record d {
  pending_command_reply = some event;
  pending_command_reply_ready = true;
}

-- The callback that an event is for. Those of the scans are not the driver's.
unfoldable pub packet_event : UamDriver → Event → UamDriver
packet_event d (got_ar00 r) = d
packet_event d (got_ar01 r) = d
packet_event d (got_ar06 r) = d
packet_event d (got_empty worker r) = process_command_reply d (got_empty worker r)
packet_event d (got_vr00 r) = process_command_reply d (got_vr00 r)
packet_event d (got_xr00 r) = process_command_reply d (got_xr00 r)
packet_event d (got_id00 r) = process_command_reply d (got_id00 r)
packet_event d (got_yr r) = process_command_reply d (got_yr r)

unfoldable pub packet_events : UamDriver → List Event → UamDriver
packet_events d [] = d
packet_events d (event ∷ events) = packet_events (packet_event d event) events

-- `sendCommandWithReply(timeout, args)` with the encoded command; `none` is an exception.
unfoldable pub send_command_with_reply : UamDriver → Surroundings → Bytes → UamDriver × Option Event
send_command_with_reply d around command =
    let waiting = record d { pending_command_reply_ready = false } in
    let served = packet_events waiting around.arrivals in
    if not d.client.connected
    then (d, none)
    else if not (async_send d.client command around.sent)
    then (waiting, none)
    else if served.pending_command_reply_ready
    then (served, served.pending_command_reply)
    else (served, none)

-- The end of `subscribe` and `unsubscribe`: the mode changes unless an exception is on its way. The result is
-- whether there was none.
abbrev pub then_mode : ESubscriptionMode → UamDriver × Option Event → UamDriver × Bool
then_mode mode (d, none) = (d, false)
then_mode mode (d, some event) = (record d { subscription_mode = mode }, true)

-- The command with the sub header that ends with the given digit.
abbrev pub ar_command : Crc → ℕ → Bytes
ar_command crc digit = get_command crc (b'A', b'R') (b'0', digit)

-- `subscribe<TWorker>()`, with `TypeToEnum` written out.
unfoldable pub subscribe : Crc → Surroundings → UamDriver → ESubscriptionMode → UamDriver × Bool
subscribe crc around d mode = elim mode [
  | mode_ar02 ↦ then_mode mode_ar02 (send_command_with_reply d around (ar_command crc b'2'))
  | mode_ar04 ↦ then_mode mode_ar04 (send_command_with_reply d around (ar_command crc b'4'))
  | mode_ar07 ↦ then_mode mode_ar07 (send_command_with_reply d around (ar_command crc b'7'))
  | invalid ↦ (d, true)
]

abbrev pub chosen_mode : Bool → Bool → ESubscriptionMode
chosen_mode publish_intensity publish_multiecho =
    if publish_intensity then mode_ar04 else if publish_multiecho then mode_ar07 else mode_ar02

-- `startStreaming(publish_intensity, publish_multiecho)`.
unfoldable pub start_streaming : Crc → Surroundings → UamDriver → Bool → Bool → UamDriver × Bool
start_streaming crc around d publish_intensity publish_multiecho =
    if is_the_sensor_streaming d
    then (d, true)
    else (let (client, started) = start_async_read_task d.client in
        let d' = record d { client = client } in
        if not started
        then (d', false)
        else subscribe crc around d' (chosen_mode publish_intensity publish_multiecho))

-- The `switch` of `stopStreaming()`, with the calls of `unsubscribe`. For AR07 it sends AR06.
unfoldable pub unsubscribe : Crc → Surroundings → UamDriver → ESubscriptionMode → UamDriver × Bool
unsubscribe crc around d mode = elim mode [
  | invalid ↦ (d, true)
  | mode_ar02 ↦ then_mode invalid (send_command_with_reply d around (ar_command crc b'3'))
  | mode_ar04 ↦ then_mode invalid (send_command_with_reply d around (ar_command crc b'5'))
  | mode_ar07 ↦ then_mode invalid (send_command_with_reply d around (ar_command crc b'6'))
]

-- `stopStreaming()`.
unfoldable pub stop_streaming : Crc → Surroundings → UamDriver → UamDriver × Bool
stop_streaming crc around d = unsubscribe crc around d d.subscription_mode

-- The numbers of `getSafetyArea`, counted from 0 on the wire.
abbrev pub adjusted : ℕ → ℕ
adjusted n = if n == 0 then n else n - 1

-- `getSafetyArea(area_type, area_number, start_step, end_step)`.
abbrev pub safety_area_command : Crc → EyrAreaType → ℕ → ℕ → ℕ → Bytes
safety_area_command crc area_type area_number start_step end_step =
    get_yr_command crc area_type (adjusted area_number) (adjusted start_step) (adjusted end_step)

unfoldable pub get_safety_area :
    Crc → Surroundings → UamDriver → EyrAreaType → ℕ → ℕ → ℕ → UamDriver × Option Event
get_safety_area crc around d area_type area_number start_step end_step =
    let client = if d.client.stopped then (start_async_read_task d.client).0 else d.client in
    send_command_with_reply (record d { client = client }) around
      (safety_area_command crc area_type area_number start_step end_step)
