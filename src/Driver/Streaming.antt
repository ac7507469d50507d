-- ===== src/Driver/Streaming.antt =====
-- The mode of the subscription of urg_node/src/uam/uam_driver.cpp, with its exceptions.
use urg_node.Prelude.{
  ◌≡◌, ◌≢◌, refl, ◌∙◌, Bool, true, false, not, Option, none, some, List, [], ◌∷◌, All,
  if◌then◌else◌, if-holds, subst, arith,
}
use urg_node.Codec.Bytes.{Bytes}
use urg_node.Worker.Crc.{Crc}
use urg_node.Dispatch.{
  Event, got_ar00, got_ar01, got_ar06, got_empty, got_vr00, got_xr00, got_id00, got_yr,
}
use urg_node.Tcp.{start_async_read_task}
use urg_node.Driver.{
  ESubscriptionMode, invalid, mode_ar02, mode_ar04, mode_ar07, UamDriver, Surroundings,
  process_command_reply, packet_event, packet_events, send_command_with_reply, then_mode,
  ar_command, subscribe, chosen_mode, start_streaming, unsubscribe, stop_streaming,
  is_the_sensor_streaming,
}

-- The data of a scan, which no command waits for.
abbrev pub IsScan : Event → Type 0
IsScan (got_ar00 r) = Unit
IsScan (got_ar01 r) = Unit
IsScan (got_ar06 r) = Unit
IsScan e = ⊥

packet_event-mode :
    (d : UamDriver) (e : Event) → (packet_event d e).subscription_mode ≡ d.subscription_mode
unfolding packet_event process_command_reply
packet_event-mode d (got_ar00 r) = refl
packet_event-mode d (got_ar01 r) = refl
packet_event-mode d (got_ar06 r) = refl
packet_event-mode d (got_empty worker r) = refl
packet_event-mode d (got_vr00 r) = refl
packet_event-mode d (got_xr00 r) = refl
packet_event-mode d (got_id00 r) = refl
packet_event-mode d (got_yr r) = refl

packet_events-mode :
    (d : UamDriver) (es : List Event) → (packet_events d es).subscription_mode ≡ d.subscription_mode
unfolding packet_events
packet_events-mode d [] = refl
packet_events-mode d (e ∷ es) = packet_events-mode (packet_event d e) es ∙ packet_event-mode d e

-- Scans leave the driver as it is.
packet_events-IsScan : (d : UamDriver) (es : List Event) → All IsScan es → packet_events d es ≡ d
unfolding packet_events packet_event
packet_events-IsScan d [] h = refl
packet_events-IsScan d (got_ar00 r ∷ es) h = packet_events-IsScan d es h.1
packet_events-IsScan d (got_ar01 r ∷ es) h = packet_events-IsScan d es h.1
packet_events-IsScan d (got_ar06 r ∷ es) h = packet_events-IsScan d es h.1
packet_events-IsScan d (got_empty worker r ∷ es) h = absurd h.0
packet_events-IsScan d (got_vr00 r ∷ es) h = absurd h.0
packet_events-IsScan d (got_xr00 r ∷ es) h = absurd h.0
packet_events-IsScan d (got_id00 r ∷ es) h = absurd h.0
packet_events-IsScan d (got_yr r ∷ es) h = absurd h.0

pub send-mode :
    (d : UamDriver) (around : Surroundings) (command : Bytes)
    → (send_command_with_reply d around command).0.subscription_mode ≡ d.subscription_mode
unfolding send_command_with_reply
send-mode d around command =
    let served =
      packet_events-mode (record d { pending_command_reply_ready = false }) around.arrivals in
    ground arith

send-IsScan :
    (d : UamDriver) (around : Surroundings) (command : Bytes)
    → All IsScan around.arrivals
    → (send_command_with_reply d around command).1 ≡ none
unfolding send_command_with_reply
send-IsScan d around command h =
    let served =
      packet_events-IsScan (record d { pending_command_reply_ready = false }) around.arrivals h in
    rw (served, send_command_with_reply) (ground arith)

-- The mode after a command, by whether there was an exception.
abbrev ModeAfter : ESubscriptionMode → ESubscriptionMode → UamDriver × Bool → Type 0
ModeAfter before after r =
    (r.1 ≡ true → r.0.subscription_mode ≡ after) × (r.1 ≡ false → r.0.subscription_mode ≡ before)

then_mode-ModeAfter :
    (before mode : ESubscriptionMode) (r : UamDriver × Option Event)
    → r.0.subscription_mode ≡ before
    → ModeAfter before mode (then_mode mode r)
then_mode-ModeAfter before mode (d, none) e = (λ h. absurd (ground arith), λ h. e)
then_mode-ModeAfter before mode (d, some event) e = (λ h. refl, λ h. absurd (ground arith))

subscribe-ModeAfter :
    (crc : Crc) (around : Surroundings) (d : UamDriver) (mode : ESubscriptionMode)
    → mode ≢ invalid
    → ModeAfter d.subscription_mode mode (subscribe crc around d mode)
unfolding subscribe
subscribe-ModeAfter crc around d invalid h = absurd (h refl)
subscribe-ModeAfter crc around d mode_ar02 h =
    then_mode-ModeAfter d.subscription_mode mode_ar02 _ (send-mode d around (ar_command crc b'2'))
subscribe-ModeAfter crc around d mode_ar04 h =
    then_mode-ModeAfter d.subscription_mode mode_ar04 _ (send-mode d around (ar_command crc b'4'))
subscribe-ModeAfter crc around d mode_ar07 h =
    then_mode-ModeAfter d.subscription_mode mode_ar07 _ (send-mode d around (ar_command crc b'7'))

chosen_mode-valid : (i m : Bool) → chosen_mode i m ≢ invalid
chosen_mode-valid true m = λ e. ground arith
chosen_mode-valid false true = λ e. ground arith
chosen_mode-valid false false = λ e. ground arith

if-false :
    {A : Type 0} (P : A → Type 0) (b : Bool) (x y : A) → b ≡ false → P y → P (if b then x else y)
if-false P true x y e h = absurd (ground arith)
if-false P false x y e h = h

pub start_streaming-ModeAfter :
    (crc : Crc) (around : Surroundings) (d : UamDriver) (publish_intensity publish_multiecho : Bool)
    → d.subscription_mode ≡ invalid
    → ModeAfter invalid
        (chosen_mode publish_intensity publish_multiecho)
        (start_streaming crc around d publish_intensity publish_multiecho)
unfolding start_streaming
start_streaming-ModeAfter crc around d i m e =
    let P = ModeAfter invalid (chosen_mode i m) in
    let (client, started) = start_async_read_task d.client in
    let d' = record d { client = client } in
    let is_idle : is_the_sensor_streaming d ≡ false = rw e refl in
    let subscribed =
      subst
        (λ before. ModeAfter before (chosen_mode i m) (subscribe crc around d' (chosen_mode i m))) e
        (subscribe-ModeAfter crc around d' (chosen_mode i m) (chosen_mode-valid i m)) in
    if-false P (is_the_sensor_streaming d) (d, true) _ is_idle
      (if-holds P (not started) (d', false) (subscribe crc around d' (chosen_mode i m))
        (λ h. absurd (ground arith), λ h. e) subscribed)

ModeAfter-if :
    (before after : ESubscriptionMode) (r : UamDriver × Bool)
    → ModeAfter before after r
    → r.0.subscription_mode ≡ (if r.1 then after else before)
ModeAfter-if before after (d, true) h = h.0 refl
ModeAfter-if before after (d, false) h = h.1 refl

-- Starting to stream from the mode INVALID leads to the mode AR04 if intensities are asked for,
-- else AR07 if several echoes are, else AR02, unless there is an exception, which leaves the mode
-- INVALID.
pub start_streaming_lem :
    (crc : Crc) (around : Surroundings) (d : UamDriver) (publish_intensity publish_multiecho : Bool)
    → d.subscription_mode ≡ invalid
    → let (d', ok) = start_streaming crc around d publish_intensity publish_multiecho in
      d'.subscription_mode ≡ (
        if ok
        then (if publish_intensity
            then mode_ar04
            else if publish_multiecho
            then mode_ar07
            else mode_ar02)
        else invalid)
start_streaming_lem crc around d i m e =
    ModeAfter-if invalid (chosen_mode i m) (start_streaming crc around d i m)
      (start_streaming-ModeAfter crc around d i m e)

unsubscribe-ModeAfter :
    (crc : Crc) (around : Surroundings) (d : UamDriver) (mode : ESubscriptionMode)
    → d.subscription_mode ≡ mode
    → ModeAfter mode invalid (unsubscribe crc around d mode)
unfolding unsubscribe
unsubscribe-ModeAfter crc around d invalid e = (λ h. e, λ h. absurd (ground arith))
unsubscribe-ModeAfter crc around d mode_ar02 e =
    then_mode-ModeAfter mode_ar02 invalid _ (send-mode d around (ar_command crc b'3') ∙ e)
unsubscribe-ModeAfter crc around d mode_ar04 e =
    then_mode-ModeAfter mode_ar04 invalid _ (send-mode d around (ar_command crc b'5') ∙ e)
unsubscribe-ModeAfter crc around d mode_ar07 e =
    then_mode-ModeAfter mode_ar07 invalid _ (send-mode d around (ar_command crc b'6') ∙ e)

-- Stopping leads to the mode INVALID from every mode, unless there is an exception, which leaves
-- the mode as it was.
pub stop_streaming_lem :
    (crc : Crc) (around : Surroundings) (d : UamDriver)
    → let (d', ok) = stop_streaming crc around d in
      (ok ≡ true → d'.subscription_mode ≡ invalid)
      × (ok ≡ false → d'.subscription_mode ≡ d.subscription_mode)
unfolding stop_streaming
stop_streaming_lem crc around d = unsubscribe-ModeAfter crc around d d.subscription_mode refl

then_mode-none :
    (mode : ESubscriptionMode) (r : UamDriver × Option Event)
    → r.1 ≡ none
    → (then_mode mode r).1 ≡ false
then_mode-none mode (d, none) e = refl
then_mode-none mode (d, some event) e = absurd (ground arith)

unsubscribe-IsScan :
    (crc : Crc) (around : Surroundings) (d : UamDriver) (mode : ESubscriptionMode)
    → All IsScan around.arrivals
    → mode ≢ invalid
    → (unsubscribe crc around d mode).1 ≡ false
unfolding unsubscribe
unsubscribe-IsScan crc around d invalid scans h = absurd (h refl)
unsubscribe-IsScan crc around d mode_ar02 scans h =
    then_mode-none invalid _ (send-IsScan d around (ar_command crc b'3') scans)
unsubscribe-IsScan crc around d mode_ar04 scans h =
    then_mode-none invalid _ (send-IsScan d around (ar_command crc b'5') scans)
unsubscribe-IsScan crc around d mode_ar07 scans h =
    then_mode-none invalid _ (send-IsScan d around (ar_command crc b'6') scans)

-- While the driver is streaming in any mode, stopping ends with an exception if all replies that
-- are processed during the wait are scans of AR00, AR01 or AR06, or there is none.
pub stop_streaming-IsScan :
    (crc : Crc) (around : Surroundings) (d : UamDriver)
    → All IsScan around.arrivals
    → d.subscription_mode ≢ invalid
    → (stop_streaming crc around d).1 ≡ false
unfolding stop_streaming
stop_streaming-IsScan crc around d scans streaming =
    unsubscribe-IsScan crc around d d.subscription_mode scans streaming
