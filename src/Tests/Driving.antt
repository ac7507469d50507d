-- ===== src/Tests/Driving.antt =====
-- The driver of urg_node/src/uam/uam_driver.cpp with a sensor that stays silent or answers.
use urg_node.Prelude.{if◌then◌else◌, ◌≡◌, refl, arith, true, false, none, some, [], ◌∷◌}
use urg_node.Dispatch.{ar02, got_empty}
use urg_node.Driver.{
  UamDriver, Surroundings, invalid, mode_ar04, mode_ar07, start_streaming, stop_streaming,
}
use urg_node.Driver.Streaming.{start_streaming_lem, stop_streaming-IsScan}
use urg_node.Tests.Kermit.{kermit}
use urg_node.Tests.Client.{linked}
use urg_node.Tests.Replies.{ack}

abbrev pub idle : UamDriver
idle = record {
  client = linked;
  subscription_mode = invalid;
  pending_command_reply_ready = false;
  pending_command_reply = none;
}

-- The sensor acknowledges a command that went out with its 14 bytes.
abbrev pub answering : Surroundings
answering = record { sent = some 14; arrivals = got_empty ar02 ack ∷ [] }

abbrev silent : Surroundings
silent = record { sent = some 14; arrivals = [] }

abbrev pub echoing : UamDriver
echoing = record idle { subscription_mode = mode_ar07 }

start_example :
    let (d', ok) = start_streaming kermit answering idle true false in
    d'.subscription_mode ≡ (if ok then mode_ar04 else invalid)
start_example = start_streaming_lem kermit answering idle true false refl

unanswered_example : (stop_streaming kermit silent echoing).1 ≡ false
unanswered_example = stop_streaming-IsScan kermit silent echoing tt (λ e. ground arith)
