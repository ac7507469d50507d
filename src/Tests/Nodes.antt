-- ===== src/Tests/Nodes.antt =====
-- The node of urg_node/src/uam/uam_driver_ros.cpp with a sensor of four steps, on fractions and seconds.
use urg_node.Prelude.{
  zero, suc, ◌<◌, ltb, ℕ, ◌≡◌, refl, arith, Bool, true, false, not, Option, none, some, List, [],
  ◌∷◌, ◌++◌, ◌==◌, ==_refl, length, replicate, All, if◌then◌else◌,
}
use urg_node.Prelude.Int.{pos, eq_ℤ, ◌+ℤ◌, ◌-ℤ◌, ◌*ℤ◌}
use urg_node.Protocol.Area.{EyrAreaType, YrCommandReply, yr_reply_at}
use urg_node.Dispatch.{got_yr}
use urg_node.Node.Areas.{read_safety_areas, request_area, as_yr}
use urg_node.Protocol.Sensing.{SensingDataHeader}
use urg_node.Scan.{ScanParameters}
use urg_node.Driver.{
  UamDriver, Surroundings, safety_area_command, get_safety_area, send_command_with_reply,
  packet_events, packet_event, process_command_reply,
}
use urg_node.Tcp.{good_ip, timed_out, connect, async_send, start_async_read_task, async_read_data}
use urg_node.Urg.Scans.{LaserScan}
use urg_node.Node.{UamRos, Publication, laser_scan}
use urg_node.Node.Library.{NodePlatform}
use urg_node.Node.Params.{UamRosParams}
use urg_node.Node.Status.{update_status, status_callback}
use urg_node.Node.Status.Updates.{update_status-again}
use urg_node.Node.Status.Waiting.{status_callback-served}
use urg_node.Node.Points.{publish_points_in_area}
use urg_node.Node.Points.Bounds.{publish_points-past_table}
use urg_node.Node.Scans.{ScanReply, scan_callback, scan_message}
use urg_node.Node.Scans.Published.{Published, scan_callback-Published}
use urg_node.Node.Scans.Bounds.{updated, shown_ranges, scan_callback-shows, scan_callback-defined}
use urg_node.Node.Resets.{reset_done}
use urg_node.Node.Configure.{ConfigureCall, configure}
use urg_node.Node.Configure.Outcome.{Left, configure-Left}
use urg_node.Node.Lifecycle.{constructed, configure_timer_callback}
use urg_node.Node.Lifecycle.Spacing.{Spaced}
use urg_node.Node.Lifecycle.Runs.{
  Run, IsNew, started, stepped, timer_fired, IsRetrying, Run-IsRetrying, Run-Spaced,
}
use urg_node.Node.Areas.Reading.{HasArea, read_safety_areas-HasArea}
use urg_node.Node.Areas.Answering.{read_safety_areas-ends}
use urg_node.Tests.Kermit.{kermit}
use urg_node.Tests.Driving.{idle}
use urg_node.Tests.Platforms.{Fraction, fractions, bench}

abbrev pub at_second : ℕ → Fraction
at_second n = record { num = pos n; den = 1 }

abbrev area_reply : YrCommandReply
area_reply = yr_reply_at []

abbrev pub station : NodePlatform
station = record {
  base = bench;
  widen = λ a. a;
  is_nan = λ a. a.den == 0;
  at_most = λ a b. not (fractions.less b a);
  sin = λ a. a;
  cos = λ a. a;
  time_less = fractions.less;
  zero_time = at_second 0;
  memory_as_yr = λ area_number area_type lidar event. area_reply;
  is_zero = λ t. eq_ℤ t.num (pos 0);
  differs = λ a b. if fractions.less a b then true else fractions.less b a;
}

abbrev pub settings : UamRosParams station
settings = record {
  angle_min = at_second 0;
  angle_max = at_second 3;
  frame_id = [];
  ip_address = [];
  ip_port = 10_940;
  log_safety_areas_crc = false;
  provide_laser_status_service = false;
  range_offset = at_second 0;
  reconfiguration_timeout = at_second 5;
  request_status_service = [];
  scan_timeout = at_second 5;
  scan_topic = [];
  status_topic = [];
  points_in_safety_area_topic = [];
  lidar_hard_reset_service = [];
  lidar_power_cycle_interval = at_second 30;
  configure_attempts = pos 0;
  discard_startup_data_s = at_second 0;
  reference_safety_area = some 0;
  time_offset = at_second 0;
  use_intensity = true;
  use_multi_echo = false;
}

-- Four steps, of which the scan has the second and the third.
abbrev four_steps : ScanParameters fractions
four_steps = record {
  angular_time_offset = at_second 0;
  angle_increment = at_second 1;
  time_increment = at_second 0;
  range_min = at_second 0;
  range_max = at_second 30;
  scan_period = at_second 1;
  angle_min = at_second 1;
  angle_max = at_second 2;
  first_step = pos 1;
  last_step = pos 2;
  angle_min_limit = at_second 0;
  angle_max_limit = at_second 3;
  first_step_limit = pos 0;
  last_step_limit = pos 3;
  front_step = pos 0;
  angular_resolution = pos 4;
  rpm = pos 60;
}

abbrev pub all_clear : SensingDataHeader
all_clear = record {
  operating_mode = 0;
  area_number = 1;
  error_state = 0;
  error_code = 0;
  lockout_state = 0;
  ossd1_state = 1;
  ossd2_state = 1;
  warning1_state = 0;
  warning2_state = 0;
  ossd3_state = 0;
  ossd4_state = 0;
  reserved0 = [];
  muting_state1 = 0;
  muting_state2 = 0;
  reset_request1 = 0;
  reset_request2 = 0;
  encoder_speed = 0;
  timestamp = 0;
  laser_state_off = 0;
  optical_window_contaminated = 0;
  reserved1 = [];
}

abbrev area_of_four : LaserScan bench
area_of_four = record {
  header = record {
    frame_id = [];
    stamp = at_second 0;
    angle_min = at_second 0;
    angle_max = at_second 3;
    angle_increment = at_second 1;
    scan_time = at_second 1;
    time_increment = at_second 0;
    range_min = at_second 0;
    range_max = at_second 30;
  };
  ranges = replicate 4 (at_second 2);
  intensities = [];
}

-- A node that is configured, and one that is new.
abbrev configured_node : UamRos station
configured_node = record {
  configured = true;
  configure_attempts = 0;
  lidar = idle;
  safety_areas = (1, (0, (77, area_of_four)) ∷ []) ∷ [];
  params = settings;
  params_changed = false;
  scan_stamp = at_second 100;
  configured_stamp = at_second 90;
  discard_data_until = at_second 95;
  timer_running = false;
  limits = record {
    min_angle_min = at_second 0;
    min_angle_max = at_second 0;
    max_angle_min = at_second 3;
    max_angle_max = at_second 3;
  };
  scan_params = four_steps;
  last_restart_time = none;
  last_received_status = record all_clear { area_number = 2 };
  publish_status_requested = true;
  lut = none;
}

abbrev new_node : UamRos station
new_node = record configured_node {
  configured = false;
  safety_areas = [];
  publish_status_requested = false;
}

abbrev reply_of_four : ScanReply
reply_of_four = record {
  sensing_data = all_clear;
  ranges = 0 ∷ 1500 ∷ 65_533 ∷ 2500 ∷ [];
  intensities = some (10 ∷ 20 ∷ 30 ∷ 40 ∷ []);
}

abbrev scanned : Option (UamRos station × List (Publication station))
scanned = scan_callback station (at_second 101) configured_node reply_of_four (at_second 101)

abbrev shown : UamRos station × List (Publication station)
unfolding scan_callback update_status ◌*ℤ◌ ◌+ℤ◌ ◌-ℤ◌
shown = elim scanned [ none ↦ (configured_node, []) | some r ↦ r ]

published_example :
    All (Published station (at_second 101) configured_node reply_of_four shown.0) shown.1
unfolding scan_callback update_status ◌*ℤ◌ ◌+ℤ◌ ◌-ℤ◌
published_example =
    scan_callback-Published station (at_second 101) configured_node reply_of_four (at_second 101)
      shown.0 shown.1 refl

-- The same node with tables of four entries.
abbrev tabled_node : UamRos station
tabled_node = record configured_node {
  lut =
      some
        (record { sin_lookup = replicate 4 (at_second 0); cos_lookup = replicate 4 (at_second 1) });
}

abbrev tabled_seen : UamRos station × List (Publication station)
tabled_seen = updated station (at_second 101) tabled_node reply_of_four

shown_example :
    (node' : UamRos station) × (rest : List (Publication station)) × (scan_callback station
        (at_second 101)
        tabled_node
        reply_of_four
        (at_second 101)
      ≡ some (
        node',
        tabled_seen.1
            ++ (laser_scan (
                  scan_message station tabled_seen.0
                    (at_second 101)
                    reply_of_four
                    (shown_ranges station tabled_seen.0 reply_of_four))
                ∷ rest),
      ))
unfolding update_status scan_callback ◌*ℤ◌
shown_example =
    scan_callback-shows station (at_second 101) tabled_node reply_of_four (at_second 101) refl refl
      (omega arith) (omega arith) (omega arith, omega arith) refl

defined_example :
    (r : UamRos station × List (Publication station)) × (scan_callback station
        (at_second 101)
        tabled_node
        reply_of_four
        (at_second 101)
      ≡ some r)
unfolding update_status scan_callback
defined_example =
    scan_callback-defined station (at_second 101) tabled_node reply_of_four (at_second 101)
      (omega arith) (omega arith, omega arith)

past_table_example :
    publish_points_in_area station configured_node ((3, at_second 1) ∷ []) (at_second 101) ≡ none
unfolding ◌+ℤ◌ ◌-ℤ◌
past_table_example =
    publish_points-past_table station configured_node 3 (at_second 1) [] (at_second 101) refl
      (omega arith)

status_again_example :
    let node' = (update_status station configured_node all_clear false).0 in
    update_status station node' all_clear false ≡ (node', [])
status_again_example = update_status-again station configured_node all_clear false

-- The receiver handles a scan in the third half cycle, or not at all.
abbrev in_third : ℕ → UamRos station → UamRos station
unfolding update_status
in_third k node = if k == 2 then (update_status station node all_clear false).0 else node

abbrev ros_runs : ℕ → Bool
ros_runs k = true

third_clears : (node : UamRos station) → (in_third 2 node).publish_status_requested ≡ false
unfolding update_status
third_clears node = ground arith

third_is_first :
    (i : ℕ) (node : UamRos station)
    → i < 2
    → node.publish_status_requested ≡ true
    → (in_third i node).publish_status_requested ≡ true
unfolding in_third
third_is_first zero node h e = e
third_is_first (suc zero) node h e = e
third_is_first (suc (suc i)) node h e = absurd (omega arith)

served_example : (status_callback station in_third ros_runs configured_node).1 ≡ ltb 2 4
served_example =
    status_callback-served station in_third ros_runs configured_node 2 refl (λ i. refl)
      third_is_first third_clears

-- A sensor that does not answer the attempt to connect.
abbrev no_answer : Surroundings
no_answer = record { sent = none; arrivals = [] }

abbrev no_sensor : ConfigureCall station
no_sensor = record {
  address = good_ip;
  attempt = timed_out;
  option_set = true;
  details = record { sent = none; text = none };
  version = no_answer;
  areas = λ n t. no_answer;
  fresh = all_clear;
  unsubscribe = no_answer;
  status = no_answer;
  now = at_second 10;
  subscribe = no_answer;
  reset = record { checked = at_second 10; stamped = at_second 10; answer = reset_done };
}

Left-example :
    let node' = (configure station kermit no_sensor new_node).0 in
    Left station node'.configured node'
Left-example = configure-Left station kermit no_sensor new_node

new_node-IsNew : IsNew station kermit new_node
new_node-IsNew = record { not_configured = refl; timer_stopped = refl; never_restarted = refl }

first-Run : Run station kermit (at_second 30) (constructed station kermit no_sensor new_node)
first-Run = started _ new_node no_sensor new_node-IsNew refl refl

-- The constructor fails, which restarts the sensor; the timer fires, and the restart is not due.
abbrev first_node : UamRos station × List (Publication station)
first_node = constructed station kermit no_sensor new_node

abbrev second_after : UamRos station × List (Publication station)
second_after = configure_timer_callback station kermit no_sensor first_node.0

abbrev second_node : UamRos station × List (Publication station)
second_node = (second_after.0, first_node.1 ++ second_after.1)

second-Run : Run station kermit (at_second 30) second_node
unfolding constructed connect ◌*ℤ◌ ◌+ℤ◌ ◌-ℤ◌
second-Run = stepped _ first_node second_after first-Run (timer_fired no_sensor refl refl) refl

retrying_example : IsRetrying station kermit second_node.0
retrying_example = Run-IsRetrying station kermit (at_second 30) second_node second-Run

spaced_example : Spaced station (at_second 30) none second_node.1
spaced_example = Run-Spaced station kermit (at_second 30) second_node second-Run

-- A sensor that answers every request of an area, as its request is long.
abbrev every_area : ℕ → EyrAreaType → Surroundings
every_area n t = record {
  sent = some (length (safety_area_command kermit t n 0 1081));
  arrivals = got_yr area_reply ∷ [];
}

-- A connected sensor stays connected and answers.
area_answered :
    (lidar : UamDriver) (n : ℕ) (t : EyrAreaType)
    → lidar.client.connected ≡ true
    → let r = request_area station kermit every_area new_node lidar n t in
      (r.1 ≡ some area_reply) × (r.0.client.connected ≡ true)
unfolding request_area as_yr get_safety_area send_command_with_reply async_send packet_events
    packet_event process_command_reply start_async_read_task async_read_data
area_answered lidar n t h =
    let e = ==_refl (length (safety_area_command kermit t n 0 1081)) in ground arith

areas_example :
    HasArea station kermit every_area new_node
      (read_safety_areas station kermit every_area new_node).0.safety_areas
      32
unfolding connect
areas_example =
    read_safety_areas-HasArea station kermit every_area new_node 32 refl
      (read_safety_areas-ends station kermit every_area new_node
        (λ lidar n t h.
          let (replied, still) = area_answered lidar n t h in ((area_reply, replied), still))
        refl refl)
      (omega arith) (omega arith)
