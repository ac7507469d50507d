-- ===== src/Tests/UrgNodes.antt =====
-- The node of urg_node/src/urg_node_driver.cpp with the scripted sensor, and its names.
use urg_node.Prelude.{◌≡◌, ◌↔◌, refl, arith, true, false, some, none, [], ◌∷◌}
use urg_node.Prelude.Int.{pos, negsuc}
use urg_node.Codec.Bytes.{Bytes}
use urg_node.Urg.Scans.{LaserScan, MultiEchoLaserScan, ScanHeader}
use urg_node.UrgNode.{UrgNode, UrgNodeConfig, grab_scans, reconfigure_callback}
use urg_node.UrgNode.Names.{node_id, node_path, replaced, node_path-replaced}
use urg_node.UrgNode.Scanning.{Ending, grab_scans-Ending}
use urg_node.UrgNode.Reconfiguring.{Outcome, reconfigure_callback-Outcome}
use urg_node.UrgNode.Diagnostics.{
  IsInOrder, works_well, in_order, populate_diagnostics_status,
  populate_diagnostics_status-IsInOrder,
}
use urg_node.Node.Params.{ParamServer, load_from_ros}
use urg_node.Node.Params.Usable.{IsUsable, load_from_ros-IsUsable}
use urg_node.Tests.Platforms.{bench, wrapper}
use urg_node.Tests.Nodes.{station, settings, all_clear, at_second}

abbrev scripted_node : UrgNode bench
scripted_node = record {
  urg = some (record (wrapper []) { started = true });
  status_str = works_well;
  detailed_status = all_clear;
  error_count = 0;
  freq_min = at_second 0;
  service_yield = false;
  has_shut_down = false;
  error_limit = pos 1;
  publish_multiecho = false;
  get_detailed_status = false;
}

abbrev blank_header : ScanHeader bench
blank_header = record {
  frame_id = [];
  stamp = at_second 0;
  angle_min = at_second 0;
  angle_max = at_second 0;
  angle_increment = at_second 0;
  scan_time = at_second 0;
  time_increment = at_second 0;
  range_min = at_second 0;
  range_max = at_second 0;
}

abbrev blank_scan : LaserScan bench
blank_scan = record { header = blank_header; ranges = []; intensities = [] }

abbrev blank_echoes : MultiEchoLaserScan bench
blank_echoes = record { header = blank_header; ranges = []; intensities = [] }

-- A scan between two turns that throw: the second error is one more than the limit.
turns_example :
    Ending bench
      (λ s. works_well)
      blank_scan
      blank_echoes
      1
      3
      0
      (grab_scans bench
        (λ s. works_well)
        blank_scan
        blank_echoes
        (true ∷ false ∷ true ∷ [])
        scripted_node)
turns_example =
    grab_scans-Ending bench (λ s. works_well) blank_scan blank_echoes (true ∷ false ∷ true ∷ [])
      scripted_node (record (wrapper []) { started = true }) 1 refl refl (omega arith)

abbrev other_config : UrgNodeConfig bench
other_config = record {
  angle_min = at_second 0;
  angle_max = at_second 1;
  cluster = pos 1;
  skip = pos 0;
  frame_id = b'l' ∷ [];
  time_offset = at_second 0;
  range_offset = at_second 0;
}

reconfigured_example :
    Outcome bench other_config (reconfigure_callback bench scripted_node other_config (pos 1))
reconfigured_example =
    reconfigure_callback-Outcome bench scripted_node other_config (pos 1)
      (record (wrapper []) { started = true }) refl (omega arith)

in_order_example :
    (populate_diagnostics_status bench scripted_node ≡ in_order) ↔ IsInOrder bench scripted_node
in_order_example = populate_diagnostics_status-IsInOrder bench scripted_node

abbrev slashes : Bytes
slashes = b'a' ∷ b'/' ∷ b'b' ∷ b'_' ∷ b'c' ∷ []

names_example :
    (node_id 6 slashes ≡ some (replaced b'/' b'_' slashes))
    × (node_path 6 (replaced b'/' b'_' slashes)
        ≡ some (replaced b'_' b' ' (replaced b'/' b'_' slashes)))
names_example = node_path-replaced 6 slashes (omega arith)

abbrev both_modes : ParamServer station
both_modes = record {
  angle_min = none;
  angle_max = none;
  publish_intensity = some true;
  publish_multiecho = some true;
  frame_id = none;
  ip_address = none;
  ip_port = some (negsuc 0);
  time_offset = none;
  reconfiguration_timeout = none;
  topic = none;
  provide_laser_status_service = none;
  request_status_service = none;
  range_offset = none;
  log_safety_areas_crc = none;
  discard_startup_data_s = none;
  reference_safety_area_type = some (pos 4);
  configure_attempts = none;
}

IsUsable-example : IsUsable station 10_940 both_modes (load_from_ros station settings both_modes)
IsUsable-example = load_from_ros-IsUsable station settings both_modes (omega arith)
