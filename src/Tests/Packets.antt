-- ===== src/Tests/Packets.antt =====
-- Packets in the dispatcher of urg_node/src/uam/workers/uam_command_worker.cpp.
use urg_node.Prelude.{◌≡◌, refl, true, false, Bool, some}
use urg_node.Codec.Bytes.{le_bytes, read_uint}
use urg_node.Codec.Hex.{from_chars, hex_value, scan_hex}
use urg_node.Codec.Field.{u32, decode_field, get_from_chars}
use urg_node.Worker.Kinds.{
  ar00_worker, ar01_worker, ar06_worker, xr00_worker, empty_reply_worker, decode_empty,
}
use urg_node.Worker.Raw.{vr00_worker, id00_worker}
use urg_node.Worker.Status.{validate_status}
use urg_node.Protocol.Replies.{empty_reply_at}
use urg_node.Protocol.Header.{
  CommandReplyHeader, command_footer_at, header_size, command_reply_header_at,
}
use urg_node.Protocol.Packet.{ShapeShifterPacket, member_bytes}
use urg_node.Worker.Base.{
  assigned, validate_struct_crc, calculate_struct_crc, decode_header_and_footer, process_by_handler,
  process_struct, validate_reply_type, validate_command_header,
}
use urg_node.Dispatch.{WorkerId, ar02, route, process_packet, run_worker, known_header}
use urg_node.Dispatch.Routes.{delivered, route-HasType}
use urg_node.Dispatch.Safety.{IsRightFor, process_packet-IsRightFor}
use urg_node.Tests.Kermit.{kermit}
use urg_node.Tests.Samples.{ar02_ack, clean}

abbrev ack_packet : ShapeShifterPacket
ack_packet = record { raw_buffer = ar02_ack }

abbrev listens : WorkerId → Bool
listens worker = true

ack_succeeds : (process_packet kermit clean listens ack_packet).0 ≡ true
unfolding process_packet run_worker process_by_handler process_struct route validate_reply_type
    ar00_worker ar01_worker ar06_worker decode_field get_from_chars from_chars le_bytes hex_value
    command_reply_header_at read_uint scan_hex empty_reply_worker validate_struct_crc
    calculate_struct_crc command_footer_at validate_status decode_empty decode_header_and_footer
    empty_reply_at
ack_succeeds = refl

ack_example :
    let h = command_reply_header_at (member_bytes ack_packet header_size) 0 in
    (worker : WorkerId) × (route h (assigned h.cmd_size (decode_field u32 h.cmd_size))
      ≡ some worker)
    × IsRightFor kermit worker ack_packet
ack_example = process_packet-IsRightFor kermit clean listens ack_packet ack_succeeds

abbrev ar02_header : CommandReplyHeader
ar02_header = record {
  stx = 2;
  cmd_size = 0;
  header = (b'A', b'R');
  sub_header = (b'0', b'2');
  status = 0;
}

-- Data of the subscription AR02.
ar02_data_example : route ar02_header 4379 ≡ some (delivered ar02 4379)
ar02_data_example = route-HasType ar02 ar02_header 4379 (refl, refl)

abbrev zz_header : CommandReplyHeader
zz_header = record ar02_header { header = (b'Z', b'Z') }

zz_is_unknown : known_header zz_header.header ≡ false
unfolding known_header validate_command_header ar00_worker ar01_worker ar06_worker xr00_worker
    vr00_worker id00_worker empty_reply_worker
zz_is_unknown = refl
