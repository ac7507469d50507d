-- ===== src/Tests/Replies.antt =====
-- Replies of urg_node/src/uam/workers, processed and decoded.
use urg_node.Prelude.{◌≡◌, ◌↔◌, refl, arith, some, ◌>>=◌, [], ◌∷◌}
use urg_node.Codec.Bytes.{Bytes, le_bytes, read_uint}
use urg_node.Codec.Field.{u32, decode_field, get_from_chars, decode_fields}
use urg_node.Codec.Hex.{from_chars, hex_value, scan_hex}
use urg_node.Protocol.Header.{EmptyCommandReply, command_reply_header_at, command_footer_at}
use urg_node.Protocol.Replies.{
  Ar00CommandReply, empty_reply_at, ar00_reply_at, ar00_reply_size, ar01_reply_size,
  xr00_reply_size, empty_reply_size,
}
use urg_node.Worker.Base.{
  validate_struct_crc, calculate_struct_crc, decode_header_and_footer, Worker, process_struct,
  process_buffer, accepted,
}
use urg_node.Worker.Kinds.{empty_reply_worker, decode_empty, decode_ar00, decode_ar00_buffer}
use urg_node.Protocol.Replies.{id00_reply_size}
use urg_node.Worker.Framed.{empty_reply_worker-IsFramed}
use urg_node.Worker.Acceptance.{IsValidReply, process_struct-IsValidReply}
use urg_node.Worker.BufferAcceptance.{IsValidText, process_buffer-IsValidText}
use urg_node.Worker.Agreement.Replies.{overlaid, decode_ar00-decode_ar00_buffer}
use urg_node.Worker.Status.{validate_status}
use urg_node.Tests.Kermit.{kermit}
use urg_node.Tests.Samples.{ar02_ack, zeros, length-zeros, zeros-IsBytes, clean}

abbrev ar02 : Worker EmptyCommandReply
ar02 = empty_reply_worker (b'A', b'R') (b'0', b'2') 0

-- The acknowledgement, decoded.
abbrev pub ack : EmptyCommandReply
ack = record {
  header = record {
    stx = 2;
    cmd_size = 16;
    header = (b'A', b'R');
    sub_header = (b'0', b'2');
    status = 0;
  };
  footer = record { crc = 0x51E2; etx = 3 };
}

accepted_struct_example :
    (process_struct kermit clean ar02 ar02_ack ≡ accepted ack)
    ↔ (IsValidReply kermit ar02 ar02_ack × (ar02.decode ar02_ack ≡ some ack))
accepted_struct_example =
    process_struct-IsValidReply kermit clean ar02 ar02_ack ack (empty_reply_worker-IsFramed _ _ 0)

accepted_text_example :
    (process_buffer kermit clean ar02 ack ar02_ack ≡ some (accepted ack))
    ↔ (IsValidText kermit clean ar02 ar02_ack × (ar02.decode_buffer ack ar02_ack ≡ some ack))
accepted_text_example =
    process_buffer-IsValidText kermit clean ar02 ack ar02_ack ack
      (empty_reply_worker-IsFramed _ _ 0) (omega arith) (omega arith)

abbrev two_bytes : Bytes
two_bytes = 2 ∷ 3 ∷ []

-- The model itself run on the acknowledgement.
ack_is_accepted : process_struct kermit clean ar02 ar02_ack ≡ accepted ack
unfolding process_struct decode_field get_from_chars from_chars le_bytes hex_value
    command_reply_header_at read_uint scan_hex empty_reply_worker validate_struct_crc
    calculate_struct_crc command_footer_at validate_status decode_empty decode_header_and_footer
    empty_reply_at
ack_is_accepted = refl

abbrev blank_ar00 : Bytes
blank_ar00 = zeros ar00_reply_size

-- A reply that the text is decoded into, with one range.
abbrev some_ar00 : Ar00CommandReply
some_ar00 = record (ar00_reply_at []) { ranges = 7 ∷ [] }

ar00_example :
    (decode_ar00 (ar00_reply_at blank_ar00) ≡ (
      decode_ar00_buffer 0 some_ar00 blank_ar00 >>= λ r.
      decode_fields u32 (ar00_reply_at blank_ar00).ranges >>= λ ranges.
      some (overlaid (ar00_reply_at blank_ar00) r ranges)))
    × ((r : Ar00CommandReply)
        → decode_ar00_buffer 0 some_ar00 blank_ar00 ≡ some r
        → r.ranges ≡ some_ar00.ranges)
ar00_example =
    decode_ar00-decode_ar00_buffer blank_ar00 some_ar00 (zeros-IsBytes ar00_reply_size)
      (length-zeros ar00_reply_size)

abbrev blank_ar01 : Bytes
blank_ar01 = zeros ar01_reply_size

abbrev blank_xr00 : Bytes
blank_xr00 = zeros xr00_reply_size

abbrev blank_ack : Bytes
blank_ack = zeros empty_reply_size

abbrev blank_id00 : Bytes
blank_id00 = zeros id00_reply_size
