-- ===== src/Dispatch.antt =====
-- `UamPacketWorker` of urg_node/include/uam/workers/uam_command_worker.h and
-- urg_node/src/uam/workers/uam_command_worker.cpp: which worker a reply goes to.
pub mod Routes
pub mod Safety
use urg_node.Prelude.{
  ℕ, Bool, true, false, ◌&&◌, ◌||◌, Option, none, some, List, [], ◌∷◌, ◌==◌, if◌then◌else◌,
}
use urg_node.Codec.Bytes.{Bytes}
use urg_node.Codec.Field.{u32, decode_field}
use urg_node.Protocol.Header.{
  CommandReplyHeader, EmptyCommandReply, header_size, command_reply_header_at,
}
use urg_node.Protocol.Replies.{
  Ar00CommandReply, Ar01CommandReply, Ar06CommandReply, Xr00CommandReply, Vr00CommandReply,
  Id00CommandReply, empty_reply_size, ar00_reply_size, ar01_reply_size, ar06_reply_size,
  xr00_reply_size, vr00_reply_size, id00_reply_size,
}
use urg_node.Protocol.Area.{YrCommandReply, yr_reply_size}
use urg_node.Protocol.Packet.{ShapeShifterPacket, member_bytes}
use urg_node.Worker.Crc.{Crc}
use urg_node.Worker.Base.{
  Locals, Worker, assigned, same_chars, validate_reply_type, validate_command_header,
  process_by_handler,
}
use urg_node.Worker.Kinds.{ar00_worker, ar01_worker, ar06_worker, xr00_worker, empty_reply_worker}
use urg_node.Worker.Raw.{vr00_worker, id00_worker}
use urg_node.Worker.Yr.{is_yr, process_yr_by_handler}

-- The members of the tuple `workers_`.
pub data WorkerId : Type 0 where
  ar00 ar01 ar02 ar03 ar04 ar05 ar06 ar07 ar08 vr00 xr00 id00 yr : WorkerId

-- A reply that a callback is called with.
pub data Event : Type 0 where
  got_ar00 : Ar00CommandReply → Event
  got_ar01 : Ar01CommandReply → Event
  got_ar06 : Ar06CommandReply → Event
  got_empty : WorkerId → EmptyCommandReply → Event
  got_vr00 : Vr00CommandReply → Event
  got_xr00 : Xr00CommandReply → Event
  got_id00 : Id00CommandReply → Event
  got_yr : YrCommandReply → Event

-- The aliases `AR02Worker` to `AR08Worker`: `digit` is the second character of the sub header.
abbrev pub empty_worker : ℕ → Worker EmptyCommandReply
empty_worker digit = empty_reply_worker (b'A', b'R') (b'0', digit) 0

-- `validateReplyType` of each worker.
abbrev pub validate_reply_type_of : WorkerId → CommandReplyHeader → Bool
validate_reply_type_of ar00 h = validate_reply_type (ar00_worker 0) h
validate_reply_type_of ar01 h = validate_reply_type (ar01_worker 0) h
validate_reply_type_of ar02 h = validate_reply_type (empty_worker b'2') h
validate_reply_type_of ar03 h = validate_reply_type (empty_worker b'3') h
validate_reply_type_of ar04 h = validate_reply_type (empty_worker b'4') h
validate_reply_type_of ar05 h = validate_reply_type (empty_worker b'5') h
validate_reply_type_of ar06 h = validate_reply_type (ar06_worker 0) h
validate_reply_type_of ar07 h = validate_reply_type (empty_worker b'7') h
validate_reply_type_of ar08 h = validate_reply_type (empty_worker b'8') h
validate_reply_type_of vr00 h = validate_reply_type (vr00_worker 0) h
validate_reply_type_of xr00 h = validate_reply_type (xr00_worker 0) h
validate_reply_type_of id00 h = validate_reply_type (id00_worker 0) h
validate_reply_type_of yr h = is_yr h.header

-- `validateCommandHeader(header)`: some worker knows it.
unfoldable pub known_header : ℕ × ℕ → Bool
known_header header =
    validate_command_header (ar00_worker 0) header
    || validate_command_header (ar01_worker 0) header
    || validate_command_header (empty_worker b'2') header
    || validate_command_header (empty_worker b'3') header
    || validate_command_header (empty_worker b'4') header
    || validate_command_header (empty_worker b'5') header
    || validate_command_header (ar06_worker 0) header
    || validate_command_header (empty_worker b'7') header
    || validate_command_header (empty_worker b'8') header
    || validate_command_header (vr00_worker 0) header
    || validate_command_header (xr00_worker 0) header
    || validate_command_header (id00_worker 0) header
    || is_yr header

-- The worker that `processByHandler(packet, time)` calls, by its chain of tests.
unfoldable pub route : CommandReplyHeader → ℕ → Option WorkerId
route h received_packet_size =
    let is : WorkerId → Bool = λ worker. validate_reply_type_of worker h in
    if is ar00 || (is ar02 && received_packet_size == ar00_reply_size)
    then some ar00
    else if is ar01 || (is ar04 && received_packet_size == ar01_reply_size)
    then some ar01
    else if is ar06 || (is ar07 && received_packet_size == ar06_reply_size)
    then some ar06
    else if is ar02
    then some ar02
    else if is ar03
    then some ar03
    else if is ar04
    then some ar04
    else if is ar05
    then some ar05
    else if is ar07
    then some ar07
    else if is ar08
    then some ar08
    else if is vr00
    then some vr00
    else if is xr00
    then some xr00
    else if is id00
    then some id00
    else if is yr
    then some yr
    else none

abbrev pub tagged : {R : Type 0} → (R → Event) → Bool × Option R → Bool × Option Event
tagged event (ok, none) = (ok, none)
tagged event (ok, some r) = (ok, some (event r))

module _ (crc : Crc) (u : Locals) (has_callback : WorkerId → Bool) where
  -- The call of one worker's `processByHandler` on its view of the packet.
  unfoldable pub run_worker : WorkerId → ShapeShifterPacket → Bool × Option Event
  run_worker worker p =
      let run_empty : ℕ → Bool × Option Event = λ digit. tagged (got_empty worker) (
        process_by_handler crc u (empty_worker digit) (has_callback worker)
          (member_bytes p empty_reply_size)) in
      elim worker [
        | ar00 ↦ tagged got_ar00 (
            process_by_handler crc u (ar00_worker 0) (has_callback ar00)
              (member_bytes p ar00_reply_size))
        | ar01 ↦ tagged got_ar01 (
            process_by_handler crc u (ar01_worker 0) (has_callback ar01)
              (member_bytes p ar01_reply_size))
        | ar02 ↦ run_empty b'2'
        | ar03 ↦ run_empty b'3'
        | ar04 ↦ run_empty b'4'
        | ar05 ↦ run_empty b'5'
        | ar06 ↦ tagged got_ar06 (
            process_by_handler crc u (ar06_worker 0) (has_callback ar06)
              (member_bytes p ar06_reply_size))
        | ar07 ↦ run_empty b'7'
        | ar08 ↦ run_empty b'8'
        | vr00 ↦ tagged got_vr00 (
            process_by_handler crc u (vr00_worker 0) (has_callback vr00)
              (member_bytes p vr00_reply_size))
        | xr00 ↦ tagged got_xr00 (
            process_by_handler crc u (xr00_worker 0) (has_callback xr00)
              (member_bytes p xr00_reply_size))
        | id00 ↦ tagged got_id00 (
            process_by_handler crc u (id00_worker 0) (has_callback id00)
              (member_bytes p id00_reply_size))
        | yr ↦
            tagged got_yr (process_yr_by_handler (has_callback yr) (member_bytes p yr_reply_size))
      ]

  -- `processByHandler(packet, time)`: a size that cannot be decoded stays as it lies in memory.
  unfoldable pub process_packet : ShapeShifterPacket → Bool × Option Event
  process_packet p =
      let h = command_reply_header_at (member_bytes p header_size) 0 in
      elim (route h (assigned h.cmd_size (decode_field u32 h.cmd_size))) [
        | none ↦ (false, none)
        | some worker ↦ run_worker worker p
      ]
