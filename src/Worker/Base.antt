-- ===== src/Worker/Base.antt =====
-- `WorkerBase` of urg_node/include/uam/workers/uam_worker_base.h: what every worker but YR does with a
-- reply, once as a struct in memory and once as a buffer of text.
use urg_node.Prelude.{
  ℕ, ◌+◌, ◌-◌, ◌%◌, ◌^◌, Bool, true, false, not, ◌&&◌, ◌||◌, Option, none, some, ◌>>=◌, leb, ◌==◌,
  if◌then◌else◌, length,
}
use urg_node.Codec.Bytes.{Bytes, slice}
use urg_node.Codec.Field.{u16, u32, decode_field, decode_at}
use urg_node.Protocol.Layout.{offset_of}
use urg_node.Protocol.Header.{
  CommandReplyHeader, CommandFooter, command_reply_header_layout, command_reply_header_at,
  command_footer_at, command_footer_layout, footer_size,
}
use urg_node.Worker.Crc.{Crc}
use urg_node.Worker.Status.{validate_status}

-- The template's arguments: the command, the reply with its size, where the visitors of header and
-- footer look, and the two `decode` of the derived class. The one that reads a buffer starts from an
-- uninitialised reply.
pub record Worker (R : Type 0) : Type 0 where
  pub header : ℕ × ℕ
  pub sub_header : ℕ × ℕ
  pub reply_size : ℕ
  pub header_offset : ℕ
  pub footer_offset : ℕ
  pub decode : Bytes → Option R
  pub decode_buffer : R → Bytes → Option R

-- Equality of two characters each.
abbrev pub same_chars : ℕ × ℕ → ℕ × ℕ → Bool
same_chars a b = a.0 == b.0 && a.1 == b.1

-- Why a reply is refused: one reason for each place of `process` that returns nothing.
pub data Refusal : Type 0 where
  size_undecodable status_undecodable unexpected_packet wrong_size_and_crc wrong_crc : Refusal
  bad_status undecodable : Refusal

pub data Processed (R : Type 0) : Type 0 where
  accepted : R → Processed R
  refused : Refusal → Processed R

-- `std::optional<Reply>`.
abbrev pub to_option : {R : Type 0} → Processed R → Option R
to_option (accepted r) = some r
to_option (refused e) = none

-- The value of an out parameter after a read that may fail and then leaves it alone.
abbrev pub assigned : ℕ → Option ℕ → ℕ
assigned before none = before
assigned before (some v) = v

-- The last step of both `process`: decode, and refuse what cannot be decoded.
abbrev pub decoded : {R : Type 0} → Option R → Processed R
decoded none = refused undecodable
decoded (some r) = accepted r

-- `status` is valid.
abbrev pub is_ok : {A : Type 0} → Option A → Bool
is_ok none = true
is_ok (some m) = false

-- `decodeHeaderAndFooter(reply)`.
unfoldable pub decode_header_and_footer :
    CommandReplyHeader → CommandFooter → Option (CommandReplyHeader × CommandFooter)
decode_header_and_footer header footer = do
  cmd_size ← decode_field u32 header.cmd_size
  status ← decode_field u16 header.status
  crc ← decode_field u32 footer.crc
  some (record header { cmd_size = cmd_size; status = status }, record footer { crc = crc })

-- `decodeHeaderAndFooter(buffer, reply)`.
unfoldable pub decode_header_and_footer_at :
    ℕ → ℕ → Bytes → CommandReplyHeader → CommandFooter → Option (CommandReplyHeader × CommandFooter)
decode_header_and_footer_at header_offset footer_offset buffer header footer = do
  cmd_size ← decode_at u32 buffer (offset_of command_reply_header_layout 1 + header_offset) 0
  status ← decode_at u16 buffer (offset_of command_reply_header_layout 4 + header_offset) 0
  crc ← decode_at u32 buffer (offset_of command_footer_layout 0 + footer_offset) 0
  some (record header { cmd_size = cmd_size; status = status }, record footer { crc = crc })

-- What a checksum leaves out: STX in front, and the footer behind.
abbrev pub unchecked_bytes : ℕ
unchecked_bytes = 1 + footer_size

-- `calculateReplyCrc(buffer)`. The count of bytes is a `size_t`; `none` is a read past the buffer.
unfoldable pub calculate_reply_crc : Crc → Bytes → Option ℕ
calculate_reply_crc crc buffer =
    let count = (length buffer + 2 ^ 64 - unchecked_bytes) % 2 ^ 64 in
    if leb (1 + count) (length buffer) then some (crc.checksum (slice buffer 1 count)) else none

-- `calculateReplyCrc(message)`, on the memory of the struct.
unfoldable pub calculate_struct_crc : Crc → ℕ → Bytes → ℕ
calculate_struct_crc crc reply_size raw = crc.checksum (slice raw 1 (reply_size - unchecked_bytes))

-- `validateCommandHeader(header)`.
unfoldable pub validate_command_header : {R : Type 0} → Worker R → ℕ × ℕ → Bool
validate_command_header w header = same_chars header w.header

-- `validateReplyType(header)`.
unfoldable pub validate_reply_type : {R : Type 0} → Worker R → CommandReplyHeader → Bool
validate_reply_type w header =
    same_chars header.header w.header && same_chars header.sub_header w.sub_header

-- `validateSize(recv_bytes)`.
abbrev pub validate_size : {R : Type 0} → Worker R → ℕ → Bool
validate_size w recv_bytes = recv_bytes == w.reply_size

-- What the locals that `process` and `validateCrc` do not initialise hold before they are read.
pub record Locals : Type 0 where
  pub recv_bytes : ℕ
  pub status : ℕ
  pub expected_crc : ℕ

module _ {R : Type 0} (crc : Crc) (u : Locals) (w : Worker R) where
  -- `validateCrc(buffer, is_size_valid)`; `none` is a read past the buffer.
  unfoldable pub validate_buffer_crc : Bytes → Bool → Option Bool
  validate_buffer_crc buffer is_size_valid = do
    current_crc ← calculate_reply_crc crc buffer
    let here = (length buffer + 2 ^ 64 - 1 - footer_size) % 2 ^ 64
    let expected =
        assigned u.expected_crc
          (decode_at u32 buffer (offset_of command_footer_layout 0 + w.footer_offset) 0)
    let guessed =
        assigned u.expected_crc (decode_at u32 buffer (offset_of command_footer_layout 0 + here) 0)
    some (
        if is_size_valid
        then current_crc == expected
        else if not (here == 0)
        then false
        else current_crc == guessed)

  -- `validateCrc(reply)`: a checksum that cannot be decoded stays as it lies in memory.
  unfoldable pub validate_struct_crc : Bytes → Bool
  validate_struct_crc raw =
      let stored = (command_footer_at raw (w.reply_size - footer_size)).crc in
      calculate_struct_crc crc w.reply_size raw == assigned stored (decode_field u32 stored)

  -- `process(raw_reply)`: `raw` is the memory of the struct.
  unfoldable pub process_struct : Bytes → Processed R
  process_struct raw =
      let header = command_reply_header_at raw 0 in
      elim (decode_field u32 header.cmd_size) [
        | none ↦ refused size_undecodable
        | some recv_bytes ↦ elim (decode_field u16 header.status) [
          | none ↦ refused status_undecodable
          | some status ↦
              if not (validate_size w recv_bytes)
              then elim (validate_buffer_crc raw false) [
                | some true ↦ refused unexpected_packet
                | _ ↦ refused wrong_size_and_crc
              ]
              else if not (validate_struct_crc raw)
              then refused wrong_crc
              else if not (is_ok (validate_status status))
              then refused bad_status
              else decoded (w.decode raw)
        ]
      ]

  -- `process(buffer)` on text; `uninit` is the reply before it is decoded. `none` is a read past the
  -- buffer.
  unfoldable pub process_buffer : R → Bytes → Option (Processed R)
  process_buffer uninit buffer =
      let size_at = offset_of command_reply_header_layout 1 + w.header_offset in
      let status_at = offset_of command_reply_header_layout 4 + w.header_offset in
      let recv_bytes = assigned u.recv_bytes (decode_at u32 buffer size_at 0) in
      let is_size_valid = validate_size w recv_bytes && length buffer == recv_bytes in
      let status = assigned u.status (decode_at u16 buffer status_at 0) in
      do
        is_crc_valid ← validate_buffer_crc buffer is_size_valid
        some (
            if not is_size_valid || not is_crc_valid
            then refused (
                if is_crc_valid
                then unexpected_packet
                else if is_size_valid
                then wrong_crc
                else wrong_size_and_crc)
            else if not (is_ok (validate_status status))
            then refused bad_status
            else decoded (w.decode_buffer uninit buffer))

-- `processReply(reply, time)`: the result, and the reply that the callback is called with. Without a
-- callback the reply is dropped.
abbrev pub process_reply : {R : Type 0} → Bool → Option R → Bool × Option R
process_reply has_callback none = (false, none)
process_reply has_callback (some r) = (true, if has_callback then some r else none)

-- `processByHandler(raw_reply, time)`.
unfoldable pub process_by_handler :
    {R : Type 0} → Crc → Locals → Worker R → Bool → Bytes → Bool × Option R
process_by_handler crc u w has_callback raw =
    process_reply has_callback (to_option (process_struct crc u w raw))
