-- ===== src/Worker/Yr.antt =====
-- The reply side of urg_node/include/uam/workers/yr_worker.h. Nothing of a reply is tested: the result
-- of every `decodeField` is dropped, and `validateCrc` and `validateStatus` are not called.
use urg_node.Prelude.{ℕ, Bool, true, false, Option, none, some, List, [], ◌∷◌, if◌then◌else◌}
use urg_node.Codec.Bytes.{Bytes}
use urg_node.Codec.Field.{FieldType, u16, u32, decode_field}
use urg_node.Protocol.Area.{YrCommandReply, yr_reply_at}
use urg_node.Worker.Base.{assigned, same_chars}

-- `decodeField(field)` whose result is dropped: a field that cannot be decoded keeps its memory.
abbrev pub decode_in_place : FieldType → ℕ → ℕ
decode_in_place t raw = assigned raw (decode_field t raw)

-- The same for an array: the elements from the first failure on keep their memory.
unfoldable pub decode_all_in_place : FieldType → List ℕ → List ℕ
decode_all_in_place t [] = []
decode_all_in_place t (raw ∷ raws) =
    let rest = decode_all_in_place t raws in
    elim (decode_field t raw) [ none ↦ raw ∷ raws | some v ↦ v ∷ rest ]

-- `decodeHeaderAndfooter(reply)`, and the area data after it.
unfoldable pub decode_yr : YrCommandReply → YrCommandReply
decode_yr reply =
    let h = reply.header.header in
    record reply {
      header = record {
        header = record h {
          cmd_size = decode_in_place u32 h.cmd_size;
          area_type = decode_in_place u16 h.area_type;
          area_number = decode_in_place u16 h.area_number;
          start_step = decode_in_place u32 h.start_step;
          end_step = decode_in_place u32 h.end_step;
          resolution = decode_in_place u16 h.resolution;
        };
        status = decode_in_place u16 reply.header.status;
      };
      area_data = decode_all_in_place u32 reply.area_data;
      footer = record reply.footer { crc = decode_in_place u32 reply.footer.crc };
    }

-- `process(raw_reply)`.
unfoldable pub process_yr : Bytes → Option YrCommandReply
process_yr raw = some (decode_yr (yr_reply_at raw))

-- `validateReplyType(packet)` and `validateCommandHeader(header)`.
abbrev pub is_yr : ℕ × ℕ → Bool
is_yr header = same_chars header (b'Y', b'R')

-- `processByHandler(raw_reply)`.
unfoldable pub process_yr_by_handler : Bool → Bytes → Bool × Option YrCommandReply
process_yr_by_handler has_callback raw = elim (process_yr raw) [
  | none ↦ (false, none)
  | some reply ↦ (true, if has_callback then some reply else none)
]
