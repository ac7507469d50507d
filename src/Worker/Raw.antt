-- ===== src/Worker/Raw.antt =====
-- The replies whose text is copied as it is: VR00 and ID00, through `getRaw` of
-- urg_node/include/uam/visitor.h.
use urg_node.Prelude.{
  ℕ, ◌+◌, ◌-◌, Bool, true, false, Option, none, some, ◌>>=◌, ◌==◌, leb, [], ◌∷◌, if◌then◌else◌,
  ◌&&◌, ◌||◌, length,
}
use urg_node.Codec.Bytes.{Bytes, slice}
use urg_node.Protocol.Layout.{offset_of}
use urg_node.Protocol.Header.{header_size, footer_size}
use urg_node.Protocol.Replies.{
  Vr00CommandReply, Id00CommandReply, VersionDetails, ConfigurationId, vr00_reply_size,
  id00_reply_size, vr00_reply_at, id00_reply_at, version_details_layout, configuration_id_layout,
}
use urg_node.Worker.Base.{Worker, decode_header_and_footer_at}
use urg_node.Worker.Kinds.{decode_vr00, decode_id00}

-- What `isspace` accepts: the stream passes over it.
abbrev pub is_space : ℕ → Bool
is_space c = c == 32 || (leb 9 c && leb c 13)

-- `ss << buffer.substr(index, 1); ss >> element`: one character, or the old one where only a space
-- or nothing was written.
abbrev pub stream_char : ℕ → Bytes → ℕ
stream_char before [] = before
stream_char before (c ∷ cs) = if is_space c then before else c

-- What a visitor's call comes to: it throws, as `substr` does where its index is past the buffer, or
-- it returns its result with the field.
pub data Visit (A : Type 0) : Type 0 where
  throws : Visit A
  returns : Bool → A → Visit A

-- `getRaw(buffer, field)` of an array of characters, from the element at `index` on.
unfoldable pub get_raw : Bytes → ℕ → Bytes → Visit Bytes
get_raw buffer index [] = returns true []
get_raw buffer index (old ∷ olds) =
    let rest = get_raw buffer (index + 1) olds in
    if leb index (length buffer)
    then elim rest [
      | throws ↦ throws
      | returns result field ↦ returns result (stream_char old (slice buffer index 1) ∷ field)
    ]
    else throws

-- `decodeVersionDetails(buffer, version_details)`: a member that is not read returns `false`.
unfoldable pub decode_version_details_at : ℕ → Bytes → VersionDetails → Visit VersionDetails
decode_version_details_at idx_offset buffer details =
    elim (get_raw buffer (offset_of version_details_layout 0 + idx_offset) details.sensor_model) [
      | throws ↦ throws
      | returns false model ↦ returns false details
      | returns true model ↦
          elim (get_raw buffer (offset_of version_details_layout 2 + idx_offset)
            details.firmware_version) [
              | throws ↦ throws
              | returns false version ↦ returns false details
              | returns true version ↦
                  elim (get_raw buffer (offset_of version_details_layout 6 + idx_offset)
                    details.serial_number) [
                      | throws ↦ throws
                      | returns false number ↦ returns false details
                      | returns true number ↦ returns true (record details {
                        sensor_model = model;
                        firmware_version = version;
                        serial_number = number;
                      })
                    ]
            ]
    ]

-- `decodeConfigurationID(buffer, configuration_id)`: here a member that IS read returns `false`.
unfoldable pub decode_configuration_id_at : ℕ → Bytes → ConfigurationId → Visit ConfigurationId
decode_configuration_id_at idx_offset buffer ids =
    elim (get_raw buffer (offset_of configuration_id_layout 0 + idx_offset) ids.id_1) [
      | throws ↦ throws
      | returns true id ↦ returns false (record ids { id_1 = id })
      | returns false id ↦
          elim (get_raw buffer (offset_of configuration_id_layout 1 + idx_offset) ids.id_2) [
            | throws ↦ throws
            | returns true id' ↦ returns false (record ids { id_1 = id; id_2 = id' })
            | returns false id' ↦ returns true (record ids { id_1 = id; id_2 = id' })
          ]
    ]

-- A decoding that ran to its end with `true`. `process` calls `decode(buffer)` only on a buffer of the
-- reply's size, in which no index is past the end.
abbrev pub visited : {A : Type 0} → Visit A → Option A
visited throws = none
visited (returns false a) = none
visited (returns true a) = some a

unfoldable pub decode_vr00_buffer : ℕ → Vr00CommandReply → Bytes → Option Vr00CommandReply
decode_vr00_buffer idx_offset reply buffer = do
  frame ←
      decode_header_and_footer_at idx_offset (idx_offset + (vr00_reply_size - footer_size)) buffer
        reply.header reply.footer
  details ←
      visited (decode_version_details_at (idx_offset + header_size) buffer reply.version_details)
  some (record reply { header = frame.0; version_details = details; footer = frame.1 })

unfoldable pub vr00_worker : ℕ → Worker Vr00CommandReply
vr00_worker idx_offset = record {
  header = (b'V', b'R');
  sub_header = (b'0', b'0');
  reply_size = vr00_reply_size;
  header_offset = idx_offset;
  footer_offset = idx_offset + (vr00_reply_size - footer_size);
  decode = λ raw. decode_vr00 (vr00_reply_at raw);
  decode_buffer = decode_vr00_buffer idx_offset;
}

unfoldable pub decode_id00_buffer : ℕ → Id00CommandReply → Bytes → Option Id00CommandReply
decode_id00_buffer idx_offset reply buffer = do
  frame ←
      decode_header_and_footer_at idx_offset (idx_offset + (id00_reply_size - footer_size)) buffer
        reply.header reply.footer
  ids ← visited (decode_configuration_id_at (idx_offset + header_size) buffer reply.config_id)
  some (record reply { header = frame.0; config_id = ids; footer = frame.1 })

unfoldable pub id00_worker : ℕ → Worker Id00CommandReply
id00_worker idx_offset = record {
  header = (b'I', b'D');
  sub_header = (b'0', b'0');
  reply_size = id00_reply_size;
  header_offset = idx_offset;
  footer_offset = idx_offset + (id00_reply_size - footer_size);
  decode = λ raw. decode_id00 (id00_reply_at raw);
  decode_buffer = decode_id00_buffer idx_offset;
}
