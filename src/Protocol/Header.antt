-- ===== src/Protocol/Header.antt =====
-- The frame of the commands and replies: headers, footer and the structs that hold nothing else, of
-- urg_node/include/uam/protocol_types/uam_protocol_types.h.
use urg_node.Prelude.{ℕ, ◌+◌, [], ◌∷◌}
use urg_node.Codec.Bytes.{Bytes, read_uint}
use urg_node.Codec.Field.{u16, u32}
use urg_node.Protocol.Layout.{Layout, byte, field, chars, size_of, offset_of}

abbrev pub stx_id : ℕ
stx_id = 0x02

abbrev pub etx_id : ℕ
etx_id = 0x03

pub record CommandRequestHeader : Type 0 where
  pub stx : ℕ
  pub cmd_size : ℕ
  pub header : ℕ × ℕ
  pub sub_header : ℕ × ℕ

abbrev pub command_request_header_layout : Layout
command_request_header_layout = byte ∷ field u32 ∷ chars 2 ∷ chars 2 ∷ []

pub record CommandReplyHeader : Type 0 where
  pub stx : ℕ
  pub cmd_size : ℕ
  pub header : ℕ × ℕ
  pub sub_header : ℕ × ℕ
  pub status : ℕ

abbrev pub command_reply_header_layout : Layout
command_reply_header_layout = byte ∷ field u32 ∷ chars 2 ∷ chars 2 ∷ field u16 ∷ []

-- `sizeof(CommandReplyHeader)`, which is where the data of every reply starts.
abbrev pub header_size : ℕ
header_size = size_of command_reply_header_layout

-- The header as it lies in memory at `base`.
unfoldable pub command_reply_header_at : Bytes → ℕ → CommandReplyHeader
command_reply_header_at bs base = record {
  stx = read_uint bs (base + offset_of command_reply_header_layout 0) 1;
  cmd_size = read_uint bs (base + offset_of command_reply_header_layout 1) 4;
  header = (
    read_uint bs (base + offset_of command_reply_header_layout 2) 1,
    read_uint bs (base + (offset_of command_reply_header_layout 2 + 1)) 1,
  );
  sub_header = (
    read_uint bs (base + offset_of command_reply_header_layout 3) 1,
    read_uint bs (base + (offset_of command_reply_header_layout 3 + 1)) 1,
  );
  status = read_uint bs (base + offset_of command_reply_header_layout 4) 2;
}

pub record CommandFooter : Type 0 where
  pub crc : ℕ
  pub etx : ℕ

abbrev pub command_footer_layout : Layout
command_footer_layout = field u32 ∷ byte ∷ []

-- `sizeof(CommandFooter)`.
abbrev pub footer_size : ℕ
footer_size = size_of command_footer_layout

-- The footer as it lies in memory at `base`.
unfoldable pub command_footer_at : Bytes → ℕ → CommandFooter
command_footer_at bs base = record {
  crc = read_uint bs (base + offset_of command_footer_layout 0) 4;
  etx = read_uint bs (base + offset_of command_footer_layout 1) 1;
}

pub record CommandRequest : Type 0 where
  pub header : CommandRequestHeader
  pub footer : CommandFooter

-- `sizeof(CommandRequest)`.
abbrev pub request_size : ℕ
request_size = size_of command_request_header_layout + footer_size

pub record EmptyCommandReply : Type 0 where
  pub header : CommandReplyHeader
  pub footer : CommandFooter
