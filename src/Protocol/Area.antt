-- ===== src/Protocol/Area.antt =====
-- The YR command of urg_node/include/uam/protocol_types/uam_protocol_types.h, which asks for one
-- safety area.
use urg_node.Prelude.{ℕ, ◌+◌, ◌-◌, List, [], ◌∷◌, ◌++◌}
use urg_node.Codec.Bytes.{Bytes, read_uint}
use urg_node.Codec.Field.{u16, u32}
use urg_node.Protocol.Layout.{Layout, byte, field, chars, array, size_of, offset_of}
use urg_node.Protocol.Header.{CommandFooter, command_footer_layout, command_footer_at, footer_size}
use urg_node.Protocol.Replies.{nr_ranges, read_uints}

pub record YrCommandHeader : Type 0 where
  pub stx : ℕ
  pub cmd_size : ℕ
  pub header : ℕ × ℕ
  pub area_type : ℕ
  pub area_number : ℕ
  pub start_step : ℕ
  pub end_step : ℕ
  pub resolution : ℕ

abbrev pub yr_command_header_layout : Layout
yr_command_header_layout =
    byte ∷ field u32 ∷ chars 2 ∷ field u16 ∷ field u16 ∷ field u32 ∷ field u32 ∷ field u16 ∷ []

unfoldable pub yr_command_header_at : Bytes → ℕ → YrCommandHeader
yr_command_header_at bs base = record {
  stx = read_uint bs (base + offset_of yr_command_header_layout 0) 1;
  cmd_size = read_uint bs (base + offset_of yr_command_header_layout 1) 4;
  header = (
    read_uint bs (base + offset_of yr_command_header_layout 2) 1,
    read_uint bs (base + (offset_of yr_command_header_layout 2 + 1)) 1,
  );
  area_type = read_uint bs (base + offset_of yr_command_header_layout 3) 2;
  area_number = read_uint bs (base + offset_of yr_command_header_layout 4) 2;
  start_step = read_uint bs (base + offset_of yr_command_header_layout 5) 4;
  end_step = read_uint bs (base + offset_of yr_command_header_layout 6) 4;
  resolution = read_uint bs (base + offset_of yr_command_header_layout 7) 2;
}

pub record YrCommandRequest : Type 0 where
  pub header : YrCommandHeader
  pub footer : CommandFooter

abbrev pub yr_request_size : ℕ
yr_request_size = size_of yr_command_header_layout + footer_size

pub record YrCommandReplyHeader : Type 0 where
  pub header : YrCommandHeader
  pub status : ℕ

abbrev pub yr_reply_header_layout : Layout
yr_reply_header_layout = yr_command_header_layout ++ (field u16 ∷ [])

pub record YrCommandReply : Type 0 where
  pub header : YrCommandReplyHeader
  pub area_data : List ℕ
  pub footer : CommandFooter

abbrev pub yr_reply_size : ℕ
yr_reply_size =
    size_of (yr_reply_header_layout ++ (array u32 nr_ranges ∷ []) ++ command_footer_layout)

unfoldable pub yr_reply_at : Bytes → YrCommandReply
yr_reply_at bs = record {
  header = record {
    header = yr_command_header_at bs 0;
    status = read_uint bs (offset_of yr_reply_header_layout 8) 2;
  };
  area_data = read_uints bs (size_of yr_reply_header_layout) 4 nr_ranges;
  footer = command_footer_at bs (yr_reply_size - footer_size);
}

-- The last constructor, `MAX`, counts the types.
pub data EyrAreaType : Type 0 where
  protection_1 protection_2 warning_1 warning_2 muting_1 muting_2 : EyrAreaType
  reference_center reference_max reference_min : EyrAreaType

abbrev pub area_type_code : EyrAreaType → ℕ
area_type_code protection_1 = 0
area_type_code protection_2 = 1
area_type_code warning_1 = 2
area_type_code warning_2 = 3
area_type_code muting_1 = 4
area_type_code muting_2 = 5
area_type_code reference_center = 6
area_type_code reference_max = 7
area_type_code reference_min = 8
