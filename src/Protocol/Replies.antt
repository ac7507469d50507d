-- ===== src/Protocol/Replies.antt =====
-- The replies with data of urg_node/include/uam/protocol_types/uam_protocol_types.h, each as its
-- struct, its layout and its overlay on raw memory.
use urg_node.Prelude.{ℕ, zero, suc, ◌+◌, ◌-◌, List, [], ◌∷◌, ◌++◌}
use urg_node.Codec.Bytes.{Bytes, slice, read_uint}
use urg_node.Codec.Field.{u32}
use urg_node.Protocol.Layout.{Layout, byte, chars, array, size_of, offset_of}
use urg_node.Protocol.Header.{
  CommandReplyHeader, CommandFooter, EmptyCommandReply, command_reply_header_layout,
  command_reply_header_at, command_footer_layout, command_footer_at, header_size, footer_size,
}
use urg_node.Protocol.Sensing.{SensingDataHeader, sensing_data_layout, sensing_data_at}
use urg_node.Protocol.Status.{StatusData, status_data_layout, status_data_at}

-- Maximum number of steps.
abbrev pub nr_ranges : ℕ
nr_ranges = 1081

-- Maximum number of range readings in multiecho mode.
abbrev pub nr_ranges_multiecho : ℕ
nr_ranges_multiecho = 2161

-- Largest safety area index that the firmware has.
abbrev pub max_safety_area_index : ℕ
max_safety_area_index = 32

-- An array of `n` integers of `w` bytes at `base`.
unfoldable pub read_uints : Bytes → ℕ → ℕ → ℕ → List ℕ
read_uints bs base w zero = []
read_uints bs base w (suc n) = read_uint bs base w ∷ read_uints bs (base + w) w n

-- The data of a reply lies between the header and the footer.
abbrev pub reply_layout : Layout → Layout
reply_layout payload = command_reply_header_layout ++ payload ++ command_footer_layout

abbrev pub empty_reply_size : ℕ
empty_reply_size = size_of (reply_layout [])

unfoldable pub empty_reply_at : Bytes → EmptyCommandReply
empty_reply_at bs = record {
  header = command_reply_header_at bs 0;
  footer = command_footer_at bs header_size;
}

pub record Ar00CommandReply : Type 0 where
  pub header : CommandReplyHeader
  pub sensing_data : SensingDataHeader
  pub ranges : List ℕ
  pub footer : CommandFooter

abbrev pub distance_start : ℕ
distance_start = header_size + size_of sensing_data_layout

abbrev pub intensity_start : ℕ
intensity_start = distance_start + size_of (array u32 nr_ranges ∷ [])

abbrev pub ar00_reply_size : ℕ
ar00_reply_size = size_of (reply_layout (sensing_data_layout ++ (array u32 nr_ranges ∷ [])))

unfoldable pub ar00_reply_at : Bytes → Ar00CommandReply
ar00_reply_at bs = record {
  header = command_reply_header_at bs 0;
  sensing_data = sensing_data_at bs header_size;
  ranges = read_uints bs distance_start 4 nr_ranges;
  footer = command_footer_at bs (ar00_reply_size - footer_size);
}

pub record Ar01CommandReply : Type 0 where
  pub header : CommandReplyHeader
  pub sensing_data : SensingDataHeader
  pub ranges : List ℕ
  pub intensities : List ℕ
  pub footer : CommandFooter

abbrev pub ar01_reply_size : ℕ
ar01_reply_size =
    size_of (reply_layout (sensing_data_layout ++ (array u32 nr_ranges ∷ array u32 nr_ranges ∷ [])))

unfoldable pub ar01_reply_at : Bytes → Ar01CommandReply
ar01_reply_at bs = record {
  header = command_reply_header_at bs 0;
  sensing_data = sensing_data_at bs header_size;
  ranges = read_uints bs distance_start 4 nr_ranges;
  intensities = read_uints bs intensity_start 4 nr_ranges;
  footer = command_footer_at bs (ar01_reply_size - footer_size);
}

pub record Ar06CommandReply : Type 0 where
  pub header : CommandReplyHeader
  pub sensing_data : SensingDataHeader
  pub ranges : List ℕ
  pub footer : CommandFooter

abbrev pub ar06_reply_size : ℕ
ar06_reply_size =
    size_of (reply_layout (sensing_data_layout ++ (array u32 nr_ranges_multiecho ∷ [])))

unfoldable pub ar06_reply_at : Bytes → Ar06CommandReply
ar06_reply_at bs = record {
  header = command_reply_header_at bs 0;
  sensing_data = sensing_data_at bs header_size;
  ranges = read_uints bs distance_start 4 nr_ranges_multiecho;
  footer = command_footer_at bs (ar06_reply_size - footer_size);
}

pub record Xr00CommandReply : Type 0 where
  pub header : CommandReplyHeader
  pub status_data : StatusData
  pub footer : CommandFooter

abbrev pub xr00_reply_size : ℕ
xr00_reply_size = size_of (reply_layout status_data_layout)

unfoldable pub xr00_reply_at : Bytes → Xr00CommandReply
xr00_reply_at bs = record {
  header = command_reply_header_at bs 0;
  status_data = status_data_at bs header_size;
  footer = command_footer_at bs (xr00_reply_size - footer_size);
}

pub record VersionDetails : Type 0 where
  pub sensor_model : Bytes
  pub comma0 : ℕ
  pub firmware_version : Bytes
  pub comma1 : ℕ
  pub reserved0 : Bytes
  pub comma2 : ℕ
  pub serial_number : Bytes
  pub comma3 : ℕ

abbrev pub version_details_layout : Layout
version_details_layout = chars 29 ∷ byte ∷ chars 29 ∷ byte ∷ chars 37 ∷ byte ∷ chars 8 ∷ byte ∷ []

unfoldable pub version_details_at : Bytes → ℕ → VersionDetails
version_details_at bs base = record {
  sensor_model = slice bs (base + offset_of version_details_layout 0) 29;
  comma0 = read_uint bs (base + offset_of version_details_layout 1) 1;
  firmware_version = slice bs (base + offset_of version_details_layout 2) 29;
  comma1 = read_uint bs (base + offset_of version_details_layout 3) 1;
  reserved0 = slice bs (base + offset_of version_details_layout 4) 37;
  comma2 = read_uint bs (base + offset_of version_details_layout 5) 1;
  serial_number = slice bs (base + offset_of version_details_layout 6) 8;
  comma3 = read_uint bs (base + offset_of version_details_layout 7) 1;
}

pub record Vr00CommandReply : Type 0 where
  pub header : CommandReplyHeader
  pub version_details : VersionDetails
  pub footer : CommandFooter

abbrev pub vr00_reply_size : ℕ
vr00_reply_size = size_of (reply_layout version_details_layout)

unfoldable pub vr00_reply_at : Bytes → Vr00CommandReply
vr00_reply_at bs = record {
  header = command_reply_header_at bs 0;
  version_details = version_details_at bs header_size;
  footer = command_footer_at bs (vr00_reply_size - footer_size);
}

-- ID1 with date and IP settings, ID2 without.
pub record ConfigurationId : Type 0 where
  pub id_1 : Bytes
  pub id_2 : Bytes

abbrev pub configuration_id_layout : Layout
configuration_id_layout = chars 8 ∷ chars 8 ∷ []

unfoldable pub configuration_id_at : Bytes → ℕ → ConfigurationId
configuration_id_at bs base = record {
  id_1 = slice bs (base + offset_of configuration_id_layout 0) 8;
  id_2 = slice bs (base + offset_of configuration_id_layout 1) 8;
}

pub record Id00CommandReply : Type 0 where
  pub header : CommandReplyHeader
  pub config_id : ConfigurationId
  pub footer : CommandFooter

abbrev pub id00_reply_size : ℕ
id00_reply_size = size_of (reply_layout configuration_id_layout)

unfoldable pub id00_reply_at : Bytes → Id00CommandReply
id00_reply_at bs = record {
  header = command_reply_header_at bs 0;
  config_id = configuration_id_at bs header_size;
  footer = command_footer_at bs (id00_reply_size - footer_size);
}
