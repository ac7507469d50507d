-- ===== src/Worker/Kinds.antt =====
-- The workers themselves: urg_node/src/uam/workers (AR00, AR01, AR06, XR00, VR00, ID00) and
-- urg_node/include/uam/workers/empty_reply_worker.h. Their `decode(raw_reply)` is overlaid on the memory
-- of the struct; `idx_offset` is 0 wherever the program builds one.
use urg_node.Prelude.{ℕ, ◌+◌, ◌-◌, Option, some, ◌>>=◌}
use urg_node.Codec.Bytes.{Bytes}
use urg_node.Codec.Field.{u32, decode_fields}
use urg_node.Protocol.Header.{EmptyCommandReply, header_size, footer_size}
use urg_node.Protocol.Replies.{
  Ar00CommandReply, Ar01CommandReply, Ar06CommandReply, Xr00CommandReply, Vr00CommandReply,
  Id00CommandReply, empty_reply_size, ar00_reply_size, ar01_reply_size, ar06_reply_size,
  xr00_reply_size, empty_reply_at, ar00_reply_at, ar01_reply_at, ar06_reply_at, xr00_reply_at,
}
use urg_node.Worker.Base.{Worker, decode_header_and_footer, decode_header_and_footer_at}
use urg_node.Worker.Sensing.{decode_sensing_data, decode_sensing_data_at, decode_multiecho_data_at}
use urg_node.Worker.StatusData.{decode_status_data, decode_status_data_at}

-- AR00: one scan.
unfoldable pub decode_ar00 : Ar00CommandReply → Option Ar00CommandReply
decode_ar00 reply = do
  frame ← decode_header_and_footer reply.header reply.footer
  sensing_data ← decode_sensing_data reply.sensing_data
  ranges ← decode_fields u32 reply.ranges
  some (record reply {
    header = frame.0;
    sensing_data = sensing_data;
    ranges = ranges;
    footer = frame.1;
  })

unfoldable pub decode_ar00_buffer : ℕ → Ar00CommandReply → Bytes → Option Ar00CommandReply
decode_ar00_buffer idx_offset reply buffer = do
  frame ←
      decode_header_and_footer_at idx_offset (idx_offset + (ar00_reply_size - footer_size)) buffer
        reply.header reply.footer
  sensing_data ← decode_sensing_data_at (idx_offset + header_size) buffer reply.sensing_data
  some (record reply { header = frame.0; sensing_data = sensing_data; footer = frame.1 })

unfoldable pub ar00_worker : ℕ → Worker Ar00CommandReply
ar00_worker idx_offset = record {
  header = (b'A', b'R');
  sub_header = (b'0', b'0');
  reply_size = ar00_reply_size;
  header_offset = idx_offset;
  footer_offset = idx_offset + (ar00_reply_size - footer_size);
  decode = λ raw. decode_ar00 (ar00_reply_at raw);
  decode_buffer = decode_ar00_buffer idx_offset;
}

-- AR01: one scan with intensities.
unfoldable pub decode_ar01 : Ar01CommandReply → Option Ar01CommandReply
decode_ar01 reply = do
  frame ← decode_header_and_footer reply.header reply.footer
  sensing_data ← decode_sensing_data reply.sensing_data
  ranges ← decode_fields u32 reply.ranges
  intensities ← decode_fields u32 reply.intensities
  some (record reply {
    header = frame.0;
    sensing_data = sensing_data;
    ranges = ranges;
    intensities = intensities;
    footer = frame.1;
  })

unfoldable pub decode_ar01_buffer : ℕ → Ar01CommandReply → Bytes → Option Ar01CommandReply
decode_ar01_buffer idx_offset reply buffer = do
  frame ←
      decode_header_and_footer_at idx_offset (idx_offset + (ar01_reply_size - footer_size)) buffer
        reply.header reply.footer
  sensing_data ← decode_sensing_data_at (idx_offset + header_size) buffer reply.sensing_data
  some (record reply { header = frame.0; sensing_data = sensing_data; footer = frame.1 })

unfoldable pub ar01_worker : ℕ → Worker Ar01CommandReply
ar01_worker idx_offset = record {
  header = (b'A', b'R');
  sub_header = (b'0', b'1');
  reply_size = ar01_reply_size;
  header_offset = idx_offset;
  footer_offset = idx_offset + (ar01_reply_size - footer_size);
  decode = λ raw. decode_ar01 (ar01_reply_at raw);
  decode_buffer = decode_ar01_buffer idx_offset;
}

-- AR06: one scan with several echoes.
unfoldable pub decode_ar06 : Ar06CommandReply → Option Ar06CommandReply
decode_ar06 reply = do
  frame ← decode_header_and_footer reply.header reply.footer
  sensing_data ← decode_sensing_data reply.sensing_data
  ranges ← decode_fields u32 reply.ranges
  some (record reply {
    header = frame.0;
    sensing_data = sensing_data;
    ranges = ranges;
    footer = frame.1;
  })

unfoldable pub decode_ar06_buffer : ℕ → Ar06CommandReply → Bytes → Option Ar06CommandReply
decode_ar06_buffer idx_offset reply buffer = do
  frame ←
      decode_header_and_footer_at idx_offset (idx_offset + (ar06_reply_size - footer_size)) buffer
        reply.header reply.footer
  sensing_data ← decode_multiecho_data_at (idx_offset + header_size) buffer reply.sensing_data
  some (record reply { header = frame.0; sensing_data = sensing_data; footer = frame.1 })

unfoldable pub ar06_worker : ℕ → Worker Ar06CommandReply
ar06_worker idx_offset = record {
  header = (b'A', b'R');
  sub_header = (b'0', b'6');
  reply_size = ar06_reply_size;
  header_offset = idx_offset;
  footer_offset = idx_offset + (ar06_reply_size - footer_size);
  decode = λ raw. decode_ar06 (ar06_reply_at raw);
  decode_buffer = decode_ar06_buffer idx_offset;
}

-- XR00: the status.
unfoldable pub decode_xr00 : Xr00CommandReply → Option Xr00CommandReply
decode_xr00 reply = do
  frame ← decode_header_and_footer reply.header reply.footer
  status_data ← decode_status_data reply.status_data
  some (record reply { header = frame.0; status_data = status_data; footer = frame.1 })

unfoldable pub decode_xr00_buffer : ℕ → Xr00CommandReply → Bytes → Option Xr00CommandReply
decode_xr00_buffer idx_offset reply buffer = do
  frame ←
      decode_header_and_footer_at idx_offset (idx_offset + (xr00_reply_size - footer_size)) buffer
        reply.header reply.footer
  status_data ← decode_status_data_at (idx_offset + header_size) buffer reply.status_data
  some (record reply { header = frame.0; status_data = status_data; footer = frame.1 })

unfoldable pub xr00_worker : ℕ → Worker Xr00CommandReply
xr00_worker idx_offset = record {
  header = (b'X', b'R');
  sub_header = (b'0', b'0');
  reply_size = xr00_reply_size;
  header_offset = idx_offset;
  footer_offset = idx_offset + (xr00_reply_size - footer_size);
  decode = λ raw. decode_xr00 (xr00_reply_at raw);
  decode_buffer = decode_xr00_buffer idx_offset;
}

-- VR00: the version. Its text is not encoded.
unfoldable pub decode_vr00 : Vr00CommandReply → Option Vr00CommandReply
decode_vr00 reply = do
  frame ← decode_header_and_footer reply.header reply.footer
  some (record reply { header = frame.0; footer = frame.1 })

-- ID00: the configuration, which is not decoded either.
unfoldable pub decode_id00 : Id00CommandReply → Option Id00CommandReply
decode_id00 reply = do
  frame ← decode_header_and_footer reply.header reply.footer
  some (record reply { header = frame.0; footer = frame.1 })

-- A reply without data.
unfoldable pub decode_empty : EmptyCommandReply → Option EmptyCommandReply
decode_empty reply = do
  frame ← decode_header_and_footer reply.header reply.footer
  some (record reply { header = frame.0; footer = frame.1 })

unfoldable pub decode_empty_buffer : ℕ → EmptyCommandReply → Bytes → Option EmptyCommandReply
decode_empty_buffer idx_offset reply buffer = do
  frame ←
      decode_header_and_footer_at idx_offset (idx_offset + (empty_reply_size - footer_size)) buffer
        reply.header reply.footer
  some (record reply { header = frame.0; footer = frame.1 })

unfoldable pub empty_reply_worker : ℕ × ℕ → ℕ × ℕ → ℕ → Worker EmptyCommandReply
empty_reply_worker header sub_header idx_offset = record {
  header = header;
  sub_header = sub_header;
  reply_size = empty_reply_size;
  header_offset = idx_offset;
  footer_offset = idx_offset + (empty_reply_size - footer_size);
  decode = λ raw. decode_empty (empty_reply_at raw);
  decode_buffer = decode_empty_buffer idx_offset;
}
