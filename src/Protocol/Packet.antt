-- ===== src/Protocol/Packet.antt =====
-- urg_node/include/uam/shape_shifter_packet.h: one buffer for every reply. The buffer is its memory,
-- and `get<T>` is the overlay of T's struct on it. The size is computed as
-- urg_node/include/uam/type_traits.h computes it.
use urg_node.Prelude.{ℕ, List, [], ◌∷◌, ◌++◌, leb, if◌then◌else◌, length, take, drop}
use urg_node.Codec.Bytes.{Bytes}
use urg_node.Protocol.Header.{header_size}
use urg_node.Protocol.Replies.{
  empty_reply_size, ar00_reply_size, ar01_reply_size, ar06_reply_size, xr00_reply_size,
  vr00_reply_size, id00_reply_size,
}
use urg_node.Protocol.Area.{yr_reply_size}

-- `getMaxSize<Tuple, Index0, Index1, TypeN...>`: the larger of the first two goes on.
unfoldable pub get_max_size : ℕ → List ℕ → ℕ
get_max_size first [] = first
get_max_size first (second ∷ rest) = get_max_size (if leb second first then first else second) rest

-- The sizes of `SupportedTypes` after the first, `CommandReplyHeader`.
abbrev pub supported_sizes : List ℕ
supported_sizes =
    ar00_reply_size ∷ ar01_reply_size ∷ empty_reply_size ∷ ar06_reply_size ∷ xr00_reply_size
    ∷ vr00_reply_size ∷ id00_reply_size ∷ yr_reply_size ∷ []

unfoldable pub buffer_size : ℕ
buffer_size = get_max_size header_size supported_sizes

pub record ShapeShifterPacket : Type 0 where
  pub raw_buffer : Bytes

-- The memory of the member of the union that has `size` bytes.
abbrev pub member_bytes : ShapeShifterPacket → ℕ → Bytes
member_bytes packet size = take size packet.raw_buffer

-- `set(message)`: the bytes of the message replace the first ones of the buffer.
unfoldable pub set_message : ShapeShifterPacket → Bytes → ShapeShifterPacket
set_message packet message = record packet {
  raw_buffer = message ++ drop (length message) packet.raw_buffer;
}
