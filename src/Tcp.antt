-- ===== src/Tcp.antt =====
-- `TcpClient` of urg_node/include/uam/io/tcp_client.h and urg_node/src/uam/io/tcp_client.cpp: the loop of
-- asynchronous reads that fills the packet buffer. The socket is the list of reads that are under way;
-- what ends a read, and with which bytes, comes from outside.
pub mod Steps
pub mod Loop
pub mod Windows
pub mod Assembly
use urg_node.Prelude.{
  ℕ, ◌+◌, ◌-◌, ◌%◌, ◌^◌, Bool, true, false, not, ◌||◌, Option, none, some, List, [], ◌∷◌, ◌++◌, leb,
  ◌==◌, if◌then◌else◌, length, take, drop,
}
use urg_node.Codec.Bytes.{Bytes}
use urg_node.Codec.Field.{u32, decode_field}
use urg_node.Protocol.Header.{CommandReplyHeader, header_size, command_reply_header_at}
use urg_node.Protocol.Replies.{ar01_reply_size}
use urg_node.Protocol.Packet.{ShapeShifterPacket}

-- A read that is under way: of a header from an offset on, or of the rest of a packet, whose count of
-- bytes `handlePacket` is bound to.
pub data Read : Type 0 where
  header_read rest_read : ℕ → Read

pub record TcpClient : Type 0 where
  pub receive_buffer : ShapeShifterPacket
  pub connected : Bool
  pub stopped : Bool
  pub filter_callback : Option (ℕ × ℕ → Bool)
  pub pending : List Read

-- The constructors.
abbrev pub new_client : ShapeShifterPacket → Option (ℕ × ℕ → Bool) → TcpClient
new_client buffer filter = record {
  receive_buffer = buffer;
  connected = false;
  stopped = true;
  filter_callback = filter;
  pending = [];
}

-- `disconnect()`. The reads that are under way end with an error later.
unfoldable pub disconnect : TcpClient → TcpClient
disconnect c = if c.connected then record c { connected = false; stopped = true } else c

-- The address that `connect` is given: none, one that is no address, or one that is.
pub data Address : Type 0 where
  no_ip bad_ip good_ip : Address

-- How the attempt to connect ends.
pub data Attempt : Type 0 where
  timed_out failed established : Attempt

-- `connect(remote_ip, remote_port)`: `option_set` is whether `no_delay` could be set.
unfoldable pub connect : TcpClient → Address → Attempt → Bool → TcpClient × Bool
connect c address attempt option_set =
    let c' = if c.connected then disconnect c else c in
    elim address [
      | bad_ip ↦ (c', false)
      | _ ↦ elim attempt [
        | established ↦
            let c2 = record c' { connected = true } in
            if not option_set then (disconnect c2, false) else (c2, true)
        | _ ↦ (c', false)
      ]
    ]

-- `asyncReadData(packet_offset)`.
unfoldable pub async_read_data : TcpClient → ℕ → TcpClient
async_read_data c packet_offset =
    if not c.connected
    then record c { stopped = true }
    else record c { pending = c.pending ++ (header_read packet_offset ∷ []) }

-- `startAsyncReadTask()`.
unfoldable pub start_async_read_task : TcpClient → TcpClient × Bool
start_async_read_task c =
    if not c.connected
    then (c, false)
    else if not c.stopped
    then (c, true)
    else (record (async_read_data c 0) { stopped = false }, true)

-- `asyncSend(command, timeout)`: `sent` is the count of bytes that went out in time.
unfoldable pub async_send : TcpClient → Bytes → Option ℕ → Bool
async_send c command sent =
    if not c.connected then false else elim sent [ none ↦ false | some n ↦ n == length command ]

-- `handlePacket(error_code, bytes_transferred, missing_read, stamp)`, with the packet that the callback
-- is called with.
unfoldable pub handle_packet : TcpClient → Bool → ℕ → ℕ → TcpClient × Option ShapeShifterPacket
handle_packet c error bytes_transferred missing_read =
    let packet =
      if error
      then none
      else if not (bytes_transferred == missing_read)
      then none
      else some c.receive_buffer in
    (async_read_data c 0, packet)

-- `filter_callback_(header)`, where there is one.
abbrev pub passes : TcpClient → ℕ × ℕ → Bool
passes c header = elim c.filter_callback [ none ↦ true | some f ↦ f header ]

-- `expected_total_size - bytes_transferred`, as a `size_t`.
abbrev pub missing_bytes : ℕ → ℕ → ℕ
missing_bytes expected_total_size bytes_transferred =
    (expected_total_size + 2 ^ 64 - bytes_transferred) % 2 ^ 64

-- `handleReceive(error_code, bytes_transferred)`.
unfoldable pub handle_receive : TcpClient → Bool → ℕ → TcpClient
handle_receive c error bytes_transferred =
    let h = command_reply_header_at c.receive_buffer.raw_buffer 0 in
    if error || not (header_size == bytes_transferred)
    then async_read_data c 0
    else if passes c h.header
    then elim (decode_field u32 h.cmd_size) [
      | none ↦ async_read_data c 0
      | some expected_total_size ↦
          if leb expected_total_size ar01_reply_size
          then record c {
            pending =
                c.pending ++ (rest_read (missing_bytes expected_total_size bytes_transferred) ∷ []);
          }
          else async_read_data c 0
    ]
    else async_read_data c 0

-- The bytes that a read put at `start`.
abbrev pub write_at : Bytes → ℕ → Bytes → Bytes
write_at buffer start bs = take start buffer ++ (bs ++ drop (start + length bs) buffer)

-- Where a read puts its bytes, and how many at most.
abbrev pub read_start : Read → ℕ
read_start (header_read packet_offset) = packet_offset
read_start (rest_read missing_read) = header_size

abbrev pub read_size : Read → ℕ
read_size (header_read packet_offset) = header_size - packet_offset
read_size (rest_read missing_read) = missing_read

-- A read ends: its bytes are in the buffer, and its handler runs.
unfoldable pub complete : TcpClient → Read → Bool → Bytes → TcpClient × Option ShapeShifterPacket
complete c read error bs =
    let buffer = write_at c.receive_buffer.raw_buffer (read_start read) bs in
    let c' = record c { receive_buffer = record { raw_buffer = buffer } } in
    elim read [
      | header_read packet_offset ↦ (handle_receive c' error (length bs), none)
      | rest_read missing_read ↦ handle_packet c' error (length bs) missing_read
    ]
