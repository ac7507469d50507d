-- ===== src/Tests/Client.antt =====
-- Runs of the client of urg_node/src/uam/io/tcp_client.cpp.
use urg_node.Prelude.{◌≡◌, refl, arith, true, false, none, some, [], ◌∷◌, take, drop}
use urg_node.Codec.Bytes.{le_bytes, read_uint}
use urg_node.Codec.Hex.{from_chars, hex_value, scan_hex}
use urg_node.Codec.Field.{u32, decode_field, get_from_chars}
use urg_node.Protocol.Header.{header_size, command_reply_header_at}
use urg_node.Protocol.Packet.{ShapeShifterPacket, member_bytes, buffer_size}
use urg_node.Tcp.{
  TcpClient, header_read, rest_read, new_client, good_ip, established, connect,
  start_async_read_task, complete,
}
use urg_node.Tcp.Steps.{created, after_step, connects, starts}
use urg_node.Tcp.Loop.{IsArmed, Reachable-IsArmed}
use urg_node.Tcp.Windows.{IsBounded, FairlyReachable, FairlyReachable-IsBounded}
use urg_node.Tcp.Windows
use urg_node.Tcp.Assembly.{complete-complete}
use urg_node.Tests.Samples.{ar02_ack, zeros, length-zeros}

abbrev pub blank : ShapeShifterPacket
blank = record { raw_buffer = zeros buffer_size }

abbrev pub fresh : TcpClient
fresh = new_client blank none

abbrev pub linked : TcpClient
linked = (connect fresh good_ip established true).0

abbrev reading : TcpClient
reading = (start_async_read_task linked).0

IsArmed-example : IsArmed reading
IsArmed-example = Reachable-IsArmed (
    after_step (after_step (created blank none) (connects fresh good_ip established true) refl)
      (starts linked) tt)

IsBounded-example : IsBounded reading
IsBounded-example = FairlyReachable-IsBounded (
    Windows.after_step
      (Windows.after_step (Windows.created blank none (length-zeros buffer_size))
        (connects fresh good_ip established true) tt)
      (starts linked) tt)

ack_size : decode_field u32 (command_reply_header_at ar02_ack 0).cmd_size ≡ some 16
unfolding decode_field get_from_chars from_chars le_bytes hex_value command_reply_header_at
    read_uint scan_hex
ack_size = refl

ack_example_client :
    let c1 = (complete fresh (header_read 0) false (take header_size ar02_ack)).0 in
    let result =
      complete (record c1 { pending = [] }) (rest_read 5) false (drop header_size ar02_ack) in
    (c1.pending ≡ rest_read 5 ∷ [])
    × (p : ShapeShifterPacket) × (result.1 ≡ some p)
    × (member_bytes p 16 ≡ ar02_ack)
ack_example_client =
    complete-complete fresh ar02_ack 16 refl (omega arith) (omega arith) refl ack_size
