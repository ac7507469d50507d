-- ===== src/Tcp/Assembly.antt =====
-- How urg_node/src/uam/io/tcp_client.cpp puts a packet together from two reads.
use urg_node.Prelude.{
  ℕ, ◌+◌, ◌-◌, ◌≤◌, ◌≡◌, refl, ap, sym, ◌∙◌, arith, true, false, some, [], ◌∷◌, ◌++◌, length, take,
  drop, length-take, length-drop, take-append, take-append_past, take-drop-take, take-append-drop,
  le→leb, ==_iff, ◌==◌,
}
use urg_node.Codec.Bytes.{Bytes, read_uint}
use urg_node.Codec.Field.{u32, decode_field}
use urg_node.Protocol.Header.{header_size, command_reply_header_at}
use urg_node.Protocol.Replies.{ar01_reply_size}
use urg_node.Protocol.Packet.{ShapeShifterPacket, member_bytes}
use urg_node.Tcp.{
  header_read, rest_read, TcpClient, handle_packet, handle_receive, passes, missing_bytes, complete,
  write_at,
}

-- The first bytes are the ones that were written there.
take-write_at_0 : (n : ℕ) (buffer bs : Bytes) → length bs ≡ n → take n (write_at buffer 0 bs) ≡ bs
take-write_at_0 n buffer bs e = take-append n bs (drop (0 + length bs) buffer) e

-- What a header says is read from its own bytes.
header_at-take :
    (xs : Bytes) → command_reply_header_at (take header_size xs) 0 ≡ command_reply_header_at xs 0
unfolding command_reply_header_at read_uint
header_at-take xs =
    rw
      (
        take-drop-take 11 0 1 xs (omega arith),
        take-drop-take 11 1 4 xs (omega arith),
        take-drop-take 11 5 1 xs (omega arith),
        take-drop-take 11 6 1 xs (omega arith),
        take-drop-take 11 7 1 xs (omega arith),
        take-drop-take 11 8 1 xs (omega arith),
        take-drop-take 11 9 2 xs (omega arith),
      )
      refl

-- The rest of a message behind its header.
take-write_at_rest :
    (n : ℕ) (buffer msg : Bytes)
    → length msg ≡ n
    → header_size ≤ n
    → take n
        (write_at (write_at buffer 0 (take header_size msg)) header_size (drop header_size msg))
      ≡ msg
take-write_at_rest n buffer msg e h =
    let head = take header_size msg in
    let rest = drop header_size msg in
    let head_eq : length head ≡ header_size = omega (arith, length-take header_size msg) in
    let rest_eq : length rest ≡ n - header_size = omega (arith, length-drop header_size msg) in
    rw (take-write_at_0 header_size buffer head head_eq) (
      take-append_past header_size (n - header_size) n head _ head_eq (omega arith)
      ∙ ap (λ r. head ++ r) (take-append (n - header_size) rest _ rest_eq)
      ∙ take-append-drop header_size msg)

-- The header of a buffer whose first bytes are a message's is the message's.
header_at-write_at :
    (buffer msg : Bytes)
    → header_size ≤ length msg
    → command_reply_header_at (write_at buffer 0 (take header_size msg)) 0
      ≡ command_reply_header_at msg 0
header_at-write_at buffer msg h =
    let head = take header_size msg in
    let head_eq : length head ≡ header_size = omega (arith, length-take header_size msg) in
    sym (header_at-take (write_at buffer 0 head))
    ∙ ap (λ bs. command_reply_header_at bs 0) (take-write_at_0 header_size buffer head head_eq)
    ∙ header_at-take msg

missing_bytes-rest :
    (n : ℕ) → header_size ≤ n → n ≤ ar01_reply_size → missing_bytes n header_size ≡ n - header_size
missing_bytes-rest n h le = omega arith

-- A whole header whose packet fits is followed by a read of the rest.
handle_receive-rest :
    (c : TcpClient) (n : ℕ)
    → header_size ≤ n
    → n ≤ ar01_reply_size
    → let header = command_reply_header_at c.receive_buffer.raw_buffer 0 in
      passes c header.header ≡ true
      → decode_field u32 header.cmd_size ≡ some n
      → handle_receive c false header_size
        ≡ record c { pending = c.pending ++ (rest_read (n - header_size) ∷ []) }
unfolding handle_receive
handle_receive-rest c n h le pass size =
    rw (pass, size, le→leb n ar01_reply_size le, missing_bytes-rest n h le, handle_receive) refl

-- If a read of a header and a read of the rest end without an error and bring the first 11 and the
-- other bytes of a message of n bytes, where 11 <= n <= 8703, the header passes the filter and
-- announces n, then the first handler adds a read of just n - 11 bytes, and the second one calls
-- the callback with a packet whose first n bytes are the message.
pub complete-complete :
    (c : TcpClient) (msg : Bytes) (n : ℕ)
    → length msg ≡ n
    → header_size ≤ n
    → n ≤ ar01_reply_size
    → passes c (command_reply_header_at msg 0).header ≡ true
    → decode_field u32 (command_reply_header_at msg 0).cmd_size ≡ some n
    → let c1 = (complete c (header_read 0) false (take header_size msg)).0 in
      let result =
        complete
          (record c1 { pending = c.pending })
          (rest_read (n - header_size))
          false
          (drop header_size msg) in
      (c1.pending ≡ c.pending ++ (rest_read (n - header_size) ∷ []))
      × (p : ShapeShifterPacket) × (result.1 ≡ some p)
      × (member_bytes p n ≡ msg)
unfolding complete handle_packet
complete-complete c msg n e h le pass size =
    let head = take header_size msg in
    let head_eq : length head ≡ header_size = omega (arith, length-take header_size msg) in
    let rest_eq : length (drop header_size msg) ≡ n - header_size =
      omega (arith, length-drop header_size msg) in
    let buffer = write_at c.receive_buffer.raw_buffer 0 head in
    let c' = record c { receive_buffer = record { raw_buffer = buffer } } in
    let same = header_at-write_at c.receive_buffer.raw_buffer msg (omega arith) in
    let first : handle_receive c' false (length head)
        ≡ record c' { pending = c.pending ++ (rest_read (n - header_size) ∷ []) } =
      ap (λ k. handle_receive c' false k) head_eq
      ∙ handle_receive-rest c' n h le (ap (λ x. passes c x.header) same ∙ pass)
          (ap (λ x. decode_field u32 x.cmd_size) same ∙ size) in
    let whole : (length (drop header_size msg) == n - header_size) ≡ true =
      (==_iff (length (drop header_size msg)) (n - header_size)).1 rest_eq in
    rw (first, whole) (refl, _, refl, take-write_at_rest n c.receive_buffer.raw_buffer msg e h)
