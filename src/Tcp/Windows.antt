-- ===== src/Tcp/Windows.antt =====
-- Where the reads of urg_node/src/uam/io/tcp_client.cpp put their bytes.
use urg_node.Prelude.{
  ℕ, ◌+◌, ◌≤◌, ◌≡◌, refl, subst, ◌∙◌, arith, Bool, true, false, not, ◌==◌, Option, none, some,
  Bool-cases, ==_iff, inl, inr, List, [], ◌∷◌, ◌++◌, length, take, drop, length-append, length-take,
  length-drop, All, All-append, if◌then◌else◌, if-holds, leb, leb→le,
}
use urg_node.Codec.Bytes.{Bytes}
use urg_node.Codec.Field.{u32, decode_field}
use urg_node.Protocol.Header.{header_size, command_reply_header_at}
use urg_node.Protocol.Replies.{ar01_reply_size}
use urg_node.Protocol.Packet.{ShapeShifterPacket, buffer_size}
use urg_node.Protocol.Sizes.{buffer_size_lem}
use urg_node.Tcp.{
  Read, header_read, rest_read, TcpClient, new_client, disconnect, Address, no_ip, bad_ip, good_ip,
  Attempt, timed_out, failed, established, connect, async_read_data, start_async_read_task,
  handle_packet, handle_receive, passes, missing_bytes, complete, read_start, read_size, write_at,
}
use urg_node.Tcp.Steps.{Step, connects, disconnects, starts, completes}

-- The window of a read lies inside the buffer of a packet.
abbrev pub IsInside : Read → Type 0
IsInside read = read_start read + read_size read ≤ buffer_size

-- The buffer has its size, and all reads under way are inside.
abbrev pub IsBounded : TcpClient → Type 0
IsBounded c = (length c.receive_buffer.raw_buffer ≡ buffer_size) × All IsInside c.pending

-- The header in the buffer announces no packet shorter than a header.
abbrev pub AnnouncesEnough : Bytes → Type 0
AnnouncesEnough buffer =
    let h = command_reply_header_at buffer 0 in
    (n : ℕ) → decode_field u32 h.cmd_size ≡ some n → header_size ≤ n

-- A step that, if it ends the read of a header, leaves one in the buffer that announces enough.
abbrev pub IsFair : {c d : TcpClient} → Step c d → Type 0
IsFair (completes c before after (header_read n) error bs e fits) =
    AnnouncesEnough (write_at c.receive_buffer.raw_buffer n bs)
IsFair s = Unit

pub data FairlyReachable : TcpClient → Type 0 where
  created :
      (buffer : ShapeShifterPacket) (filter : Option (ℕ × ℕ → Bool))
      → length buffer.raw_buffer ≡ buffer_size
      → FairlyReachable (new_client buffer filter)
  after_step : {c d : TcpClient} → FairlyReachable c → (s : Step c d) → IsFair s → FairlyReachable d

All-split {ℓ κ} :
    {A : Type ℓ} (P : A → Type κ) (xs ys : List A) → All P (xs ++ ys) → All P xs × All P ys
All-split P [] ys h = (tt, h)
All-split P (x ∷ xs) ys h = let (hx, hy) = All-split P xs ys h.1 in ((h.0, hx), hy)

pub length-write_at :
    (buffer : Bytes) (start : ℕ) (bs : Bytes)
    → start + length bs ≤ length buffer
    → length (write_at buffer start bs) ≡ length buffer
length-write_at buffer start bs fits = omega (
  arith,
  length-append (take start buffer) (bs ++ drop (start + length bs) buffer),
  length-append bs (drop (start + length bs) buffer),
  length-take start buffer,
  length-drop (start + length bs) buffer,
)

with_read :
    (c : TcpClient) (read : Read)
    → IsInside read
    → IsBounded c
    → IsBounded (record c { pending = c.pending ++ (read ∷ []) })
with_read c read inside (size, reads) =
    (size, All-append IsInside c.pending (read ∷ []) reads (inside, tt))

first-IsInside : IsInside (header_read 0)
first-IsInside = rw buffer_size_lem (omega arith)

async_read_data-IsBounded : (c : TcpClient) → IsBounded c → IsBounded (async_read_data c 0)
unfolding async_read_data
async_read_data-IsBounded c h =
    if-holds IsBounded (not c.connected) (record c { stopped = true })
      (record c { pending = c.pending ++ (header_read 0 ∷ []) }) h
      (with_read c (header_read 0) first-IsInside h)

-- The rest of a packet that fits the buffer.
rest-IsInside :
    (n : ℕ)
    → header_size ≤ n
    → n ≤ ar01_reply_size
    → IsInside (rest_read (missing_bytes n header_size))
rest-IsInside n h le = rw buffer_size_lem (omega arith)

sized-IsBounded :
    (c : TcpClient) (size : Option ℕ)
    → ((n : ℕ) → size ≡ some n → header_size ≤ n)
    → IsBounded c
    → IsBounded (elim size [
      | none ↦ async_read_data c 0
      | some n ↦
          if leb n ar01_reply_size
          then record c { pending = c.pending ++ (rest_read (missing_bytes n header_size) ∷ []) }
          else async_read_data c 0
    ])
sized-IsBounded c none enough h = async_read_data-IsBounded c h
sized-IsBounded c (some n) enough h = elim (Bool-cases (leb n ar01_reply_size)) [
  | inl e ↦ rw e (with_read c _ (rest-IsInside n (enough n refl) (leb→le n ar01_reply_size e)) h)
  | inr e ↦ rw e (async_read_data-IsBounded c h)
]

-- A whole header.
header_read-IsBounded :
    (c : TcpClient)
    → AnnouncesEnough c.receive_buffer.raw_buffer
    → IsBounded c
    → IsBounded (handle_receive c false header_size)
unfolding handle_receive
header_read-IsBounded c enough h =
    let head = command_reply_header_at c.receive_buffer.raw_buffer 0 in
    if-holds IsBounded (passes c head.header) _ (async_read_data c 0)
      (sized-IsBounded c (decode_field u32 head.cmd_size) enough h) (async_read_data-IsBounded c h)

handle_receive-IsBounded :
    (c : TcpClient) (error : Bool) (k : ℕ)
    → AnnouncesEnough c.receive_buffer.raw_buffer
    → IsBounded c
    → IsBounded (handle_receive c error k)
unfolding handle_receive
handle_receive-IsBounded c true k enough h = async_read_data-IsBounded c h
handle_receive-IsBounded c false k enough h = elim (Bool-cases (header_size == k)) [
  | inl e ↦
      subst (λ k. IsBounded (handle_receive c false k)) ((==_iff header_size k).0 e)
        (header_read-IsBounded c enough h)
  | inr e ↦ rw (e, handle_receive) (async_read_data-IsBounded c h)
]

-- Ending a read keeps the buffer's size, and leaves the other reads with the next one.
header-IsBounded :
    (c : TcpClient) (n : ℕ) (error : Bool) (bs : Bytes)
    → IsBounded c
    → IsInside (header_read n)
    → length bs ≤ read_size (header_read n)
    → AnnouncesEnough (write_at c.receive_buffer.raw_buffer n bs)
    → IsBounded (complete c (header_read n) error bs).0
unfolding complete
header-IsBounded c n error bs (size, reads) inside fits enough =
    handle_receive-IsBounded _ error (length bs) enough
      (length-write_at c.receive_buffer.raw_buffer n bs (omega (arith, inside)) ∙ size, reads)

rest-IsBounded :
    (c : TcpClient) (n : ℕ) (error : Bool) (bs : Bytes)
    → IsBounded c
    → IsInside (rest_read n)
    → length bs ≤ read_size (rest_read n)
    → IsBounded (complete c (rest_read n) error bs).0
unfolding complete handle_packet
rest-IsBounded c n error bs (size, reads) inside fits = async_read_data-IsBounded _ (
  length-write_at c.receive_buffer.raw_buffer header_size bs (omega (arith, inside)) ∙ size,
  reads,
)

-- Of the reads under way, one is taken out.
taken_out :
    (c : TcpClient) (before after : List Read) (read : Read)
    → c.pending ≡ before ++ (read ∷ after)
    → IsBounded c
    → IsBounded (record c { pending = before ++ after }) × IsInside read
taken_out c before after read e (size, reads) =
    let (front, back) = All-split IsInside before (read ∷ after) (subst (All IsInside) e reads) in
    ((size, All-append IsInside before after front back.1), back.0)

disconnect-IsBounded : (c : TcpClient) → IsBounded c → IsBounded (disconnect c)
unfolding disconnect
disconnect-IsBounded c h =
    if-holds IsBounded c.connected (record c { connected = false; stopped = true }) c h h

start-IsBounded : (c : TcpClient) → IsBounded c → IsBounded (start_async_read_task c).0
unfolding start_async_read_task
start-IsBounded c h =
    let P : TcpClient × Bool → Type 0 = λ r. IsBounded r.0 in
    if-holds P (not c.connected) (c, false) _ h
      (if-holds P (not c.stopped) (c, true) (record (async_read_data c 0) { stopped = false }, true)
        h (async_read_data-IsBounded c h))

released-IsBounded :
    (c : TcpClient) → IsBounded c → IsBounded (if c.connected then disconnect c else c)
released-IsBounded c h =
    if-holds IsBounded c.connected (disconnect c) c (disconnect-IsBounded c h) h

opened-IsBounded :
    (c : TcpClient) (option_set : Bool)
    → IsBounded c
    → let c2 = record c { connected = true } in
      let opened : TcpClient × Bool =
        if not option_set then (disconnect c2, false) else (c2, true) in
      IsBounded opened.0
opened-IsBounded c false h = disconnect-IsBounded _ h
opened-IsBounded c true h = h

connect-IsBounded :
    (c : TcpClient) (address : Address) (attempt : Attempt) (option_set : Bool)
    → IsBounded c
    → IsBounded (connect c address attempt option_set).0
unfolding connect
connect-IsBounded c bad_ip attempt o h = released-IsBounded c h
connect-IsBounded c no_ip timed_out o h = released-IsBounded c h
connect-IsBounded c no_ip failed o h = released-IsBounded c h
connect-IsBounded c no_ip established o h =
    opened-IsBounded (if c.connected then disconnect c else c) o (released-IsBounded c h)
connect-IsBounded c good_ip timed_out o h = released-IsBounded c h
connect-IsBounded c good_ip failed o h = released-IsBounded c h
connect-IsBounded c good_ip established o h =
    opened-IsBounded (if c.connected then disconnect c else c) o (released-IsBounded c h)

Step-IsBounded : {c d : TcpClient} (s : Step c d) → IsFair s → IsBounded c → IsBounded d
Step-IsBounded (connects c address attempt option_set) f h =
    connect-IsBounded c address attempt option_set h
Step-IsBounded (disconnects c) f h = disconnect-IsBounded c h
Step-IsBounded (starts c) f h = start-IsBounded c h
Step-IsBounded (completes c before after (header_read n) error bs e fits) f h =
    let (rest, inside) = taken_out c before after (header_read n) e h in
    header-IsBounded _ n error bs rest inside fits f
Step-IsBounded (completes c before after (rest_read n) error bs e fits) f h =
    let (rest, inside) = taken_out c before after (rest_read n) e h in
    rest-IsBounded _ n error bs rest inside fits

-- In every state that a new client with a buffer of the right size is led to by any steps in which
-- no header that is read announces less than the 11 bytes of a header, the buffer still has that
-- size and the window of every read under way lies inside it.
pub FairlyReachable-IsBounded : {c : TcpClient} → FairlyReachable c → IsBounded c
FairlyReachable-IsBounded (created buffer filter size) = (size, tt)
FairlyReachable-IsBounded (after_step r s f) = Step-IsBounded s f (FairlyReachable-IsBounded r)
