-- ===== src/Tcp/Loop.antt =====
-- The flags of the client and its reads under way, through all runs of
-- urg_node/src/uam/io/tcp_client.cpp.
use urg_node.Prelude.{
  ℕ, ◌+◌, ◌≤◌, ◌≡◌, refl, arith, Bool, true, false, not, ◌||◌, ◌==◌, Option, none, some, List, [],
  ◌∷◌, ◌++◌, length, length-append, if◌then◌else◌, leb,
}
use urg_node.Codec.Bytes.{Bytes}
use urg_node.Codec.Field.{u32, decode_field}
use urg_node.Protocol.Header.{header_size, command_reply_header_at}
use urg_node.Protocol.Replies.{ar01_reply_size}
use urg_node.Tcp.{
  Read, header_read, rest_read, TcpClient, disconnect, Address, Attempt, connect, async_read_data,
  start_async_read_task, handle_packet, handle_receive, passes, missing_bytes, complete,
}
use urg_node.Tcp.Steps.{
  Step, connects, disconnects, starts, completes, IsOrderly, Reachable, created, after_step,
}

-- A connected client has one read under way if its loop was started and none if not; a client that is
-- not connected counts as stopped, and has at most one read left.
abbrev pub IsArmed : TcpClient → Type 0
IsArmed c =
    (length c.pending ≤ 1)
    × (c.connected ≡ false → c.stopped ≡ true)
    × (c.connected ≡ true → length c.pending ≡ (if c.stopped then 0 else 1))

-- Every branch of a handler ends with one more read, or with a stop.
abbrev IsContinued : TcpClient → TcpClient → Type 0
IsContinued c d =
    (d.connected ≡ c.connected)
    × (c.connected ≡ false → c.stopped ≡ true → d.stopped ≡ true)
    × (c.connected ≡ true → d.stopped ≡ c.stopped)
    × (c.connected ≡ true → length d.pending ≡ length c.pending + 1)
    × (length d.pending ≤ length c.pending + 1)

async_read_data-IsContinued : (c : TcpClient) (n : ℕ) → IsContinued c (async_read_data c n)
unfolding async_read_data
async_read_data-IsContinued c n =
    let more = length-append c.pending (header_read n ∷ []) in ground arith

rest_read-IsContinued :
    (c : TcpClient) (n : ℕ) → IsContinued c (record c { pending = c.pending ++ (rest_read n ∷ []) })
rest_read-IsContinued c n = let more = length-append c.pending (rest_read n ∷ []) in ground arith

if-IsContinued :
    (c d d' : TcpClient) (b : Bool)
    → IsContinued c d
    → IsContinued c d'
    → IsContinued c (if b then d else d')
if-IsContinued c d d' true h h' = h
if-IsContinued c d d' false h h' = h'

sized-IsContinued :
    (c : TcpClient) (size : Option ℕ) (bytes_transferred : ℕ)
    → IsContinued c (elim size [
      | none ↦ async_read_data c 0
      | some n ↦
          if leb n ar01_reply_size
          then record c {
            pending = c.pending ++ (rest_read (missing_bytes n bytes_transferred) ∷ []);
          }
          else async_read_data c 0
    ])
sized-IsContinued c none bytes_transferred = async_read_data-IsContinued c 0
sized-IsContinued c (some n) bytes_transferred =
    if-IsContinued c _ _ (leb n ar01_reply_size)
      (rest_read-IsContinued c (missing_bytes n bytes_transferred))
      (async_read_data-IsContinued c 0)

handle_receive-IsContinued :
    (c : TcpClient) (error : Bool) (n : ℕ) → IsContinued c (handle_receive c error n)
unfolding handle_receive
handle_receive-IsContinued c error n =
    let h = command_reply_header_at c.receive_buffer.raw_buffer 0 in
    let again = async_read_data-IsContinued c 0 in
    let sized = sized-IsContinued c (decode_field u32 h.cmd_size) n in
    let passing = if-IsContinued c _ (async_read_data c 0) (passes c h.header) sized again in
    if-IsContinued c (async_read_data c 0) _ (error || not (header_size == n)) again passing

complete-IsContinued :
    (c : TcpClient) (read : Read) (error : Bool) (bs : Bytes)
    → IsContinued c (complete c read error bs).0
unfolding complete handle_packet
complete-IsContinued c (header_read n) error bs = handle_receive-IsContinued _ error (length bs)
complete-IsContinued c (rest_read n) error bs = async_read_data-IsContinued _ 0

one_less :
    (ps before after : List Read) (read : Read)
    → ps ≡ before ++ (read ∷ after)
    → length ps ≡ length (before ++ after) + 1
one_less ps before after read e =
    rw e (omega (arith, length-append before (read ∷ after), length-append before after))

disconnect-IsArmed : (c : TcpClient) → IsArmed c → IsArmed (disconnect c)
unfolding disconnect
disconnect-IsArmed c h = ground arith

start-IsArmed : (c : TcpClient) → IsArmed c → IsArmed (start_async_read_task c).0
unfolding start_async_read_task
start-IsArmed c h = let more = async_read_data-IsContinued c 0 in ground arith

connect-IsArmed :
    (c : TcpClient) (address : Address) (attempt : Attempt) (option_set : Bool)
    → c.pending ≡ []
    → IsArmed c
    → IsArmed (connect c address attempt option_set).0
unfolding connect disconnect
connect-IsArmed c address attempt option_set e h = ground arith

-- One orderly step keeps the loop armed.
Step-IsArmed : {c d : TcpClient} (s : Step c d) → IsOrderly s → IsArmed c → IsArmed d
Step-IsArmed (connects c address attempt option_set) o h =
    connect-IsArmed c address attempt option_set o h
Step-IsArmed (disconnects c) o h = disconnect-IsArmed c h
Step-IsArmed (starts c) o h = start-IsArmed c h
Step-IsArmed (completes c before after read error bs e fits) o h =
    let less = one_less c.pending before after read e in
    let more = complete-IsContinued (record c { pending = before ++ after }) read error bs in
    ground arith

-- In every state that a new client is led to by steps that connect only when no read is under way,
-- at most one read is under way, a client that is not connected counts as stopped, and a connected
-- one has exactly one read under way if it is not stopped and none if it is.
pub Reachable-IsArmed : {c : TcpClient} → Reachable c → IsArmed c
Reachable-IsArmed (created buffer filter) = (omega arith, λ e. refl, λ e. refl)
Reachable-IsArmed (after_step r s o) = Step-IsArmed s o (Reachable-IsArmed r)
