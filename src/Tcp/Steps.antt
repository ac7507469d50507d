-- ===== src/Tcp/Steps.antt =====
-- The runs of a `TcpClient`: the calls of its owner and the ends of its reads, in any order.
use urg_node.Prelude.{ℕ, ◌≤◌, ◌≡◌, Bool, Option, List, [], ◌∷◌, ◌++◌, length}
use urg_node.Codec.Bytes.{Bytes}
use urg_node.Protocol.Packet.{ShapeShifterPacket}
use urg_node.Tcp.{
  Read, TcpClient, new_client, disconnect, Address, Attempt, connect, start_async_read_task,
  read_size, complete,
}

pub data Step : TcpClient → TcpClient → Type 0 where
  connects :
      (c : TcpClient) (address : Address) (attempt : Attempt) (option_set : Bool)
      → Step c (connect c address attempt option_set).0
  disconnects : (c : TcpClient) → Step c (disconnect c)
  starts : (c : TcpClient) → Step c (start_async_read_task c).0
  -- Any read that is under way can end, with as many bytes as it has room for or fewer.
  completes :
      (c : TcpClient) (before after : List Read) (read : Read) (error : Bool) (bs : Bytes)
      → c.pending ≡ before ++ (read ∷ after)
      → length bs ≤ read_size read
      → Step c (complete (record c { pending = before ++ after }) read error bs).0

-- A step that connects only when no read is left under way.
abbrev pub IsOrderly : {c d : TcpClient} → Step c d → Type 0
IsOrderly (connects c address attempt option_set) = c.pending ≡ []
IsOrderly (disconnects c) = Unit
IsOrderly (starts c) = Unit
IsOrderly (completes c before after read error bs e fits) = Unit

-- The states that orderly steps lead to from a new client.
pub data Reachable : TcpClient → Type 0 where
  created :
      (buffer : ShapeShifterPacket) (filter : Option (ℕ × ℕ → Bool))
      → Reachable (new_client buffer filter)
  after_step : {c d : TcpClient} → Reachable c → (s : Step c d) → IsOrderly s → Reachable d
