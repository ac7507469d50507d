-- ===== src/Urg/Command.antt =====
-- `sendCommand` of urg_node/src/urg_c_wrapper.cpp, with `getAR00Status` and `getDL00Status`, which use it.
-- How often a read of the socket brings nothing but an error is up to the other side, so the loops take
-- fuel, and the outer `none` is a loop that has not ended.
pub mod Reading
pub mod Sending
use urg_node.Prelude.{
  ℕ, zero, suc, ◌+◌, ◌-◌, ◌*◌, ◌%◌, ◌^◌, Bool, true, false, Option, none, some, List, [], ◌∷◌, ◌++◌,
  ltb, leb, ◌==◌, if◌then◌else◌, length, take, drop, replicate,
}
use urg_node.Codec.Bytes.{Bytes}
use urg_node.Codec.Stream.{extract_hex}
use urg_node.Protocol.Sensing.{SensingDataHeader}
use urg_node.Protocol.Replies.{Ar00CommandReply}
use urg_node.Worker.Base.{Locals, process_buffer, accepted}
use urg_node.Worker.Kinds.{ar00_worker}
use urg_node.Worker.Request.{get_command}
use urg_node.Worker.Crc.{Crc}
use urg_node.Urg.Library.{Platform}
use urg_node.Urg.{UrgCWrapper, start, stop}
use urg_node.Urg.Detection.{UrgDetectionReport, decode_dl00}

-- Bytes that are written into a buffer from an offset on.
unfoldable pub overwrite : ℕ → Bytes → Bytes → Bytes
overwrite offset bs buffer = take offset buffer ++ (bs ++ drop (offset + length bs) buffer)

-- The size of the rest that a header announces, or `none` if it is too large.
unfoldable pub rest_size : Bytes → Option ℕ
rest_size recv_header =
    let expected = (extract_hex (2 ^ 64) 5 (take 4 (drop 1 recv_header))).0 in
    let arr_size = (expected + (2 ^ 32 - 5)) % 2 ^ 32 in
    if ltb 10_000 arr_size then none else some arr_size

module _ (p : Platform) where
  -- A loop that reads until a buffer has `expected` bytes, from the state of its variables on: the
  -- buffer with the length of the last read, or `none` for an end of the stream. The result -1 of a
  -- read is a large number in `read_len`, which the loop does not take for an error.
  unfoldable pub read_all :
      ℕ → ℕ → Bytes → ℕ → ℕ → p.lib.Sensor → Option (Option (Bytes × ℕ) × p.lib.Sensor)
  unfolding overwrite
  read_all zero expected buffer total read_len urg = none
  read_all (suc fuel) expected buffer total read_len urg = elim (ltb total expected) [
    | false ↦ some (some (buffer, read_len), urg)
    | true ↦
        let (result, urg') = p.lib.socket_read urg (expected - total) in
        elim result [
          | none ↦ read_all fuel expected buffer ((total + (2 ^ 64 - 1)) % 2 ^ 64) (2 ^ 64 - 1) urg'
          | some [] ↦ some (none, urg')
          | some (b ∷ bs) ↦
              read_all fuel expected (overwrite total (b ∷ bs) buffer) (total + length (b ∷ bs))
                (length (b ∷ bs)) urg'
        ]
  ]

  -- The wrapper with a response: none if there was an exception.
  abbrev pub Answer : Type 0
  Answer = UrgCWrapper p × Option Bytes

  -- The end of `sendCommand`, once the response is read.
  unfoldable pub restarted : Bool → UrgCWrapper p → Bytes → Answer
  restarted restart w response =
      let (w', ok) = start p w in
      if restart then (w', if ok then some response else none) else (w, some response)

  -- `sendCommand` from the read of the rest on: `fresh` is what the new buffer holds.
  unfoldable pub receive_rest : ℕ → (ℕ → Bytes) → Bool → UrgCWrapper p → Bytes → Option Answer
  unfolding read_all rest_size restarted
  receive_rest fuel fresh restart w recv_header = elim (rest_size recv_header) [
    | none ↦ some (w, some [])
    | some arr_size ↦ elim (read_all fuel arr_size (fresh arr_size) 0 0 w.urg) [
      | none ↦ none
      | some (none, urg) ↦ some (record w { urg = urg }, some [])
      | some (some (body, read_len), urg) ↦
          some (restarted restart (record w { urg = urg }) (recv_header ++ body))
    ]
  ]

  -- `sendCommand` from the read of the header on.
  unfoldable pub receive : ℕ → (ℕ → Bytes) → Bool → UrgCWrapper p → Option Answer
  unfolding read_all receive_rest
  receive fuel fresh restart w = elim (read_all fuel 5 (replicate 5 0) 0 0 w.urg) [
    | none ↦ none
    | some (none, urg) ↦ some (record w { urg = urg }, some [])
    | some (some (recvb, read_len), urg) ↦
        let rest = receive_rest fuel fresh restart (record w { urg = urg }) (take read_len recvb) in
        if ltb 5 read_len then some (record w { urg = urg }, none) else rest
  ]

  -- `sendCommand(cmd)`.
  unfoldable pub send_command : ℕ → (ℕ → Bytes) → Bytes → UrgCWrapper p → Option Answer
  unfolding receive
  send_command fuel fresh cmd w =
      let w1 = if w.started then stop p w else w in
      let (sent, urg) = p.lib.socket_write w1.urg cmd in
      let w2 = record w1 { urg = urg } in
      elim sent [ none ↦ some (w2, some []) | some n ↦ receive fuel fresh w.started w2 ]

  -- The command of `getDL00Status`.
  abbrev pub dl00_command : Bytes
  dl00_command =
      2 ∷ b'0' ∷ b'0' ∷ b'0' ∷ b'E' ∷ b'D' ∷ b'L' ∷ b'0' ∷ b'0' ∷ b'5' ∷ b'B' ∷ b'C' ∷ b'B' ∷ 3 ∷ []

  -- `getDL00Status(report)`: its result with the report, or `none` if there was an exception.
  unfoldable pub get_dl00_status :
      ℕ
      → (ℕ → Bytes)
      → Crc
      → ℕ
      → UrgDetectionReport p
      → UrgCWrapper p
      → Option (UrgCWrapper p × Option (Bool × UrgDetectionReport p))
  unfolding send_command decode_dl00
  get_dl00_status fuel fresh crc crc_before report w =
      elim (send_command fuel fresh dl00_command w) [
        | none ↦ none
        | some (w', none) ↦ some (w', none)
        | some (w', some response) ↦ some (w', decode_dl00 p crc crc_before response report)
      ]

  -- `getAR00Status(status)`: its result with the status, or `none` if there was an exception or a read
  -- past the response.
  unfoldable pub get_ar00_status :
      ℕ
      → (ℕ → Bytes)
      → Crc
      → Locals
      → Ar00CommandReply
      → SensingDataHeader
      → UrgCWrapper p
      → Option (UrgCWrapper p × Option (Bool × SensingDataHeader))
  unfolding send_command process_buffer get_command ar00_worker
  get_ar00_status fuel fresh crc locals uninit status w =
      let command = get_command crc (b'A', b'R') (b'0', b'0') in
      elim (send_command fuel fresh command w) [
        | none ↦ none
        | some (w', none) ↦ some (w', none)
        | some (w', some response) ↦ some (
          w',
          elim (process_buffer crc locals (ar00_worker 0) uninit response) [
            | none ↦ none
            | some (accepted reply) ↦ some (true, reply.sensing_data)
            | some result ↦ some (false, status)
          ],
        )
      ]
