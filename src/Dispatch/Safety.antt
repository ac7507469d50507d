-- ===== src/Dispatch/Safety.antt =====
-- What a reply has gone through when `processByHandler(packet, time)` of
-- urg_node/src/uam/workers/uam_command_worker.cpp reports success.
use urg_node.Prelude.{
  ℕ, ◌≡◌, inl, inr, refl, sym, ◌∙◌, arith, Bool, true, Option, none, some, Option-cases,
}
use urg_node.Codec.Bytes.{Bytes}
use urg_node.Codec.Field.{u32, decode_field}
use urg_node.Protocol.Header.{header_size, command_reply_header_at}
use urg_node.Protocol.Replies.{
  empty_reply_size, ar00_reply_size, ar01_reply_size, ar06_reply_size, xr00_reply_size,
  vr00_reply_size, id00_reply_size,
}
use urg_node.Protocol.Packet.{ShapeShifterPacket, member_bytes}
use urg_node.Worker.Crc.{Crc}
use urg_node.Worker.Base.{
  Locals, Worker, Processed, accepted, refused, to_option, assigned, process_reply,
  process_by_handler, process_struct,
}
use urg_node.Worker.Kinds.{ar00_worker, ar01_worker, ar06_worker, xr00_worker}
use urg_node.Worker.Raw.{vr00_worker, id00_worker}
use urg_node.Worker.Framed.{
  IsFramed, ar00_worker-IsFramed, ar01_worker-IsFramed, ar06_worker-IsFramed, xr00_worker-IsFramed,
  vr00_worker-IsFramed, id00_worker-IsFramed, empty_reply_worker-IsFramed,
}
use urg_node.Worker.Acceptance.{IsValidReply, process_struct-IsValidReply}
use urg_node.Dispatch.{
  WorkerId, ar00, ar01, ar02, ar03, ar04, ar05, ar06, ar07, ar08, vr00, xr00, id00, yr, Event,
  tagged, empty_worker, route, run_worker, process_packet,
}

-- The reply is right for the worker, in its view of the packet. Nothing is asked of a YR reply.
abbrev pub IsRightFor : Crc → WorkerId → ShapeShifterPacket → Type 0
IsRightFor crc worker p =
    let empty : ℕ → Type 0 =
      λ digit. IsValidReply crc (empty_worker digit) (member_bytes p empty_reply_size) in
    elim worker [
      | ar00 ↦ IsValidReply crc (ar00_worker 0) (member_bytes p ar00_reply_size)
      | ar01 ↦ IsValidReply crc (ar01_worker 0) (member_bytes p ar01_reply_size)
      | ar02 ↦ empty b'2'
      | ar03 ↦ empty b'3'
      | ar04 ↦ empty b'4'
      | ar05 ↦ empty b'5'
      | ar06 ↦ IsValidReply crc (ar06_worker 0) (member_bytes p ar06_reply_size)
      | ar07 ↦ empty b'7'
      | ar08 ↦ empty b'8'
      | vr00 ↦ IsValidReply crc (vr00_worker 0) (member_bytes p vr00_reply_size)
      | xr00 ↦ IsValidReply crc (xr00_worker 0) (member_bytes p xr00_reply_size)
      | id00 ↦ IsValidReply crc (id00_worker 0) (member_bytes p id00_reply_size)
      | yr ↦ Unit
    ]

process_reply-true :
    {R : Type 0} (has_callback : Bool) (result : Processed R)
    → (process_reply has_callback (to_option result)).0 ≡ true
    → (r : R) × (result ≡ accepted r)
process_reply-true has_callback (accepted r) h = (r, refl)
process_reply-true has_callback (refused e) h = absurd (ground arith)

tagged-result : {R : Type 0} (event : R → Event) (p : Bool × Option R) → (tagged event p).0 ≡ p.0
tagged-result event (ok, none) = refl
tagged-result event (ok, some r) = refl

module _ (crc : Crc) (u : Locals) where
  -- Success of a worker that is made from the template.
  handled :
      {R : Type 0} (w : Worker R) (event : R → Event) (has_callback : Bool) (raw : Bytes)
      → IsFramed w
      → (tagged event (process_by_handler crc u w has_callback raw)).0 ≡ true
      → IsValidReply crc w raw
  unfolding process_by_handler
  handled w event has_callback raw framed h =
      let (r, e) =
        process_reply-true has_callback (process_struct crc u w raw)
          (sym (tagged-result event (process_by_handler crc u w has_callback raw)) ∙ h) in
      ((process_struct-IsValidReply crc u w raw r framed).0 e).0

  run_worker-IsRightFor :
      (has_callback : WorkerId → Bool) (worker : WorkerId) (p : ShapeShifterPacket)
      → (run_worker crc u has_callback worker p).0 ≡ true
      → IsRightFor crc worker p
  unfolding run_worker
  run_worker-IsRightFor c ar00 p h = handled (ar00_worker 0) _ (c ar00) _ (ar00_worker-IsFramed 0) h
  run_worker-IsRightFor c ar01 p h = handled (ar01_worker 0) _ (c ar01) _ (ar01_worker-IsFramed 0) h
  run_worker-IsRightFor c ar02 p h =
      handled (empty_worker b'2') _ (c ar02) _ (empty_reply_worker-IsFramed _ _ 0) h
  run_worker-IsRightFor c ar03 p h =
      handled (empty_worker b'3') _ (c ar03) _ (empty_reply_worker-IsFramed _ _ 0) h
  run_worker-IsRightFor c ar04 p h =
      handled (empty_worker b'4') _ (c ar04) _ (empty_reply_worker-IsFramed _ _ 0) h
  run_worker-IsRightFor c ar05 p h =
      handled (empty_worker b'5') _ (c ar05) _ (empty_reply_worker-IsFramed _ _ 0) h
  run_worker-IsRightFor c ar06 p h = handled (ar06_worker 0) _ (c ar06) _ (ar06_worker-IsFramed 0) h
  run_worker-IsRightFor c ar07 p h =
      handled (empty_worker b'7') _ (c ar07) _ (empty_reply_worker-IsFramed _ _ 0) h
  run_worker-IsRightFor c ar08 p h =
      handled (empty_worker b'8') _ (c ar08) _ (empty_reply_worker-IsFramed _ _ 0) h
  run_worker-IsRightFor c vr00 p h = handled (vr00_worker 0) _ (c vr00) _ (vr00_worker-IsFramed 0) h
  run_worker-IsRightFor c xr00 p h = handled (xr00_worker 0) _ (c xr00) _ (xr00_worker-IsFramed 0) h
  run_worker-IsRightFor c id00 p h = handled (id00_worker 0) _ (c id00) _ (id00_worker-IsFramed 0) h
  run_worker-IsRightFor c yr p h = tt

  -- When `processByHandler(packet, time)` reports success, the packet was sent to some worker,
  -- and unless that is the YR worker the reply in the packet has the worker's size, the status 0
  -- and the checksum of its bytes, for every checksum function, every value of the uninitialised
  -- locals and every set of callbacks.
  pub process_packet-IsRightFor :
      (has_callback : WorkerId → Bool) (p : ShapeShifterPacket)
      → (process_packet crc u has_callback p).0 ≡ true
      → let h = command_reply_header_at (member_bytes p header_size) 0 in
        (worker : WorkerId) × (route h (assigned h.cmd_size (decode_field u32 h.cmd_size))
          ≡ some worker)
        × IsRightFor crc worker p
  unfolding process_packet
  process_packet-IsRightFor has_callback p ok =
      let h = command_reply_header_at (member_bytes p header_size) 0 in
      let target = route h (assigned h.cmd_size (decode_field u32 h.cmd_size)) in
      elim (Option-cases target) [
        | inl e ↦ absurd (let ok' = rw (e, process_packet) at ok in ground arith)
        | inr (worker, e) ↦
            (worker, e, run_worker-IsRightFor has_callback worker p (rw (e, process_packet) at ok))
      ]
