-- ===== src/Worker/Acceptance.antt =====
-- Which replies `process(raw_reply)` of urg_node/include/uam/workers/uam_worker_base.h lets through.
use urg_node.Prelude.{
  ℕ, ◌+◌, ◌-◌, ◌^◌, ◌<◌, ◌≤◌, ◌≡◌, ◌↔◌, inl, inr, refl, ap, ◌∙◌, sym, ◌%◌, arith, Bool, true, false,
  not, Option, none, some, ◌==◌, ==_iff, ==_refl, Option-cases, if◌then◌else◌, length, le→leb,
  lt→leb,
}
use urg_node.Codec.Bytes.{Bytes, slice}
use urg_node.Codec.Field.{u16, u32, decode_field}
use urg_node.Protocol.Header.{command_reply_header_at, command_footer_at, footer_size}
use urg_node.Worker.Crc.{Crc}
use urg_node.Worker.Status.{
  EStatusErrorCodes, known, unknown, validate_status, find_code, status_code, status_table,
}
use urg_node.Worker.Framed.{IsFramed}
use urg_node.Worker.Base.{
  Worker, wrong_crc, bad_status, unexpected_packet, wrong_size_and_crc, Processed, accepted,
  refused, decoded, is_ok, unchecked_bytes, calculate_struct_crc, calculate_reply_crc,
  validate_buffer_crc, validate_struct_crc, process_struct, Locals,
}

is_ok_if :
    (b : Bool) (o : Option EStatusErrorCodes) (status : ℕ)
    → is_ok (if b then none else elim o [ some c ↦ some (known c) | none ↦ some (unknown status) ])
      ≡ b
is_ok_if true o status = refl
is_ok_if false none status = refl
is_ok_if false (some c) status = refl

-- A status is valid when it is 0 and only then.
pub is_ok-validate_status : (status : ℕ) → is_ok (validate_status status) ≡ (status == 0)
unfolding validate_status
is_ok-validate_status status =
    is_ok_if (status == 0) (find_code status_code status_table status) status

-- What a reply has to be.
abbrev pub IsValidReply : {R : Type 0} → Crc → Worker R → Bytes → Type 0
IsValidReply crc w raw =
    let header = command_reply_header_at raw 0 in
    let footer = command_footer_at raw (w.reply_size - footer_size) in
    (decode_field u32 header.cmd_size ≡ some w.reply_size)
    × (decode_field u16 header.status ≡ some 0)
    × (decode_field u32 footer.crc
        ≡ some (crc.checksum (slice raw 1 (w.reply_size - unchecked_bytes))))

-- The count of checksummed bytes, where the buffer holds a footer.
reply_count : (n : ℕ) → 6 ≤ n → n < 2 ^ 64 → (n + 2 ^ 64 - 6) % 2 ^ 64 ≡ n - 6
reply_count n h b = omega arith

-- A buffer of at least six bytes can be checksummed.
pub calculate_reply_crc-some :
    (crc : Crc) (buffer : Bytes)
    → 6 ≤ length buffer
    → length buffer < 2 ^ 64
    → calculate_reply_crc crc buffer ≡ some (crc.checksum (slice buffer 1 (length buffer - 6)))
unfolding calculate_reply_crc
calculate_reply_crc-some crc buffer h b =
    rw
      (
        reply_count (length buffer) h b,
        le→leb (1 + (length buffer - 6)) (length buffer) (omega arith),
      )
      refl

-- The count of a shorter one wraps around.
pub calculate_reply_crc-none :
    (crc : Crc) (buffer : Bytes) → length buffer < 6 → calculate_reply_crc crc buffer ≡ none
unfolding calculate_reply_crc
calculate_reply_crc-none crc buffer h =
    let count = (length buffer + 2 ^ 64 - 6) % 2 ^ 64 in
    rw (lt→leb (length buffer) (1 + count) (omega arith)) refl

module _ {R : Type 0} (crc : Crc) (u : Locals) (w : Worker R) where
  -- A reply of another size is never taken for a reply of another kind.
  pub validate_buffer_crc-unsized :
      (buffer : Bytes)
      → 6 < length buffer
      → length buffer < 2 ^ 64
      → validate_buffer_crc crc u w buffer false ≡ some false
  unfolding validate_buffer_crc
  validate_buffer_crc-unsized buffer h b =
      let here : ((length buffer + 2 ^ 64 - 1 - footer_size) % 2 ^ 64 == 0) ≡ false =
        ground arith in
      rw (calculate_reply_crc-some crc buffer (omega arith) b, here) refl

  pub validate_struct_crc_lem :
      (raw : Bytes) (v : ℕ)
      → decode_field u32 (command_footer_at raw (w.reply_size - footer_size)).crc ≡ some v
      → (validate_struct_crc crc u w raw ≡ true)
        ↔ (v ≡ crc.checksum (slice raw 1 (w.reply_size - unchecked_bytes)))
  unfolding validate_struct_crc calculate_struct_crc
  validate_struct_crc_lem raw v e =
      let sum = crc.checksum (slice raw 1 (w.reply_size - unchecked_bytes)) in
      rw e (λ h. sym ((==_iff sum v).0 h), λ h. (==_iff sum v).1 (sym h))

-- The tests of `process(raw_reply)`, on their results.
abbrev judge : {R : Type 0} → Bool → Option Bool → Bool → Bool → Option R → Processed R
judge size_ok unsized crc_ok status_ok result =
    if not size_ok
    then elim unsized [ some true ↦ refused unexpected_packet | _ ↦ refused wrong_size_and_crc ]
    else if not crc_ok
    then refused wrong_crc
    else if not status_ok
    then refused bad_status
    else decoded result

judge-accepted :
    {R : Type 0} (size_ok : Bool) (unsized : Option Bool) (crc_ok status_ok : Bool)
    (result : Option R) (r : R)
    → judge size_ok unsized crc_ok status_ok result ≡ accepted r
    → (size_ok ≡ true) × (crc_ok ≡ true) × (status_ok ≡ true) × (result ≡ some r)
judge-accepted true unsized true true (some r') r h = (refl, refl, refl, ground arith)
judge-accepted true unsized true true none r h = absurd (ground arith)
judge-accepted true unsized true false result r h = absurd (ground arith)
judge-accepted true unsized false status_ok result r h = absurd (ground arith)
judge-accepted false none crc_ok status_ok result r h = absurd (ground arith)
judge-accepted false (some true) crc_ok status_ok result r h = absurd (ground arith)
judge-accepted false (some false) crc_ok status_ok result r h = absurd (ground arith)

module _ {R : Type 0} (crc : Crc) (u : Locals) (w : Worker R) where
  -- A reply that is accepted went through all of them.
  process_struct-judge :
      (raw : Bytes) (n status : ℕ)
      → decode_field u32 (command_reply_header_at raw 0).cmd_size ≡ some n
      → decode_field u16 (command_reply_header_at raw 0).status ≡ some status
      → process_struct crc u w raw
        ≡ judge
            (n == w.reply_size)
            (validate_buffer_crc crc u w raw false)
            (validate_struct_crc crc u w raw)
            (is_ok (validate_status status))
            (w.decode raw)
  unfolding process_struct
  process_struct-judge raw n status en es = rw (en, es, process_struct) refl

  process_struct-accepted_fields :
      (raw : Bytes) (r : R)
      → process_struct crc u w raw ≡ accepted r
      → (n : ℕ) × (status : ℕ) × (decode_field u32 (command_reply_header_at raw 0).cmd_size
          ≡ some n)
        × (decode_field u16 (command_reply_header_at raw 0).status ≡ some status)
  unfolding process_struct
  process_struct-accepted_fields raw r h =
      let header = command_reply_header_at raw 0 in
      elim (Option-cases (decode_field u32 header.cmd_size)) [
        | inl e ↦ absurd (let h' = rw (e, process_struct) at h in ground arith)
        | inr (n, en) ↦ elim (Option-cases (decode_field u16 header.status)) [
          | inl e ↦ absurd (let h' = rw (en, e, process_struct) at h in ground arith)
          | inr (status, es) ↦ (n, status, en, es)
        ]
      ]

  -- For a worker that is framed (its decodings decode the numbers of the frame),
  -- `process(raw_reply)` accepts a reply with the result r just when the size in its header
  -- decodes to the size of the worker's reply, the status to 0 and the number in the footer to
  -- the checksum of the bytes between STX and footer, and `decode` gives r.
  pub process_struct-IsValidReply :
      (raw : Bytes) (r : R)
      → IsFramed w
      → (process_struct crc u w raw ≡ accepted r)
        ↔ (IsValidReply crc w raw × (w.decode raw ≡ some r))
  process_struct-IsValidReply raw r framed = (
    λ h.
        let (n, status, en, es) = process_struct-accepted_fields raw r h in
        let (size_ok, crc_ok, status_ok, result) =
          judge-accepted (n == w.reply_size) (validate_buffer_crc crc u w raw false)
            (validate_struct_crc crc u w raw) (is_ok (validate_status status)) (w.decode raw) r
            (sym (process_struct-judge raw n status en es) ∙ h) in
        let (v, ev) = framed.decodes_footer raw r result in
        let same = (validate_struct_crc_lem crc u w raw v ev).0 crc_ok in
        let zero = (==_iff status 0).0 (sym (is_ok-validate_status status) ∙ status_ok) in
        (
          (en ∙ ap some ((==_iff n w.reply_size).0 size_ok), es ∙ ap some zero, ev ∙ ap some same),
          result,
        ),
    λ ((en, es, ev), result).
        let crc_ok = (validate_struct_crc_lem crc u w raw _ ev).1 refl in
        process_struct-judge raw w.reply_size 0 en es
        ∙ rw (==_refl w.reply_size, crc_ok, is_ok-validate_status 0, result) refl,
  )

  -- A reply of more than 6 and less than 2 ^ 64 bytes whose size and status decode, but whose
  -- size is not that of the worker's reply, is refused by `process(raw_reply)` for its size and
  -- checksum, whatever its status and checksum are.
  pub process_struct-wrong_size :
      (raw : Bytes) (n status : ℕ)
      → 6 < length raw
      → length raw < 2 ^ 64
      → decode_field u32 (command_reply_header_at raw 0).cmd_size ≡ some n
      → decode_field u16 (command_reply_header_at raw 0).status ≡ some status
      → ¬ (n ≡ w.reply_size)
      → process_struct crc u w raw ≡ refused wrong_size_and_crc
  process_struct-wrong_size raw n status long fits en es other =
      let size_ok : (n == w.reply_size) ≡ false = ground arith in
      process_struct-judge raw n status en es
      ∙ rw (size_ok, validate_buffer_crc-unsized crc u w raw long fits) refl
