-- ===== src/Worker/BufferAcceptance.antt =====
-- Which texts `process(buffer)` of urg_node/include/uam/workers/uam_worker_base.h lets through, and when
-- it reads past them.
use urg_node.Prelude.{
  ℕ, ◌+◌, ◌-◌, ◌^◌, ◌<◌, ◌≤◌, ◌≡◌, ◌↔◌, inl, inr, refl, ap, ◌∙◌, sym, arith, Bool, true, false, not,
  ◌&&◌, ◌||◌, Option, none, some, ◌==◌, ◌>>=◌, ==_iff, ==_refl, Bool-cases, if◌then◌else◌, length,
  leb, leb→le,
}
use urg_node.Codec.Bytes.{Bytes, slice}
use urg_node.Codec.Field.{u16, u32, decode_at}
use urg_node.Protocol.Layout.{offset_of}
use urg_node.Protocol.Header.{command_reply_header_layout, command_footer_layout}
use urg_node.Worker.Crc.{Crc}
use urg_node.Worker.Status.{validate_status}
use urg_node.Worker.Framed.{IsFramed}
use urg_node.Worker.Acceptance.{
  is_ok-validate_status, calculate_reply_crc-some, calculate_reply_crc-none,
}
use urg_node.Worker.Base.{
  Worker, wrong_crc, bad_status, unexpected_packet, wrong_size_and_crc, Processed, accepted,
  refused, decoded, is_ok, assigned, unchecked_bytes, calculate_reply_crc, validate_buffer_crc,
  validate_size, process_buffer, Locals,
}

some≢none : {A : Type 0} {a : A} → ¬ (some a ≡ none)
some≢none h = ground arith

last_step :
    {A B : Type 0} (m : Option A) (f : A → B) {a : A}
    → m ≡ some a
    → (b : B) × ((m >>= λ a. some (f a)) ≡ some b)
last_step m f {a = a} e = (f a, rw e refl)

accepted-injective : {R : Type 0} {x y : Processed R} → some x ≡ some y → x ≡ y
accepted-injective h = ground arith

both : (a b : Bool) → (a && b) ≡ true → (a ≡ true) × (b ≡ true)
both true true h = (refl, refl)
both true false h = absurd (ground arith)
both false b h = absurd (ground arith)

-- The tests of `process(buffer)`, on their results.
abbrev screen : {R : Type 0} → Bool → Bool → Bool → Option R → Processed R
screen size_ok crc_ok status_ok result =
    if not size_ok || not crc_ok
    then refused
        (if crc_ok then unexpected_packet else if size_ok then wrong_crc else wrong_size_and_crc)
    else if not status_ok
    then refused bad_status
    else decoded result

screen-accepted :
    {R : Type 0} (size_ok crc_ok status_ok : Bool) (result : Option R) (r : R)
    → screen size_ok crc_ok status_ok result ≡ accepted r
    → (size_ok ≡ true) × (crc_ok ≡ true) × (status_ok ≡ true) × (result ≡ some r)
screen-accepted true true true (some r') r h = (refl, refl, refl, ground arith)
screen-accepted true true true none r h = absurd (ground arith)
screen-accepted true true false result r h = absurd (ground arith)
screen-accepted true false status_ok result r h = absurd (ground arith)
screen-accepted false true status_ok result r h = absurd (ground arith)
screen-accepted false false status_ok result r h = absurd (ground arith)

module _ {R : Type 0} (crc : Crc) (u : Locals) (w : Worker R) where
  -- What a text has to be, read where the visitors of the worker look.
  abbrev pub IsValidText : Bytes → Type 0
  IsValidText buffer =
      let size_at = offset_of command_reply_header_layout 1 + w.header_offset in
      let status_at = offset_of command_reply_header_layout 4 + w.header_offset in
      let crc_at = offset_of command_footer_layout 0 + w.footer_offset in
      (length buffer ≡ w.reply_size)
      × (decode_at u32 buffer size_at 0 ≡ some w.reply_size)
      × (decode_at u16 buffer status_at 0 ≡ some 0)
      × (decode_at u32 buffer crc_at 0
          ≡ some (crc.checksum (slice buffer 1 (w.reply_size - unchecked_bytes))))

  -- On a text whose frame can be decoded, all tests are made on the numbers in it.
  process_buffer-screen :
      (uninit : R) (buffer : Bytes) (n status v : ℕ)
      → 6 ≤ length buffer
      → length buffer < 2 ^ 64
      → decode_at u32 buffer (offset_of command_reply_header_layout 1 + w.header_offset) 0 ≡ some n
      → decode_at u16 buffer (offset_of command_reply_header_layout 4 + w.header_offset) 0
        ≡ some status
      → decode_at u32 buffer (offset_of command_footer_layout 0 + w.footer_offset) 0 ≡ some v
      → (n == w.reply_size && length buffer == n) ≡ true
      → process_buffer crc u w uninit buffer
        ≡ some (
            screen true
              (crc.checksum (slice buffer 1 (length buffer - 6)) == v)
              (is_ok (validate_status status))
              (w.decode_buffer uninit buffer))
  unfolding process_buffer validate_buffer_crc
  process_buffer-screen uninit buffer n status v long fits en es ev sized =
      rw (calculate_reply_crc-some crc buffer long fits, en, es, ev, sized, process_buffer) refl

  checked :
      (buffer : Bytes) (is_size_valid : Bool)
      → 6 ≤ length buffer
      → length buffer < 2 ^ 64
      → (b : Bool) × (validate_buffer_crc crc u w buffer is_size_valid ≡ some b)
  unfolding validate_buffer_crc
  checked buffer is_size_valid long fits =
      last_step (calculate_reply_crc crc buffer) _ (calculate_reply_crc-some crc buffer long fits)

  -- The test of the size, as it is made on what was decoded before.
  abbrev sized_by : Bytes → Bool
  sized_by buffer =
      let size_at = offset_of command_reply_header_layout 1 + w.header_offset in
      let recv_bytes = assigned u.recv_bytes (decode_at u32 buffer size_at 0) in
      validate_size w recv_bytes && length buffer == recv_bytes

  process_buffer-checked :
      (uninit : R) (buffer : Bytes)
      → 6 ≤ length buffer
      → length buffer < 2 ^ 64
      → (crc_ok status_ok : Bool) × (process_buffer crc u w uninit buffer
          ≡ some (screen (sized_by buffer) crc_ok status_ok (w.decode_buffer uninit buffer)))
  unfolding process_buffer
  process_buffer-checked uninit buffer long fits =
      let (b, eb) = checked buffer (sized_by buffer) long fits in
      let status_at = offset_of command_reply_header_layout 4 + w.header_offset in
      let status = assigned u.status (decode_at u16 buffer status_at 0) in
      (b, is_ok (validate_status status), rw (eb, process_buffer) refl)

  -- On a text of less than 2 ^ 64 bytes, `process(buffer)` reads past the end of the text just
  -- when the text has less than 6 bytes.
  pub process_buffer-none :
      (uninit : R) (buffer : Bytes)
      → length buffer < 2 ^ 64
      → (process_buffer crc u w uninit buffer ≡ none) ↔ (length buffer < 6)
  unfolding process_buffer validate_buffer_crc
  process_buffer-none uninit buffer fits = (
    λ h. elim (Bool-cases (leb 6 (length buffer))) [
      | inl e ↦
          let (b, s, same) =
            process_buffer-checked uninit buffer (leb→le 6 (length buffer) e) fits in
          absurd (some≢none (sym same ∙ h))
      | inr e ↦ ground arith
    ],
    λ h. rw (calculate_reply_crc-none crc buffer h, validate_buffer_crc, process_buffer) refl,
  )

  -- For a framed worker and a text of at least 6 and less than 2 ^ 64 bytes, `process(buffer)`
  -- accepts with the result r just when the text has the size of the reply, the numbers of its
  -- frame decode to that size, the status 0 and the checksum of its bytes, and `decode` gives r,
  -- whatever the uninitialised locals hold.
  pub process_buffer-IsValidText :
      (uninit : R) (buffer : Bytes) (r : R)
      → IsFramed w
      → 6 ≤ length buffer
      → length buffer < 2 ^ 64
      → (process_buffer crc u w uninit buffer ≡ some (accepted r))
        ↔ (IsValidText buffer × (w.decode_buffer uninit buffer ≡ some r))
  process_buffer-IsValidText uninit buffer r framed long fits = (
    λ h.
        let (b, s, same) = process_buffer-checked uninit buffer long fits in
        let (sized, _, _, result) =
          screen-accepted (sized_by buffer) b s (w.decode_buffer uninit buffer) r
            (accepted-injective (sym same ∙ h)) in
        let (n, status, v, en, es, ev) = framed.decodes_frame_at uninit buffer r result in
        let sized' : (n == w.reply_size && length buffer == n) ≡ true = rw en at sized in
        let (is_n, is_length) = both (n == w.reply_size) (length buffer == n) sized' in
        let n_eq = (==_iff n w.reply_size).0 is_n in
        let length_eq = (==_iff (length buffer) n).0 is_length ∙ n_eq in
        let (_, crc_ok, status_ok, _) =
          screen-accepted true (crc.checksum (slice buffer 1 (length buffer - 6)) == v)
            (is_ok (validate_status status)) (w.decode_buffer uninit buffer) r
            (accepted-injective (
              sym (process_buffer-screen uninit buffer n status v long fits en es ev sized')
              ∙ h)) in
        let v_eq = sym ((==_iff (crc.checksum (slice buffer 1 (length buffer - 6))) v).0 crc_ok) in
        let zero = (==_iff status 0).0 (sym (is_ok-validate_status status) ∙ status_ok) in
        (
          (
            length_eq,
            en ∙ ap some n_eq,
            es ∙ ap some zero,
            ev ∙ ap some v_eq ∙ ap (λ k. some (crc.checksum (slice buffer 1 (k - 6)))) length_eq,
          ),
          result,
        ),
    λ ((length_eq, en, es, ev), result).
        let sized : (w.reply_size == w.reply_size && length buffer == w.reply_size) ≡ true =
          rw (==_refl w.reply_size) ((==_iff (length buffer) w.reply_size).1 length_eq) in
        process_buffer-screen uninit buffer w.reply_size 0 _ long fits en es ev sized
        ∙ rw
            (
              length_eq,
              ==_refl (crc.checksum (slice buffer 1 (w.reply_size - 6))),
              is_ok-validate_status 0,
              result,
            )
            refl,
  )
