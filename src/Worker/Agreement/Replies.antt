-- ===== src/Worker/Agreement/Replies.antt =====
-- Whole replies of urg_node/src/uam/workers, decoded in both ways.
use urg_node.Prelude.{
  List, ◌∙◌, ℕ, ◌+◌, ◌-◌, ◌<◌, ◌≤◌, ◌≡◌, refl, ap, arith, Option, none, some, ◌>>=◌, length,
}
use urg_node.Codec.Bytes.{Bytes, IsBytes}
use urg_node.Codec.Field.{u16, u32, decode_fields}
use urg_node.Protocol.Layout.{offset_of}
use urg_node.Protocol.Header.{
  CommandReplyHeader, CommandFooter, command_reply_header_layout, command_footer_layout,
  command_reply_header_at, command_footer_at, header_size, footer_size,
}
use urg_node.Protocol.Sensing.{SensingDataHeader}
use urg_node.Worker.Sensing.{decode_sensing_data_at}
use urg_node.Protocol.Replies.{
  Ar00CommandReply, ar00_reply_at, ar00_reply_size, ar01_reply_at, ar01_reply_size, xr00_reply_at,
  xr00_reply_size, empty_reply_at, empty_reply_size,
}
use urg_node.Worker.Base.{decode_header_and_footer, decode_header_and_footer_at}
use urg_node.Worker.Kinds.{
  decode_ar00, decode_ar00_buffer, decode_ar01, decode_ar01_buffer, decode_xr00, decode_xr00_buffer,
  decode_empty, decode_empty_buffer,
}
use urg_node.Protocol.Status.{status_data_at}
use urg_node.Worker.StatusData.{decode_status_data_at}
use urg_node.Worker.Agreement.Members.{member_at}
use urg_node.Worker.Agreement.Sensing.{decode_sensing_data_at-struct}
use urg_node.Worker.Agreement.StatusData.{count_area_from_1, decode_status_data_at-struct}

-- The frame of a reply.
frame_agrees :
    (bs : Bytes) (foot : ℕ)
    → IsBytes bs
    → 11 ≤ foot
    → foot + 4 < length bs
    → decode_header_and_footer_at 0 foot bs
        (command_reply_header_at bs 0)
        (command_footer_at bs foot)
      ≡ decode_header_and_footer (command_reply_header_at bs 0) (command_footer_at bs foot)
unfolding decode_header_and_footer_at decode_header_and_footer command_reply_header_at
    command_footer_at
frame_agrees bs foot h far fits =
    rw
      (
        member_at u32 bs 0 (offset_of command_reply_header_layout 1) h (omega arith),
        member_at u16 bs 0 (offset_of command_reply_header_layout 4) h (omega arith),
        member_at u32 bs foot (offset_of command_footer_layout 0) h (omega arith),
      )
      refl

chain-rest :
    {A B C D : Type 0} (m : Option A) (n : Option B) (f : A → B → C) (k : C → Option D)
    → (m >>= λ a. n >>= λ b. k (f a b)) ≡ ((m >>= λ a. n >>= λ b. some (f a b)) >>= k)
chain-rest none n f k = refl
chain-rest (some a) none f k = refl
chain-rest (some a) (some b) f k = refl

-- The same, where the second step is changed as well.
chain-last :
    {A B C : Type 0} (m : Option A) (n : Option B) (g : B → B) (f : A → B → C) (k : C → C)
    → ((a : A) (b : B) → f a (g b) ≡ k (f a b))
    → (m >>= λ a. (n >>= λ b. some (g b)) >>= λ b. some (f a b))
      ≡ ((m >>= λ a. n >>= λ b. some (f a b)) >>= λ c. some (k c))
chain-last none n g f k same = refl
chain-last (some a) none g f k same = refl
chain-last (some a) (some b) g f k same = ap some (same a b)

-- Decoding the text into a reply that is the struct overlaid on the buffer.
decode_ar00-overlay :
    (bs : Bytes)
    → IsBytes bs
    → length bs ≡ ar00_reply_size
    → decode_ar00 (ar00_reply_at bs) ≡ (
        decode_ar00_buffer 0 (ar00_reply_at bs) bs >>= λ r.
        decode_fields u32 r.ranges >>= λ ranges. some (record r { ranges = ranges }))
unfolding decode_ar00 decode_ar00_buffer ar00_reply_at
decode_ar00-overlay bs h e =
    rw
      (
        frame_agrees bs (ar00_reply_size - footer_size) h (omega arith) (omega arith),
        decode_sensing_data_at-struct bs header_size h (omega arith),
      )
      (search chain-rest)

-- A change of the result of a chain, moved past its first step.
bind-step :
    {A B C : Type 0} (m : Option A) (f : A → Option B) (g : A → Option C) (k : C → B)
    → ((a : A) → f a ≡ (g a >>= λ c. some (k c)))
    → (m >>= f) ≡ ((m >>= g) >>= λ c. some (k c))
bind-step none f g k h = refl
bind-step (some a) f g k h = h a

-- Sensing data with the reserved bytes of another one.
abbrev pub with_reserved : SensingDataHeader → SensingDataHeader → SensingDataHeader
with_reserved s d = record d { reserved0 = s.reserved0; reserved1 = s.reserved1 }

decode_sensing_data_at-old :
    (base : ℕ) (bs : Bytes) (s old : SensingDataHeader)
    → decode_sensing_data_at base bs s
      ≡ (decode_sensing_data_at base bs old >>= λ d. some (with_reserved s d))
unfolding decode_sensing_data_at
decode_sensing_data_at-old base bs s old = ground arith

-- The decoded members of a reply, and all others from the struct `s`.
abbrev pub overlaid : Ar00CommandReply → Ar00CommandReply → List ℕ → Ar00CommandReply
overlaid s r ranges = record {
  header = record s.header { cmd_size = r.header.cmd_size; status = r.header.status };
  sensing_data = with_reserved s.sensing_data r.sensing_data;
  ranges = ranges;
  footer = record s.footer { crc = r.footer.crc };
}

decode_header_and_footer_at-old :
    (header_offset footer_offset : ℕ) (bs : Bytes) (h old_h : CommandReplyHeader)
    (f old_f : CommandFooter)
    → decode_header_and_footer_at header_offset footer_offset bs h f ≡ (
        decode_header_and_footer_at header_offset footer_offset bs old_h old_f >>= λ frame. some (
          record h { cmd_size = frame.0.cmd_size; status = frame.0.status },
          record f { crc = frame.1.crc },
        ))
unfolding decode_header_and_footer_at
decode_header_and_footer_at-old header_offset footer_offset bs h old_h f old_f = search bind-step

-- Two steps whose results are changed.
chain-two :
    {A A' B B' C D : Type 0} (m : Option A) (n : Option B) (f : A → A') (g : B → B')
    (k : A' → B' → C) (k' : A → B → D) (change : D → C)
    → ((a : A) (b : B) → k (f a) (g b) ≡ change (k' a b))
    → ((m >>= λ a. some (f a)) >>= λ a. (n >>= λ b. some (g b)) >>= λ b. some (k a b))
      ≡ ((m >>= λ a. n >>= λ b. some (k' a b)) >>= λ r. some (change r))
chain-two none n f g k k' change h = refl
chain-two (some a) none f g k k' change h = refl
chain-two (some a) (some b) f g k k' change h = ap some (h a b)

decode_ar00_buffer-old :
    (bs : Bytes) (s old : Ar00CommandReply)
    → decode_ar00_buffer 0 s bs
      ≡ (decode_ar00_buffer 0 old bs >>= λ r. some (overlaid s r s.ranges))
unfolding decode_ar00_buffer
decode_ar00_buffer-old bs s old =
    rw
      (
        decode_header_and_footer_at-old 0 (ar00_reply_size - footer_size) bs s.header old.header
            s.footer old.footer,
        decode_sensing_data_at-old header_size bs s.sensing_data old.sensing_data,
      )
      (search chain-two)

bind-some :
    {A B C : Type 0} (m : Option A) (f : A → B) (k : B → Option C)
    → ((m >>= λ a. some (f a)) >>= k) ≡ (m >>= λ a. k (f a))
bind-some none f k = refl
bind-some (some a) f k = refl

decode_ar00_buffer-ranges :
    (bs : Bytes) (old r : Ar00CommandReply)
    → decode_ar00_buffer 0 old bs ≡ some r
    → r.ranges ≡ old.ranges
unfolding decode_ar00_buffer
decode_ar00_buffer-ranges bs old r e = ground arith

-- For a buffer of bytes of the size of an AR00 reply and whatever an uninitialised reply holds,
-- decoding the text into that reply leaves its distances as they were, and gives for all members
-- that it decodes what decoding the struct gives: the latter is the struct overlaid on the buffer
-- with these members and its decoded distances, and fails just where decoding the text or one of
-- the distances fails.
pub decode_ar00-decode_ar00_buffer :
    (bs : Bytes) (old : Ar00CommandReply)
    → IsBytes bs
    → length bs ≡ ar00_reply_size
    → let s = ar00_reply_at bs in
      (decode_ar00 s ≡ (
        decode_ar00_buffer 0 old bs >>= λ r.
        decode_fields u32 s.ranges >>= λ ranges. some (overlaid s r ranges)))
      × ((r : Ar00CommandReply) → decode_ar00_buffer 0 old bs ≡ some r → r.ranges ≡ old.ranges)
decode_ar00-decode_ar00_buffer bs old h e =
    let s = ar00_reply_at bs in
    (
      decode_ar00-overlay bs h e
          ∙ ap
              (λ (m : Option Ar00CommandReply). m >>= λ r.
                decode_fields u32 r.ranges >>= λ ranges. some (record r { ranges = ranges }))
              (decode_ar00_buffer-old bs s old)
          ∙ bind-some (decode_ar00_buffer 0 old bs) (λ r. overlaid s r s.ranges) _,
      decode_ar00_buffer-ranges bs old,
    )

-- For a buffer of bytes of the size of an AR01 reply, decoding the struct gives what decoding the
-- text gives, followed by the decoding of the distances and of the intensities, and fails where one
-- of these fails.
pub decode_ar01-decode_ar01_buffer :
    (bs : Bytes)
    → IsBytes bs
    → length bs ≡ ar01_reply_size
    → decode_ar01 (ar01_reply_at bs) ≡ (
        decode_ar01_buffer 0 (ar01_reply_at bs) bs >>= λ r. decode_fields u32 r.ranges >>= λ ranges.
        decode_fields u32 r.intensities >>= λ intensities.
        some (record r { ranges = ranges; intensities = intensities }))
unfolding decode_ar01 decode_ar01_buffer ar01_reply_at
decode_ar01-decode_ar01_buffer bs h e =
    rw
      (
        frame_agrees bs (ar01_reply_size - footer_size) h (omega arith) (omega arith),
        decode_sensing_data_at-struct bs header_size h (omega arith),
      )
      (search chain-rest)

-- For a buffer of bytes of the size of an XR00 reply, decoding the struct gives what decoding the
-- text gives with 1 added to the area number modulo 2 ^ 16, and fails where that fails.
pub decode_xr00-decode_xr00_buffer :
    (bs : Bytes)
    → IsBytes bs
    → length bs ≡ xr00_reply_size
    → decode_xr00 (xr00_reply_at bs) ≡ (
        decode_xr00_buffer 0 (xr00_reply_at bs) bs >>= λ r.
        some (record r { status_data = count_area_from_1 r.status_data }))
unfolding decode_xr00 decode_xr00_buffer xr00_reply_at
decode_xr00-decode_xr00_buffer bs h e =
    rw
      (
        frame_agrees bs (xr00_reply_size - footer_size) h (omega arith) (omega arith),
        ← decode_status_data_at-struct bs header_size h (omega arith),
      )
      (chain-last
        (decode_header_and_footer (command_reply_header_at bs 0)
          (command_footer_at bs (xr00_reply_size - footer_size)))
        (decode_status_data_at header_size bs (status_data_at bs header_size)) count_area_from_1
        (λ frame d. record { header = frame.0; status_data = d; footer = frame.1 })
        (λ r. record r { status_data = count_area_from_1 r.status_data }) (λ frame d. refl))

-- For a buffer of bytes of the size of a reply without data, decoding the struct and decoding the
-- text give the same.
pub decode_empty-decode_empty_buffer :
    (bs : Bytes)
    → IsBytes bs
    → length bs ≡ empty_reply_size
    → decode_empty (empty_reply_at bs) ≡ decode_empty_buffer 0 (empty_reply_at bs) bs
unfolding decode_empty decode_empty_buffer empty_reply_at
decode_empty-decode_empty_buffer bs h e =
    rw (frame_agrees bs (empty_reply_size - footer_size) h (omega arith) (omega arith)) refl
