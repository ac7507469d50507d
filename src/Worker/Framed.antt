-- ===== src/Worker/Framed.antt =====
-- What `WorkerBase` of urg_node/include/uam/workers/uam_worker_base.h expects of the `decode` of a derived
-- class, and the workers of urg_node/src/uam/workers that provide it.
use urg_node.Prelude.{ℕ, ◌+◌, ◌-◌, ◌≡◌, Option, some, ◌>>=◌, >>=-eq-some}
use urg_node.Codec.Bytes.{Bytes}
use urg_node.Codec.Field.{u16, u32, decode_field, decode_at}
use urg_node.Protocol.Layout.{offset_of}
use urg_node.Protocol.Header.{
  CommandReplyHeader, CommandFooter, command_reply_header_layout, command_footer_layout,
  command_footer_at, footer_size,
}
use urg_node.Protocol.Replies.{
  ar00_reply_at, ar01_reply_at, ar06_reply_at, xr00_reply_at, vr00_reply_at, id00_reply_at,
  empty_reply_at,
}
use urg_node.Worker.Base.{Worker, decode_header_and_footer, decode_header_and_footer_at}
use urg_node.Worker.Kinds.{
  decode_ar00, decode_ar01, decode_ar06, decode_xr00, decode_vr00, decode_id00, decode_empty,
  decode_ar00_buffer, decode_ar01_buffer, decode_ar06_buffer, decode_xr00_buffer,
  decode_empty_buffer, ar00_worker, ar01_worker, ar06_worker, xr00_worker, empty_reply_worker,
}
use urg_node.Worker.Raw.{vr00_worker, id00_worker, decode_vr00_buffer, decode_id00_buffer}

-- The three numbers of a frame can be decoded.
abbrev pub HasFrameAt : ℕ → ℕ → Bytes → Type 0
HasFrameAt header_offset footer_offset buffer =
    (n : ℕ) × (status : ℕ) × (v : ℕ) × (decode_at u32 buffer
        (offset_of command_reply_header_layout 1 + header_offset) 0
      ≡ some n)
    × (decode_at u16 buffer (offset_of command_reply_header_layout 4 + header_offset) 0
        ≡ some status)
    × (decode_at u32 buffer (offset_of command_footer_layout 0 + footer_offset) 0 ≡ some v)

-- A reply that the worker decodes has a footer with a number in it, and a text that it decodes has
-- all three numbers of the frame.
pub record IsFramed {R : Type 0} (w : Worker R) : Type 0 where
  pub decodes_footer :
      (raw : Bytes) (r : R)
      → w.decode raw ≡ some r
      → (v : ℕ) × (decode_field u32 (command_footer_at raw (w.reply_size - footer_size)).crc
          ≡ some v)
  pub decodes_frame_at :
      (uninit : R) (buffer : Bytes) (r : R)
      → w.decode_buffer uninit buffer ≡ some r
      → HasFrameAt w.header_offset w.footer_offset buffer

footer_decoded :
    (header : CommandReplyHeader) (footer : CommandFooter) (f : CommandReplyHeader × CommandFooter)
    → decode_header_and_footer header footer ≡ some f
    → (v : ℕ) × (decode_field u32 footer.crc ≡ some v)
unfolding decode_header_and_footer
footer_decoded header footer f e =
    let (size, es, e') = >>=-eq-some (decode_field u32 header.cmd_size) _ e in
    let (status, et, e'') = >>=-eq-some (decode_field u16 header.status) _ e' in
    let (v, ev, e3) = >>=-eq-some (decode_field u32 footer.crc) _ e'' in (v, ev)

-- The first step of every decoding.
chain_frame :
    {R : Type 0} (header : CommandReplyHeader) (footer : CommandFooter)
    (rest : CommandReplyHeader × CommandFooter → Option R) {r : R}
    → (decode_header_and_footer header footer >>= rest) ≡ some r
    → (v : ℕ) × (decode_field u32 footer.crc ≡ some v)
chain_frame header footer rest e =
    let (f, ef, e') = >>=-eq-some (decode_header_and_footer header footer) rest e in
    footer_decoded header footer f ef

frame_decoded_at :
    (header_offset footer_offset : ℕ) (buffer : Bytes) (header : CommandReplyHeader)
    (footer : CommandFooter) (f : CommandReplyHeader × CommandFooter)
    → decode_header_and_footer_at header_offset footer_offset buffer header footer ≡ some f
    → HasFrameAt header_offset footer_offset buffer
unfolding decode_header_and_footer_at
frame_decoded_at header_offset footer_offset buffer header footer f e =
    let (n, en, e') =
      >>=-eq-some (decode_at u32 buffer (offset_of command_reply_header_layout 1 + header_offset) 0)
        _ e in
    let (status, es, e2) =
      >>=-eq-some (decode_at u16 buffer (offset_of command_reply_header_layout 4 + header_offset) 0)
        _ e' in
    let (v, ev, e3) =
      >>=-eq-some (decode_at u32 buffer (offset_of command_footer_layout 0 + footer_offset) 0) _
        e2 in
    (n, status, v, en, es, ev)

chain_frame_at :
    {R : Type 0} (header_offset footer_offset : ℕ) (buffer : Bytes) (header : CommandReplyHeader)
    (footer : CommandFooter) (rest : CommandReplyHeader × CommandFooter → Option R) {r : R}
    → (decode_header_and_footer_at header_offset footer_offset buffer header footer >>= rest)
      ≡ some r
    → HasFrameAt header_offset footer_offset buffer
chain_frame_at header_offset footer_offset buffer header footer rest e =
    let (f, ef, e') =
      >>=-eq-some (decode_header_and_footer_at header_offset footer_offset buffer header footer)
        rest e in
    frame_decoded_at header_offset footer_offset buffer header footer f ef

pub ar00_worker-IsFramed : (idx_offset : ℕ) → IsFramed (ar00_worker idx_offset)
unfolding ar00_worker decode_ar00 decode_ar00_buffer ar00_reply_at
ar00_worker-IsFramed idx_offset = record {
  decodes_footer = λ raw r e. chain_frame _ _ _ e;
  decodes_frame_at = λ uninit buffer r e. chain_frame_at _ _ buffer _ _ _ e;
}

pub ar01_worker-IsFramed : (idx_offset : ℕ) → IsFramed (ar01_worker idx_offset)
unfolding ar01_worker decode_ar01 decode_ar01_buffer ar01_reply_at
ar01_worker-IsFramed idx_offset = record {
  decodes_footer = λ raw r e. chain_frame _ _ _ e;
  decodes_frame_at = λ uninit buffer r e. chain_frame_at _ _ buffer _ _ _ e;
}

pub ar06_worker-IsFramed : (idx_offset : ℕ) → IsFramed (ar06_worker idx_offset)
unfolding ar06_worker decode_ar06 decode_ar06_buffer ar06_reply_at
ar06_worker-IsFramed idx_offset = record {
  decodes_footer = λ raw r e. chain_frame _ _ _ e;
  decodes_frame_at = λ uninit buffer r e. chain_frame_at _ _ buffer _ _ _ e;
}

pub xr00_worker-IsFramed : (idx_offset : ℕ) → IsFramed (xr00_worker idx_offset)
unfolding xr00_worker decode_xr00 decode_xr00_buffer xr00_reply_at
xr00_worker-IsFramed idx_offset = record {
  decodes_footer = λ raw r e. chain_frame _ _ _ e;
  decodes_frame_at = λ uninit buffer r e. chain_frame_at _ _ buffer _ _ _ e;
}

pub vr00_worker-IsFramed : (idx_offset : ℕ) → IsFramed (vr00_worker idx_offset)
unfolding vr00_worker decode_vr00 decode_vr00_buffer vr00_reply_at
vr00_worker-IsFramed idx_offset = record {
  decodes_footer = λ raw r e. chain_frame _ _ _ e;
  decodes_frame_at = λ uninit buffer r e. chain_frame_at _ _ buffer _ _ _ e;
}

pub id00_worker-IsFramed : (idx_offset : ℕ) → IsFramed (id00_worker idx_offset)
unfolding id00_worker decode_id00 decode_id00_buffer id00_reply_at
id00_worker-IsFramed idx_offset = record {
  decodes_footer = λ raw r e. chain_frame _ _ _ e;
  decodes_frame_at = λ uninit buffer r e. chain_frame_at _ _ buffer _ _ _ e;
}

pub empty_reply_worker-IsFramed :
    (header sub_header : ℕ × ℕ) (idx_offset : ℕ)
    → IsFramed (empty_reply_worker header sub_header idx_offset)
unfolding empty_reply_worker decode_empty decode_empty_buffer empty_reply_at
empty_reply_worker-IsFramed header sub_header idx_offset = record {
  decodes_footer = λ raw r e. chain_frame _ _ _ e;
  decodes_frame_at = λ uninit buffer r e. chain_frame_at _ _ buffer _ _ _ e;
}
