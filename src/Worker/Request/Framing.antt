-- ===== src/Worker/Request/Framing.antt =====
-- The fields of an encoded command of urg_node/include/uam/workers/uam_worker_base.h, by their offsets.
use urg_node.Prelude.{
  ℕ, ◌+◌, ◌≡◌, refl, ap, ◌∙◌, arith, some, [], ◌∷◌, ◌++◌, length, take, take-append, drop-append,
  length-append,
}
use urg_node.Codec.Bytes.{Bytes, slice}
use urg_node.Codec.Hex.{
  to_hex_string, hex_text, hex_loop, hex_digit, from_chars, scan_hex, hex_value,
}
use urg_node.Codec.Field.{u32, get_from_chars}
use urg_node.Codec.Laws.{length-to_hex_string, get_from_chars-to_hex_string}
use urg_node.Protocol.Header.{stx_id, etx_id, request_size}
use urg_node.Worker.Crc.{Crc}
use urg_node.Worker.Request.{calculate_crc, encode_command, make_request, get_command}

-- A field of text at the front of a buffer.
slice_front : (w : ℕ) (text rest : Bytes) → length text ≡ w → slice (text ++ rest) 0 w ≡ text
slice_front w text rest e = take-append w text rest e

-- A field behind a first part of known length.
slice_behind :
    (n i k w : ℕ) (front rest : Bytes)
    → length front ≡ n
    → n + i ≡ k
    → slice (front ++ rest) k w ≡ slice rest i w
slice_behind n i k w front rest e s = ap (take w) (drop-append n i k front rest e s)

-- The bytes that the checksum of a request covers.
abbrev body : ℕ × ℕ → ℕ × ℕ → Bytes
body h s = b'0' ∷ b'0' ∷ b'0' ∷ b'E' ∷ h.0 ∷ h.1 ∷ s.0 ∷ s.1 ∷ []

command_shape :
    (crc : Crc) (h s : ℕ × ℕ)
    → get_command crc h s
      ≡ stx_id ∷ (body h s ++ (to_hex_string 4 (crc.checksum (body h s)) ++ (etx_id ∷ [])))
unfolding get_command encode_command make_request calculate_crc to_hex_string hex_text hex_loop
    hex_digit
command_shape crc h s = refl

-- A frame of one request around the text of its checksum.
abbrev pub IsFrame : ℕ × ℕ → ℕ × ℕ → ℕ → Bytes → Type 0
IsFrame h s sum bs =
    (length bs ≡ request_size)
    × (slice bs 0 1 ≡ stx_id ∷ [])
    × (get_from_chars u32 (slice bs 1 4) ≡ some request_size)
    × (slice bs 5 4 ≡ h.0 ∷ h.1 ∷ s.0 ∷ s.1 ∷ [])
    × (get_from_chars u32 (slice bs 9 4) ≡ some sum)
    × (slice bs 13 1 ≡ etx_id ∷ [])

IsFrame-around :
    (h s : ℕ × ℕ) (sum : ℕ) (text : Bytes)
    → length text ≡ 4
    → get_from_chars u32 text ≡ some sum
    → IsFrame h s sum (stx_id ∷ (body h s ++ (text ++ (etx_id ∷ []))))
unfolding get_from_chars from_chars scan_hex hex_value
IsFrame-around h s sum text e g = (
  omega (arith, length-append text (etx_id ∷ [])),
  refl,
  refl,
  refl,
  ap (get_from_chars u32) (take-append 4 text (etx_id ∷ []) e) ∙ g,
  ap (take 1) (drop-append 4 0 4 text (etx_id ∷ []) e refl),
)

sum_reads_back :
    (crc : Crc) (bs : Bytes)
    → get_from_chars u32 (to_hex_string 4 (crc.checksum bs)) ≡ some (crc.checksum bs)
sum_reads_back crc bs =
    get_from_chars-to_hex_string u32 (crc.checksum bs) (crc.checksum_lt bs)
    ∙ ap some (omega (arith, crc.checksum_lt bs))

-- A command that a worker encodes for any header and sub header is a frame: it has the size of a
-- request, STX first and ETX last, its size field reads back as that size, the header and sub
-- header follow, and its checksum field reads back as the checksum of the 8 bytes before it.
pub get_command_lem :
    (crc : Crc) (header sub_header : ℕ × ℕ)
    → let bs = get_command crc header sub_header in
      IsFrame header sub_header (crc.checksum (slice bs 1 8)) bs
get_command_lem crc h s = rw (command_shape crc h s) (
    IsFrame-around h s (crc.checksum (body h s)) (to_hex_string 4 (crc.checksum (body h s)))
      (length-to_hex_string 4 (crc.checksum (body h s)) (omega arith) (omega arith)
        (crc.checksum_lt (body h s)))
      (sum_reads_back crc (body h s)))
