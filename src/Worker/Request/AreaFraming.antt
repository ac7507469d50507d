-- ===== src/Worker/Request/AreaFraming.antt =====
-- The fields of an encoded command of urg_node/include/uam/workers/yr_worker.h, by their offsets.
use urg_node.Prelude.{
  ℕ, ◌^◌, ◌<◌, ◌≡◌, refl, sym, ap, ◌∙◌, arith, some, [], ◌∷◌, ◌++◌, length, take, Option,
  take-append, take-append_past, drop-append, length-append,
}
use urg_node.Codec.Bytes.{Bytes, slice}
use urg_node.Codec.Hex.{
  to_hex_string, hex_text, hex_loop, hex_digit, from_chars, scan_hex, hex_value,
}
use urg_node.Codec.Field.{u16, u32, get_from_chars}
use urg_node.Codec.Laws.{length-to_hex_string, get_from_chars-to_hex_string}
use urg_node.Protocol.Layout.{offset_of}
use urg_node.Protocol.Header.{stx_id, etx_id}
use urg_node.Protocol.Area.{
  EyrAreaType, protection_1, protection_2, warning_1, warning_2, muting_1, muting_2,
  reference_center, reference_max, reference_min, area_type_code, yr_request_size,
  yr_command_header_layout,
}
use urg_node.Worker.Crc.{Crc}
use urg_node.Worker.Request.{encode_yr_command, calculate_yr_crc, get_yr_command}

-- The parameters of the command, as text.
record Texts : Type 0 where
  kind : Bytes
  number : Bytes
  start : Bytes
  stop : Bytes

abbrev area_body : Texts → Bytes → Bytes
area_body t rest =
    b'0'
    ∷ b'0'
    ∷ b'1'
    ∷ b'A'
    ∷ b'Y'
    ∷ b'R'
    ∷ (t.kind ++ (t.number ++ (t.start ++ (t.stop ++ (b'0' ∷ b'1' ∷ rest)))))

abbrev texts : EyrAreaType → ℕ → ℕ → ℕ → Texts
texts a n s e = record {
  kind = to_hex_string 2 (area_type_code a);
  number = to_hex_string 2 n;
  start = to_hex_string 4 s;
  stop = to_hex_string 4 e;
}

area_command_shape :
    (crc : Crc) (a : EyrAreaType) (n s e : ℕ)
    → get_yr_command crc a n s e
      ≡ stx_id
        ∷ area_body
            (texts a n s e)
            (to_hex_string 4 (crc.checksum (area_body (texts a n s e) [])) ++ (etx_id ∷ []))
unfolding get_yr_command encode_yr_command calculate_yr_crc to_hex_string hex_text hex_loop
    hex_digit
area_command_shape crc a n s e = refl

-- The texts have the widths of the fields that they stand for.
record HasWidths (t : Texts) (sum : Bytes) : Type 0 where
  kind_two : length t.kind ≡ 2
  number_two : length t.number ≡ 2
  start_four : length t.start ≡ 4
  stop_four : length t.stop ≡ 4
  sum_four : length sum ≡ 4

module _ (t : Texts) (sum : Bytes) (w : HasWidths t sum) where
  frame : Bytes
  frame = stx_id ∷ area_body t (sum ++ (etx_id ∷ []))

  length-frame : length frame ≡ 26
  unfolding frame
  length-frame = omega (
    arith,
    length-append t.kind
        (t.number ++ (t.start ++ (t.stop ++ (b'0' ∷ b'1' ∷ (sum ++ (etx_id ∷ [])))))),
    length-append t.number (t.start ++ (t.stop ++ (b'0' ∷ b'1' ∷ (sum ++ (etx_id ∷ []))))),
    length-append t.start (t.stop ++ (b'0' ∷ b'1' ∷ (sum ++ (etx_id ∷ [])))),
    length-append t.stop (b'0' ∷ b'1' ∷ (sum ++ (etx_id ∷ []))),
    length-append sum (etx_id ∷ []),
    w.kind_two,
    w.number_two,
    w.start_four,
    w.stop_four,
    w.sum_four,
  )

  kind_at : slice frame 7 2 ≡ t.kind
  unfolding frame
  kind_at = take-append 2 t.kind _ w.kind_two

  number_at : slice frame 9 2 ≡ t.number
  unfolding frame
  number_at =
      ap (take 2) (drop-append 2 0 2 t.kind _ w.kind_two refl)
      ∙ take-append 2 t.number _ w.number_two

  start_at : slice frame 11 4 ≡ t.start
  unfolding frame
  start_at =
      ap (take 4) (
        drop-append 2 2 4 t.kind _ w.kind_two refl ∙ drop-append 2 0 2 t.number _ w.number_two refl)
      ∙ take-append 4 t.start _ w.start_four

  stop_at : slice frame 15 4 ≡ t.stop
  unfolding frame
  stop_at =
      ap (take 4) (
        drop-append 2 6 8 t.kind _ w.kind_two refl
        ∙ drop-append 2 4 6 t.number _ w.number_two refl
        ∙ drop-append 4 0 4 t.start _ w.start_four refl)
      ∙ take-append 4 t.stop _ w.stop_four

  resolution_at : slice frame 19 2 ≡ b'0' ∷ b'1' ∷ []
  unfolding frame
  resolution_at = ap (take 2) (
      drop-append 2 10 12 t.kind _ w.kind_two refl
      ∙ drop-append 2 8 10 t.number _ w.number_two refl
      ∙ drop-append 4 4 8 t.start _ w.start_four refl
      ∙ drop-append 4 0 4 t.stop _ w.stop_four refl)

  sum_at : slice frame 21 4 ≡ sum
  unfolding frame
  sum_at =
      ap (take 4) (
        drop-append 2 12 14 t.kind _ w.kind_two refl
        ∙ drop-append 2 10 12 t.number _ w.number_two refl
        ∙ drop-append 4 6 10 t.start _ w.start_four refl
        ∙ drop-append 4 2 6 t.stop _ w.stop_four refl)
      ∙ take-append 4 sum _ w.sum_four

  etx_at : slice frame 25 1 ≡ etx_id ∷ []
  unfolding frame
  etx_at = ap (take 1) (
      drop-append 2 16 18 t.kind _ w.kind_two refl
      ∙ drop-append 2 14 16 t.number _ w.number_two refl
      ∙ drop-append 4 10 14 t.start _ w.start_four refl
      ∙ drop-append 4 6 10 t.stop _ w.stop_four refl
      ∙ drop-append 4 0 4 sum _ w.sum_four refl)

  covered : slice frame 1 20 ≡ area_body t []
  unfolding frame
  covered =
      ap (λ r. b'0' ∷ b'0' ∷ b'1' ∷ b'A' ∷ b'Y' ∷ b'R' ∷ r)
        (take-append_past 2 12 14 t.kind _ w.kind_two refl
          ∙ ap (λ r. t.kind ++ r)
              (take-append_past 2 10 12 t.number _ w.number_two refl
                ∙ ap (λ r. t.number ++ r)
                    (take-append_past 4 6 10 t.start _ w.start_four refl
                      ∙ ap (λ r. t.start ++ r) (take-append_past 4 2 6 t.stop _ w.stop_four refl))))

area_type_code-lt : (a : EyrAreaType) → area_type_code a < 16 ^ 2
area_type_code-lt protection_1 = omega arith
area_type_code-lt protection_2 = omega arith
area_type_code-lt warning_1 = omega arith
area_type_code-lt warning_2 = omega arith
area_type_code-lt muting_1 = omega arith
area_type_code-lt muting_2 = omega arith
area_type_code-lt reference_center = omega arith
area_type_code-lt reference_max = omega arith
area_type_code-lt reference_min = omega arith

text_of_u16 : (v : ℕ) → v < 16 ^ 2 → get_from_chars u16 (to_hex_string 2 v) ≡ some v
text_of_u16 v h = get_from_chars-to_hex_string u16 v h ∙ ap some (omega arith)

text_of_u32 : (v : ℕ) → v < 16 ^ 4 → get_from_chars u32 (to_hex_string 4 v) ≡ some v
text_of_u32 v h = get_from_chars-to_hex_string u32 v h ∙ ap some (omega arith)

-- The field of type `uint16_t` or `uint32_t` that the struct has at its place `i`.
abbrev pub u16_member : Bytes → ℕ → Option ℕ
u16_member bs i = get_from_chars u16 (slice bs (offset_of yr_command_header_layout i) 2)

abbrev pub u32_member : Bytes → ℕ → Option ℕ
u32_member bs i = get_from_chars u32 (slice bs (offset_of yr_command_header_layout i) 4)

-- A YR command for any area type, an area number below 256 and steps below 65536 is a frame whose
-- size, area type, area number, steps, resolution and checksum read back as what was asked for and
-- as the checksum of the 20 bytes between STX and the checksum field.
pub get_yr_command_lem :
    (crc : Crc) (a : EyrAreaType) (n s e : ℕ)
    → n < 256
    → s < 65536
    → e < 65536
    → let bs = get_yr_command crc a n s e in
      (length bs ≡ yr_request_size)
      × (slice bs 0 1 ≡ stx_id ∷ [])
      × (u32_member bs 1 ≡ some yr_request_size)
      × (slice bs 5 2 ≡ b'Y' ∷ b'R' ∷ [])
      × (u16_member bs 3 ≡ some (area_type_code a))
      × (u16_member bs 4 ≡ some n)
      × (u32_member bs 5 ≡ some s)
      × (u32_member bs 6 ≡ some e)
      × (u16_member bs 7 ≡ some 1)
      × (get_from_chars u32 (slice bs 21 4) ≡ some (crc.checksum (slice bs 1 20)))
      × (slice bs 25 1 ≡ etx_id ∷ [])
unfolding frame get_from_chars from_chars scan_hex hex_value
get_yr_command_lem crc a n s e hn hs he =
    let t = texts a n s e in
    let c = crc.checksum (area_body t []) in
    let lt = crc.checksum_lt (area_body t []) in
    let sum = to_hex_string 4 c in
    let w : HasWidths t sum = record {
      kind_two =
          length-to_hex_string 2 (area_type_code a) (omega arith) (omega arith)
            (area_type_code-lt a);
      number_two = length-to_hex_string 2 n (omega arith) (omega arith) hn;
      start_four = length-to_hex_string 4 s (omega arith) (omega arith) hs;
      stop_four = length-to_hex_string 4 e (omega arith) (omega arith) he;
      sum_four = length-to_hex_string 4 c (omega arith) (omega arith) lt;
    } in
    rw (area_command_shape crc a n s e) (
      length-frame t sum w,
      refl,
      refl,
      refl,
      ap (get_from_chars u16) (kind_at t sum w)
          ∙ text_of_u16 (area_type_code a) (area_type_code-lt a),
      ap (get_from_chars u16) (number_at t sum w) ∙ text_of_u16 n hn,
      ap (get_from_chars u32) (start_at t sum w) ∙ text_of_u32 s hs,
      ap (get_from_chars u32) (stop_at t sum w) ∙ text_of_u32 e he,
      ap (get_from_chars u16) (resolution_at t sum w),
      ap (get_from_chars u32) (sum_at t sum w)
          ∙ text_of_u32 c lt
          ∙ ap (λ (b : Bytes). some (crc.checksum b)) (sym (covered t sum w)),
      etx_at t sum w,
    )
