-- ===== src/Urg/Detection.antt =====
-- The decoding of a DL00 reply in `getDL00Status` of urg_node/src/urg_c_wrapper.cpp. An exception, or an
-- iterator in front of the reports, is the result `none`.
pub mod LastReport
pub mod ReportTexts
pub mod Reply
use urg_node.Prelude.{
  ℕ, zero, suc, ◌+◌, ◌-◌, ◌*◌, ◌%◌, ◌^◌, Bool, true, false, not, Option, none, some, List, [], ◌∷◌,
  ◌++◌, ltb, leb, ◌==◌, if◌then◌else◌, ◌>>=◌, length, take, drop,
}
use urg_node.Prelude.Int.{pos}
use urg_node.Codec.Bytes.{Bytes}
use urg_node.Codec.Stream.{extract_hex}
use urg_node.Worker.Crc.{Crc}
use urg_node.Urg.Library.{Platform}

pub record UrgDetectionReport (p : Platform) : Type 0 where
  pub status : ℕ
  pub area : ℕ
  pub distance : ℕ
  pub angle : p.float.Real

-- `text.substr(position, count)`.
unfoldable pub substr : Bytes → ℕ → ℕ → Option Bytes
substr text position count =
    if leb position (length text) then some (take count (drop position text)) else none

-- `response.erase(0, 1)` and `response.erase(response.size() - 1, 1)`.
unfoldable pub strip : Bytes → Option Bytes
strip response =
    let body = drop 1 response in
    if ltb 0 (length body) then some (take (length body - 1) body) else none

-- The `uint16_t` that is read from a stream once text is written to it, and the stream.
abbrev pub read_u16 : ℕ → Bytes → Bytes → ℕ × Bytes
read_u16 old stream text = extract_hex (2 ^ 16) old (stream ++ text)

module _ (p : Platform) where
  -- The report at an offset of the message, and the stream behind it. The conversion of 16 bits to
  -- `float` is exact.
  unfoldable pub read_report : Bytes → ℕ → Bytes → Option (UrgDetectionReport p × Bytes)
  unfolding substr
  read_report msg offset_pos stream = substr msg offset_pos 2 >>= λ area_text.
      let (area, stream1) = read_u16 0 stream area_text in
      substr msg (offset_pos + 4) 4 >>= λ distance_text.
      let (distance, stream2) = read_u16 0 stream1 distance_text in
      substr msg (offset_pos + 8) 4 >>= λ step_text.
      let (step, stream3) = read_u16 0 stream2 step_text in
      let r = p.double in
      some (
        record {
          status = 0;
          area = area;
          distance = distance;
          angle = p.narrow (r.over (r.of_int (pos step)) (r.literal 80 1));
        },
        stream3,
      )

  -- The loop over so many reports from the `i`th on.
  unfoldable pub read_reports : ℕ → ℕ → Bytes → Bytes → Option (List (UrgDetectionReport p))
  unfolding read_report
  read_reports zero i msg stream = some []
  read_reports (suc n) i msg stream = read_report msg (i * 64) stream >>= λ (r, stream').
      read_reports n (i + 1) msg stream' >>= λ rs. some (r ∷ rs)

  -- The search for the marker from an iterator on: what comes before it is given, last first. The
  -- result is whether there is a report, and the report.
  unfoldable pub find_report :
      ℕ
      → UrgDetectionReport p
      → List (UrgDetectionReport p)
      → List (UrgDetectionReport p)
      → Option (Bool × UrgDetectionReport p)
  find_report status report seen [] = some (true, report)
  find_report status report seen (r ∷ rs) =
      let rest = find_report status report (r ∷ seen) rs in
      if r.area == 255
      then elim seen [
        | [] ↦ none
        | previous ∷ [] ↦ some (false, record report { status = status })
        | previous ∷ more ∷ before ↦
            some (true, record previous { area = (previous.area + 1) % 2 ^ 16; status = status })
      ]
      else rest

  -- `getDL00Status(report)` on the response to its command: `crc_before` is what the variable of the
  -- checksum holds before it is read.
  unfoldable pub decode_dl00 :
      Crc → ℕ → Bytes → UrgDetectionReport p → Option (Bool × UrgDetectionReport p)
  unfolding substr strip read_reports find_report
  decode_dl00 crc crc_before full report = strip full >>= λ response.
      if ltb (length response) 4
      then none
      else substr response (length response - 4) 4 >>= λ crc_text.
          let (sum, stream) = read_u16 crc_before [] crc_text in
          let msg = take (length response - 4) response in
          if not (crc.checksum msg == sum)
          then some (false, report)
          else substr response 8 2 >>= λ status_text.
              let (status, stream1) = read_u16 0 stream status_text in
              if not (status == 0)
              then some (false, report)
              else substr msg 10 (length msg) >>= λ body.
                  read_reports 30 0 body stream1 >>= λ reports. find_report status report [] reports
