-- ===== src/Urg/Detection/Reply.antt =====
-- A whole DL00 reply: `getDL00Status` of urg_node/src/urg_c_wrapper.cpp.
use urg_node.Prelude.{
  ℕ, ◌+◌, ◌-◌, ◌≤◌, ◌≡◌, refl, arith, true, false, some, List, [], ◌∷◌, ◌++◌, ◌==◌, leb, ltb,
  length, take, drop, map, drop-append, take-append, length-append, length-drop, le→leb, lt→ltb,
  le→ltb, take-drop-take, sym, ap, subst, ◌∙◌, ==_refl, if-true,
}
use urg_node.Codec.Bytes.{Bytes}
use urg_node.Codec.Hex.{scan_hex}
use urg_node.Codec.Stream.Laws.{IsHexText, extract_hex-IsHexText}
use urg_node.Urg.Detection.LastReport.{IsMarker, NoMarker, latest, find_report-IsMarker}
use urg_node.Urg.Detection.ReportTexts.{
  ReportText, AreReportTexts, report_texts, report_of, substr-rest, drop-further,
  read_reports-report_texts,
}
use urg_node.Worker.Crc.{Crc}
use urg_node.Urg.Library.{Platform}
use urg_node.Urg.Detection.{
  UrgDetectionReport, substr, strip, read_reports, find_report, decode_dl00,
}

-- A reply with its parts: STX, eight bytes, a status of 0, thirty reports, the checksum and ETX.
pub record Dl00Reply : Type 0 where
  pub stx : ℕ
  pub head : Bytes
  pub status : Bytes
  pub reports : List ReportText
  pub checksum : Bytes
  pub etx : ℕ

-- The bytes that the checksum is about, and all bytes.
unfoldable pub dl00_message : Dl00Reply → Bytes
unfolding report_texts
dl00_message d = d.head ++ (d.status ++ report_texts d.reports)

unfoldable pub dl00_bytes : Dl00Reply → Bytes
unfolding dl00_message
dl00_bytes d = d.stx ∷ ((dl00_message d ++ d.checksum) ++ (d.etx ∷ []))

pub record IsDl00Reply (crc : Crc) (d : Dl00Reply) : Type 0 where
  pub head_size : length d.head ≡ 8
  pub status_size : length d.status ≡ 2
  pub status_hex : IsHexText 4 d.status
  pub status_zero : scan_hex 0 d.status ≡ 0
  pub count : length d.reports ≡ 30
  pub texts : AreReportTexts d.reports
  pub checksum_size : length d.checksum ≡ 4
  pub checksum_hex : IsHexText 4 d.checksum
  pub checksum_eq : scan_hex 0 d.checksum ≡ crc.checksum (dl00_message d)

strip-dl00_bytes : (d : Dl00Reply) → strip (dl00_bytes d) ≡ some (dl00_message d ++ d.checksum)
unfolding strip dl00_bytes
strip-dl00_bytes d =
    let body = dl00_message d ++ d.checksum in
    let l = length-append body (d.etx ∷ []) in
    let positive : ltb 0 (length (body ++ (d.etx ∷ []))) ≡ true = lt→ltb _ _ (omega arith) in
    let size : length body ≡ length (body ++ (d.etx ∷ [])) - 1 = omega arith in
    rw (positive) (ap some (take-append _ body (d.etx ∷ []) size))

module _ (crc : Crc) (d : Dl00Reply) (h : IsDl00Reply crc d) where
  abbrev response : Bytes
  response = dl00_message d ++ d.checksum

  length-response : length response ≡ length (dl00_message d) + 4
  length-response = omega (arith, length-append (dl00_message d) d.checksum, h.checksum_size)

  message_ge : 10 ≤ length (dl00_message d)
  unfolding dl00_message
  message_ge =
      let l1 = length-append d.head (d.status ++ report_texts d.reports) in
      let l2 = length-append d.status (report_texts d.reports) in
      omega (arith, h.head_size, h.status_size)

  response-message : take (length response - 4) response ≡ dl00_message d
  response-message =
      take-append (length response - 4) (dl00_message d) d.checksum (omega (arith, length-response))

  response-checksum : substr response (length response - 4) 4 ≡ some d.checksum
  response-checksum =
      let size : length (dl00_message d) + 0 ≡ length response - 4 =
        omega (arith, length-response) in
      substr-rest response d.checksum (length response - 4) 4 (omega arith)
        (drop-append (length (dl00_message d)) 0 (length response - 4) (dl00_message d) d.checksum
          refl size)
        (omega (arith, h.checksum_size))

  message-status : drop 8 (dl00_message d) ≡ d.status ++ report_texts d.reports
  unfolding dl00_message
  message-status = drop-append 8 0 8 d.head _ h.head_size refl

  response-status : substr response 8 2 ≡ some d.status
  unfolding substr
  response-status =
      let n = length (dl00_message d) in
      let whole : take n response ≡ dl00_message d =
        take-append n (dl00_message d) d.checksum refl in
      let inside : take 2 (drop 8 response) ≡ take 2 (drop 8 (dl00_message d)) =
        sym (take-drop-take n 8 2 response message_ge) ∙ ap (λ m. take 2 (drop 8 m)) whole in
      let status : take 2 (drop 8 response) ≡ d.status =
        inside ∙ ap (take 2) message-status ∙ take-append 2 d.status _ h.status_size in
      if-true (leb 8 (length response)) _ _
        (le→leb 8 (length response) (omega (arith, length-response, message_ge)))
      ∙ ap some status

  message-reports :
      substr (dl00_message d) 10 (length (dl00_message d)) ≡ some (report_texts d.reports)
  message-reports =
      let at10 =
        drop-further (dl00_message d) d.status (report_texts d.reports) 8 2 10 message-status
          h.status_size refl in
      let size : length (report_texts d.reports) ≤ length (dl00_message d) =
        omega (arith, ap length at10, length-drop 10 (dl00_message d)) in
      substr-rest (dl00_message d) (report_texts d.reports) 10 _ message_ge at10 size

-- A good reply leads to the search in the reports of its texts.
pub decode_dl00-find_report :
    (p : Platform) (crc : Crc) (d : Dl00Reply) (crc_before : ℕ) (report : UrgDetectionReport p)
    → IsDl00Reply crc d
    → decode_dl00 p crc crc_before (dl00_bytes d) report
      ≡ find_report p 0 report [] (map (report_of p) d.reports)
unfolding decode_dl00
decode_dl00-find_report p crc d crc_before report h =
    let response = dl00_message d ++ d.checksum in
    let enough : ltb (length response) 4 ≡ false =
      le→ltb _ _ (omega (arith, length-response crc d h)) in
    let sum_eq : (crc.checksum (dl00_message d) == scan_hex 0 d.checksum) ≡ true =
      rw (h.checksum_eq) (==_refl _) in
    let reports = read_reports-report_texts p d.reports 0 (report_texts d.reports) h.texts refl in
    rw
      (
        decode_dl00,
        strip-dl00_bytes d,
        enough,
        response-checksum crc d h,
        response-message crc d h,
        extract_hex-IsHexText crc_before d.checksum h.checksum_hex,
        sum_eq,
        response-status crc d h,
        extract_hex-IsHexText 0 d.status h.status_hex,
        h.status_zero,
        message-reports crc d h,
        subst
            (λ n.
              read_reports p n 0 (report_texts d.reports) [] ≡ some (map (report_of p) d.reports))
            h.count reports,
      )
      refl

-- A DL00 reply with the right checksum, the status 0 and thirty reports in hexadecimal digits, of
-- which one at the third place or later is the first with the area 0xFF, is decoded to the report
-- in front of it with 1 added to its area and the status 0.
pub decode_dl00-IsMarker :
    (p : Platform) (crc : Crc) (d : Dl00Reply) (crc_before : ℕ)
    (report first r marker : UrgDetectionReport p) (before after : List (UrgDetectionReport p))
    → IsDl00Reply crc d
    → map (report_of p) d.reports ≡ first ∷ before ++ (r ∷ marker ∷ after)
    → NoMarker p (first ∷ before ++ (r ∷ []))
    → IsMarker p marker
    → decode_dl00 p crc crc_before (dl00_bytes d) report ≡ some (true, latest p 0 r)
decode_dl00-IsMarker p crc d crc_before report first r marker before after h e none_before m =
    decode_dl00-find_report p crc d crc_before report h
    ∙ ap (find_report p 0 report []) e
    ∙ find_report-IsMarker p 0 report first r marker before after none_before m
