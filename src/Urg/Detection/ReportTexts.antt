-- ===== src/Urg/Detection/ReportTexts.antt =====
-- The texts of the reports in a DL00 reply, as `getDL00Status` of urg_node/src/urg_c_wrapper.cpp reads
-- them.
use urg_node.Prelude.{
  ℕ, ◌+◌, ◌*◌, ◌≤◌, ◌≡◌, refl, arith, some, List, [], ◌∷◌, ◌++◌, length, drop, map, drop-drop,
  drop-append, take-append, take-all, length-append, length-drop, le→leb, sym, ap, ◌∙◌,
}
use urg_node.Prelude.Int.{pos}
use urg_node.Codec.Bytes.{Bytes}
use urg_node.Codec.Hex.{scan_hex}
use urg_node.Codec.Stream.Laws.{IsHexText, extract_hex-IsHexText}
use urg_node.Urg.Library.{Platform}
use urg_node.Urg.Detection.{UrgDetectionReport, substr, read_report, read_reports}

-- The text of a report: three numbers, with two bytes behind the first and the rest of 64 bytes.
pub record ReportText : Type 0 where
  pub area : Bytes
  pub gap : Bytes
  pub distance : Bytes
  pub step : Bytes
  pub rest : Bytes

pub record IsReportText (t : ReportText) : Type 0 where
  pub area_hex : IsHexText 4 t.area
  pub distance_hex : IsHexText 4 t.distance
  pub step_hex : IsHexText 4 t.step
  pub area_size : length t.area ≡ 2
  pub gap_size : length t.gap ≡ 2
  pub distance_size : length t.distance ≡ 4
  pub step_size : length t.step ≡ 4
  pub rest_size : length t.rest ≡ 52

abbrev pub AreReportTexts : List ReportText → Type 0
AreReportTexts [] = Unit
AreReportTexts (t ∷ ts) = IsReportText t × AreReportTexts ts

-- A report in front of what follows it, and reports one after another.
unfoldable pub report_text : ReportText → Bytes → Bytes
report_text t tail = t.area ++ (t.gap ++ (t.distance ++ (t.step ++ (t.rest ++ tail))))

unfoldable pub report_texts : List ReportText → Bytes
unfolding report_text
report_texts [] = []
report_texts (t ∷ ts) = report_text t (report_texts ts)

pub substr-append :
    (msg part tail : Bytes) (position n : ℕ)
    → position ≤ length msg
    → drop position msg ≡ part ++ tail
    → length part ≡ n
    → substr msg position n ≡ some part
unfolding substr
substr-append msg part tail position n fits e size =
    rw (le→leb position (length msg) fits, e) (ap some (take-append n part tail size))

pub substr-rest :
    (msg part : Bytes) (position n : ℕ)
    → position ≤ length msg
    → drop position msg ≡ part
    → length part ≤ n
    → substr msg position n ≡ some part
unfolding substr
substr-rest msg part position n fits e size =
    rw (le→leb position (length msg) fits, e) (ap some (take-all n part size))

-- What lies further on behind a part.
pub drop-further :
    (msg part tail : Bytes) (position n next : ℕ)
    → drop position msg ≡ part ++ tail
    → length part ≡ n
    → position + n ≡ next
    → drop next msg ≡ tail
drop-further msg part tail position n next e size sum =
    let shift : n + position ≡ next = omega arith in
    ap (λ k. drop k msg) (sym shift)
    ∙ sym (drop-drop n position msg)
    ∙ ap (drop n) e
    ∙ drop-append n 0 n part tail size (omega arith)

module _ (p : Platform) where
  -- The report that a text is read as.
  unfoldable pub report_of : ReportText → UrgDetectionReport p
  report_of t =
      let r = p.double in
      record {
        status = 0;
        area = scan_hex 0 t.area;
        distance = scan_hex 0 t.distance;
        angle = p.narrow (r.over (r.of_int (pos (scan_hex 0 t.step))) (r.literal 80 1));
      }

  read_report-report_text :
      (t : ReportText) (msg tail : Bytes) (position : ℕ)
      → IsReportText t
      → position + 64 ≤ length msg
      → drop position msg ≡ report_text t tail
      → read_report p msg position [] ≡ some (report_of t, [])
  unfolding read_report report_text report_of
  read_report-report_text t msg tail position h fits e =
      let at2 = drop-further msg t.area _ position 2 (position + 2) e h.area_size refl in
      let at4 =
        drop-further msg t.gap _ (position + 2) 2 (position + 4) at2 h.gap_size (omega arith) in
      let at8 =
        drop-further msg t.distance _ (position + 4) 4 (position + 8) at4 h.distance_size
          (omega arith) in
      rw
        (
          read_report,
          substr-append msg t.area _ position 2 (omega arith) e h.area_size,
          substr-append msg t.distance _ (position + 4) 4 (omega arith) at4 h.distance_size,
          substr-append msg t.step _ (position + 8) 4 (omega arith) at8 h.step_size,
          extract_hex-IsHexText 0 t.area h.area_hex,
          extract_hex-IsHexText 0 t.distance h.distance_hex,
          extract_hex-IsHexText 0 t.step h.step_hex,
        )
        refl

  length-report_text :
      (t : ReportText) (tail : Bytes)
      → IsReportText t
      → length (report_text t tail) ≡ 64 + length tail
  unfolding report_text
  length-report_text t tail h =
      let l1 = length-append t.rest tail in
      let l2 = length-append t.step (t.rest ++ tail) in
      let l3 = length-append t.distance (t.step ++ (t.rest ++ tail)) in
      let l4 = length-append t.gap (t.distance ++ (t.step ++ (t.rest ++ tail))) in
      let l5 = length-append t.area (t.gap ++ (t.distance ++ (t.step ++ (t.rest ++ tail)))) in
      omega (arith, h.area_size, h.gap_size, h.distance_size, h.step_size, h.rest_size)

  report_text-fits :
      (t : ReportText) (msg tail : Bytes) (position : ℕ)
      → IsReportText t
      → drop position msg ≡ report_text t tail
      → position + 64 ≤ length msg
  report_text-fits t msg tail position h e =
      let same : length (drop position msg) ≡ 64 + length tail =
        ap length e ∙ length-report_text t tail h in
      omega (arith, length-drop position msg)

  drop-report_text :
      (t : ReportText) (msg tail : Bytes) (position : ℕ)
      → IsReportText t
      → drop position msg ≡ report_text t tail
      → drop (position + 64) msg ≡ tail
  unfolding report_text
  drop-report_text t msg tail position h e =
      let at2 = drop-further msg t.area _ position 2 (position + 2) e h.area_size refl in
      let at4 =
        drop-further msg t.gap _ (position + 2) 2 (position + 4) at2 h.gap_size (omega arith) in
      let at8 =
        drop-further msg t.distance _ (position + 4) 4 (position + 8) at4 h.distance_size
          (omega arith) in
      let at12 =
        drop-further msg t.step _ (position + 8) 4 (position + 12) at8 h.step_size (omega arith) in
      drop-further msg t.rest tail (position + 12) 52 (position + 64) at12 h.rest_size (omega arith)

  -- Texts of reports are read as their reports, in order.
  pub read_reports-report_texts :
      (ts : List ReportText) (i : ℕ) (msg : Bytes)
      → AreReportTexts ts
      → drop (i * 64) msg ≡ report_texts ts
      → read_reports p (length ts) i msg [] ≡ some (map report_of ts)
  unfolding read_reports report_texts
  read_reports-report_texts [] i msg h e = refl
  read_reports-report_texts (t ∷ ts) i msg h e =
      let fits = report_text-fits t msg (report_texts ts) (i * 64) h.0 e in
      let shift : i * 64 + 64 ≡ (i + 1) * 64 = omega arith in
      let next =
        ap (λ k. drop k msg) (sym shift)
        ∙ drop-report_text t msg (report_texts ts) (i * 64) h.0 e in
      rw
        (
          read_reports,
          read_report-report_text t msg (report_texts ts) (i * 64) h.0 fits e,
          read_reports-report_texts ts (i + 1) msg h.1 next,
        )
        refl
