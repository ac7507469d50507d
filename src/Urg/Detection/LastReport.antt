-- ===== src/Urg/Detection/LastReport.antt =====
-- The search for the latest report in `getDL00Status` of urg_node/src/urg_c_wrapper.cpp.
use urg_node.Prelude.{
  ℕ, ◌+◌, ◌%◌, ◌^◌, ◌≡◌, ◌≢◌, refl, arith, true, false, some, List, [], ◌∷◌, ◌++◌, ◌==◌, All, ◌∙◌,
  if-false,
}
use urg_node.Urg.Library.{Platform}
use urg_node.Urg.Detection.{UrgDetectionReport, find_report}

module _ (p : Platform) where
  abbrev pub IsMarker : UrgDetectionReport p → Type 0
  IsMarker r = r.area ≡ 255

  abbrev pub NoMarker : List (UrgDetectionReport p) → Type 0
  NoMarker = All (λ r. r.area ≢ 255)

  abbrev pub latest : ℕ → UrgDetectionReport p → UrgDetectionReport p
  latest status r = record r { area = (r.area + 1) % 2 ^ 16; status = status }

  -- With two or more reports seen the marker leads to the last of them.
  find_report-seen :
      (status : ℕ) (report r s marker : UrgDetectionReport p)
      (seen before after : List (UrgDetectionReport p))
      → NoMarker (before ++ (r ∷ []))
      → IsMarker marker
      → find_report p status report (s ∷ seen) (before ++ (r ∷ marker ∷ after))
        ≡ some (true, latest status r)
  unfolding find_report
  find_report-seen status report r s marker seen [] after h m = ground arith
  find_report-seen status report r s marker seen (b ∷ before) after h m =
      if-false (b.area == 255) _ _ (ground arith)
      ∙ find_report-seen status report r b marker (s ∷ seen) before after h.1 m

  -- The first marker, at the third place or later, leads to the report in front of it.
  pub find_report-IsMarker :
      (status : ℕ) (report first r marker : UrgDetectionReport p)
      (before after : List (UrgDetectionReport p))
      → NoMarker (first ∷ before ++ (r ∷ []))
      → IsMarker marker
      → find_report p status report [] (first ∷ before ++ (r ∷ marker ∷ after))
        ≡ some (true, latest status r)
  unfolding find_report
  find_report-IsMarker status report first r marker before after h m =
      if-false (first.area == 255) _ _ (ground arith)
      ∙ find_report-seen status report r first marker [] before after h.1 m

  -- A marker at the second place is taken for no report.
  pub find_report-early :
      (status : ℕ) (report first marker : UrgDetectionReport p)
      (after : List (UrgDetectionReport p))
      → first.area ≢ 255
      → IsMarker marker
      → find_report p status report [] (first ∷ marker ∷ after)
        ≡ some (false, record report { status = status })
  unfolding find_report
  find_report-early status report first marker after h m = ground arith

  -- Without a marker the report is left as it was, and the result is true.
  find_report-none :
      (status : ℕ) (report : UrgDetectionReport p) (seen reports : List (UrgDetectionReport p))
      → NoMarker reports
      → find_report p status report seen reports ≡ some (true, report)
  unfolding find_report
  find_report-none status report seen [] h = refl
  find_report-none status report seen (r ∷ reports) h =
      if-false (r.area == 255) _ _ (ground arith)
      ∙ find_report-none status report (r ∷ seen) reports h.1
