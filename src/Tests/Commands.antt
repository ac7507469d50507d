-- ===== src/Tests/Commands.antt =====
-- Commands of urg_node/src/urg_c_wrapper.cpp to a scripted sensor, and a DL00 reply.
use urg_node.Prelude.{
  ℕ, zero, suc, ◌+◌, ◌%◌, ◌^◌, ◌≡◌, refl, arith, inr, true, false, some, List, [], ◌∷◌, ◌++◌,
  length, map, replicate,
}
use urg_node.Codec.Bytes.{Bytes}
use urg_node.Codec.Hex.{scan_hex, hex_value}
use urg_node.Codec.Stream.Laws.{IsHexText}
use urg_node.Worker.Crc.{Crc}
use urg_node.Urg.{UrgCWrapper, stop}
use urg_node.Urg.Command.{send_command, restarted}
use urg_node.Urg.Command.Reading.{last, part}
use urg_node.Urg.Command.Sending.{quiet, send_command-Delivers, send_command-IsBroken}
use urg_node.Urg.Detection.{UrgDetectionReport, decode_dl00}
use urg_node.Urg.Detection.LastReport.{latest, NoMarker}
use urg_node.Urg.Detection.ReportTexts.{
  ReportText, IsReportText, AreReportTexts, report_of, report_texts, report_text,
}
use urg_node.Urg.Detection.Reply.{
  Dl00Reply, IsDl00Reply, dl00_bytes, dl00_message, decode_dl00-IsMarker,
}
use urg_node.Tests.Platforms.{bench, wrapper, Script}

abbrev script : Script
script = some (2 ∷ b'0' ∷ b'0' ∷ b'0' ∷ b'7' ∷ []) ∷ some (b'A' ∷ []) ∷ some (b'B' ∷ []) ∷ []

abbrev running : UrgCWrapper bench
running = record (wrapper script) { started = true }

abbrev size : Bytes
size = b'0' ∷ b'0' ∷ b'0' ∷ b'7' ∷ []

size-IsHexText : IsHexText 4 size
unfolding hex_value
size-IsHexText = record {
  are_digits = ((0, refl), ((0, refl), ((0, refl), ((7, refl), tt))));
  some_digit = omega arith;
  few_digits = omega arith;
}

abbrev body : Bytes
body = b'A' ∷ b'B' ∷ []

size_number : scan_hex 0 size ≡ length body + 5
unfolding scan_hex hex_value
size_number = refl

wrote : bench.lib.socket_write (quiet bench running).urg body ≡ (some 2, script)
unfolding stop
wrote = refl

answer_example :
    send_command bench 10 (λ n. replicate n 0) body running
    ≡ some (restarted bench true (record (quiet bench running) { urg = [] }) (2 ∷ size ++ body))
answer_example =
    send_command-Delivers bench 10 (λ n. replicate n 0) body running 2 2 1 size body script
      (some (b'A' ∷ []) ∷ some (b'B' ∷ []) ∷ []) [] wrote refl refl size-IsHexText size_number
      (omega arith)
      (part (some (b'A' ∷ []) ∷ some (b'B' ∷ []) ∷ []) (some (b'B' ∷ []) ∷ []) [] b'A' []
        (b'B' ∷ []) 1 refl (last (some (b'B' ∷ []) ∷ []) [] b'B' [] refl))
      refl (omega arith)

-- The socket is at its end.
abbrev cut_off : UrgCWrapper bench
cut_off = record (wrapper []) { started = true }

cut_off_ended :
    (bench.lib.socket_read (bench.lib.socket_write (quiet bench cut_off).urg body).1 5).0 ≡ some []
unfolding stop
cut_off_ended = refl

broken_example :
    (w' : UrgCWrapper bench) × (send_command bench 1 (λ n. replicate n 0) body cut_off
      ≡ some (w', some []))
    × (w'.started ≡ false)
broken_example =
    send_command-IsBroken bench 1 (λ n. replicate n 0) body cut_off (inr cut_off_ended)
      (omega arith)

-- A checksum that counts bytes.
abbrev count_crc : Crc
count_crc = record { checksum = λ bs. length bs % 2 ^ 16; checksum_lt = λ bs. omega arith }

-- A report with its area and zeros.
abbrev text_of : ℕ → ℕ → ReportText
text_of high low = record {
  area = high ∷ low ∷ [];
  gap = replicate 2 b'0';
  distance = replicate 4 b'0';
  step = replicate 4 b'0';
  rest = replicate 52 b'0';
}

text_of-IsReportText :
    (high low a b : ℕ)
    → hex_value high ≡ some a
    → hex_value low ≡ some b
    → IsReportText (text_of high low)
unfolding hex_value
text_of-IsReportText high low a b e1 e2 =
    let zeros : IsHexText 4 (replicate 4 b'0') = record {
      are_digits = ((0, refl), ((0, refl), ((0, refl), ((0, refl), tt))));
      some_digit = omega arith;
      few_digits = omega arith;
    } in
    record {
      area_hex = record {
        are_digits = ((a, e1), ((b, e2), tt));
        some_digit = omega arith;
        few_digits = omega arith;
      };
      distance_hex = zeros;
      step_hex = zeros;
      area_size = refl;
      gap_size = refl;
      distance_size = refl;
      step_size = refl;
      rest_size = refl;
    }

abbrev area_1 : ReportText
area_1 = text_of b'0' b'1'

abbrev area_2 : ReportText
area_2 = text_of b'0' b'2'

abbrev marker : ReportText
marker = text_of b'F' b'F'

replicate-AreReportTexts :
    (n : ℕ) (t : ReportText) → IsReportText t → AreReportTexts (replicate n t)
replicate-AreReportTexts zero t h = tt
replicate-AreReportTexts (suc n) t h = (h, replicate-AreReportTexts n t h)

abbrev later : List ReportText
later = replicate 27 area_1

abbrev reply : Dl00Reply
reply = record {
  stx = 2;
  head = replicate 8 b'0';
  status = b'0' ∷ b'0' ∷ [];
  reports = area_1 ∷ area_2 ∷ marker ∷ later;
  checksum = b'0' ∷ b'7' ∷ b'8' ∷ b'A' ∷ [];
  etx = 3;
}

reply-IsDl00Reply : IsDl00Reply count_crc reply
unfolding hex_value scan_hex dl00_message report_texts report_text
reply-IsDl00Reply =
    let one = text_of-IsReportText b'0' b'1' 0 1 refl refl in
    let two = text_of-IsReportText b'0' b'2' 0 2 refl refl in
    let last_one = text_of-IsReportText b'F' b'F' 15 15 refl refl in
    record {
      head_size = refl;
      status_size = refl;
      status_hex = record {
        are_digits = ((0, refl), ((0, refl), tt));
        some_digit = omega arith;
        few_digits = omega arith;
      };
      status_zero = refl;
      count = refl;
      texts = (one, (two, (last_one, replicate-AreReportTexts 27 area_1 one)));
      checksum_size = refl;
      checksum_hex = record {
        are_digits = ((0, refl), ((7, refl), ((8, refl), ((10, refl), tt))));
        some_digit = omega arith;
        few_digits = omega arith;
      };
      checksum_eq = refl;
    }

abbrev none_yet : UrgDetectionReport bench
none_yet = report_of bench area_1

no_marker : NoMarker bench (report_of bench area_1 ∷ report_of bench area_2 ∷ [])
unfolding report_of scan_hex hex_value
no_marker = (λ e. omega arith, (λ e. omega arith, tt))

is_marker : (report_of bench marker).area ≡ 255
unfolding report_of scan_hex hex_value
is_marker = refl

detection_example :
    decode_dl00 bench count_crc 0 (dl00_bytes reply) none_yet
    ≡ some (true, latest bench 0 (report_of bench area_2))
detection_example =
    decode_dl00-IsMarker bench count_crc reply 0 none_yet (report_of bench area_1)
      (report_of bench area_2) (report_of bench marker) [] (map (report_of bench) later)
      reply-IsDl00Reply refl no_marker is_marker
