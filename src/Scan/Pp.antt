-- ===== src/Scan/Pp.antt =====
-- The PP command: `SCIPWorker` and `PPWorker` of urg_node/include/uam/workers/scip_worker.h, with what they
-- use of `std::stoi`. An exception is the outer `none` of a result.
pub mod Reading
use urg_node.Prelude.{
  ℕ, zero, suc, ◌+◌, ◌-◌, ◌*◌, ◌^◌, Bool, true, false, ◌&&◌, ◌||◌, Option, none, some, List, [],
  ◌∷◌, leb, ltb, ◌==◌, if◌then◌else◌, ◌>>=◌,
}
use urg_node.Prelude.Int.{ℤ, pos, negsuc, pos_part, neg_part}
use urg_node.Codec.Bytes.{Bytes}
use urg_node.Worker.Raw.{is_space}
use urg_node.Scan.{PpReply}

-- What follows the first `mark` of a text.
unfoldable pub after : ℕ → Bytes → Option Bytes
after mark [] = none
after mark (c ∷ cs) = let rest = after mark cs in if c == mark then some cs else rest

-- What comes before the first `mark` of a text, all of it if there is none.
unfoldable pub before : ℕ → Bytes → Bytes
before mark [] = []
before mark (c ∷ cs) = let rest = before mark cs in if c == mark then [] else c ∷ rest

-- `findSubstring` with its default delimiters, the only ones it is called with.
unfoldable pub find_substring : Bytes → Bytes
unfolding after before
find_substring input = elim (after b':' input) [ none ↦ [] | some rest ↦ before b';' rest ]

abbrev pub is_digit : ℕ → Bool
is_digit c = leb b'0' c && leb c b'9'

-- The digits that the text starts with, on top of what has been read.
unfoldable pub scan_decimal : ℕ → Bytes → ℕ
scan_decimal acc [] = acc
scan_decimal acc (c ∷ cs) =
    let more = scan_decimal (acc * 10 + (c - b'0')) cs in if is_digit c then more else acc

-- Text that starts with no digit has no number.
unfoldable pub unsigned_decimal : Bytes → Option ℕ
unfolding scan_decimal
unsigned_decimal [] = none
unsigned_decimal (c ∷ cs) = if is_digit c then some (scan_decimal 0 (c ∷ cs)) else none

-- `std::stoi` in base 10: white space, a sign and digits. It throws without a digit and where the
-- number is no `int`.
unfoldable pub stoi : Bytes → Option ℤ
unfolding unsigned_decimal
stoi [] = none
stoi (c ∷ cs) =
    let rest = stoi cs in
    if is_space c
    then rest
    else if c == b'-'
    then (unsigned_decimal cs >>= λ n. elim n [
      | zero ↦ some (pos 0)
      | suc m ↦ if ltb m (2 ^ 31) then some (negsuc m) else none
    ])
    else (unsigned_decimal (if c == b'+' then cs else c ∷ cs) >>= λ n.
        if ltb n (2 ^ 31) then some (pos n) else none)

-- `decodeField(field, value)`: whether there was a number, and the number.
unfoldable pub decode_pp_field : Bytes → Option (Option ℤ)
unfolding find_substring stoi
decode_pp_field field = elim (find_substring field) [
  | [] ↦ some none
  | c ∷ cs ↦ stoi (c ∷ cs) >>= λ n. some (some n)
]

-- `RawReply::at(index)`.
abbrev pub line_at : List Bytes → ℕ → Option Bytes
line_at [] index = none
line_at (line ∷ lines) zero = some line
line_at (line ∷ lines) (suc index) = line_at lines index

-- The fields from a list of lines on: the first that fails ends the decoding.
unfoldable pub decode_pp_fields : List Bytes → List ℕ → Option (Option (List ℤ))
unfolding decode_pp_field
decode_pp_fields raw_reply [] = some (some [])
decode_pp_fields raw_reply (index ∷ indices) = line_at raw_reply index >>= λ line.
    decode_pp_field line >>= λ field. elim field [
      | none ↦ some none
      | some value ↦ decode_pp_fields raw_reply indices >>= λ values. elim values [
        | none ↦ some none
        | some vs ↦ some (some (value ∷ vs))
      ]
    ]

-- `PPReplyLineIndex`, from MIN_DISTANCE to RPM.
abbrev pub field_lines : List ℕ
field_lines = 3 ∷ 4 ∷ 5 ∷ 6 ∷ 7 ∷ 8 ∷ 9 ∷ []

abbrev pub nr_lines : ℕ
nr_lines = 10

abbrev pub pp_reply_of : List ℤ → Option PpReply
pp_reply_of (min_d ∷ max_d ∷ resolution ∷ first ∷ last ∷ front ∷ rpm ∷ []) = some record {
  min_distance = min_d;
  max_distance = max_d;
  angular_resolution = resolution;
  first_step = first;
  last_step = last;
  front_data_step = front;
  rpm = rpm;
}
pp_reply_of values = none

-- `process(raw_reply)` with `PPWorker::decode`. The array always has its ten lines.
unfoldable pub decode_pp : List Bytes → Option (Option PpReply)
unfolding decode_pp_fields
decode_pp raw_reply = decode_pp_fields raw_reply field_lines >>= λ values. elim values [
  | none ↦ some none
  | some vs ↦ some (pp_reply_of vs)
]
