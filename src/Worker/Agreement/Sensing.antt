-- ===== src/Worker/Agreement/Sensing.antt =====
-- The sensing data of AR00 and AR01, decoded in both ways.
use urg_node.Prelude.{ℕ, ◌+◌, ◌%◌, ◌^◌, ◌<◌, ◌≡◌, refl, arith, Option, none, some, ◌>>=◌, length}
use urg_node.Codec.Bytes.{Bytes, IsBytes, read_uint}
use urg_node.Codec.Field.{boolean, u16, u32, u64, decode_field}
use urg_node.Protocol.Layout.{offset_of}
use urg_node.Protocol.Sensing.{sensing_data_layout, sensing_data_at}
use urg_node.Worker.Sensing.{decode_sensing_data, decode_sensing_data_at}
use urg_node.Worker.Agreement.Members.{member_at, counted_at}

-- A change of the second result of a chain, before the rest of it.
>>=-second {ℓ κ} :
    {A : Type ℓ} {B : Type κ} (m n : Option A) (g : A → A) (k : A → A → Option B)
    → (m >>= λ a. (n >>= λ b. some (g b)) >>= λ b. k a b) ≡ (m >>= λ a. n >>= λ b. k a (g b))
>>=-second none n g k = refl
>>=-second (some a) none g k = refl
>>=-second (some a) (some b) g k = refl

-- For sensing data at an offset in a buffer of bytes that is longer than the offset and 37 more,
-- the decoding of the text through the visitors and the decoding of the struct overlaid on the
-- buffer fill the struct with the same numbers, or both fail.
pub decode_sensing_data_at-struct :
    (bs : Bytes) (base : ℕ)
    → IsBytes bs
    → base + 37 < length bs
    → decode_sensing_data_at base bs (sensing_data_at bs base)
      ≡ decode_sensing_data (sensing_data_at bs base)
unfolding decode_sensing_data_at decode_sensing_data sensing_data_at
decode_sensing_data_at-struct bs base h fits =
    rw
      (
        member_at boolean bs base (offset_of sensing_data_layout 0) h (omega arith),
        member_at boolean bs base (offset_of sensing_data_layout 2) h (omega arith),
        member_at u16 bs base (offset_of sensing_data_layout 3) h (omega arith),
        member_at boolean bs base (offset_of sensing_data_layout 4) h (omega arith),
        member_at boolean bs base (offset_of sensing_data_layout 5) h (omega arith),
        member_at boolean bs base (offset_of sensing_data_layout 6) h (omega arith),
        member_at boolean bs base (offset_of sensing_data_layout 7) h (omega arith),
        member_at boolean bs base (offset_of sensing_data_layout 8) h (omega arith),
        member_at boolean bs base (offset_of sensing_data_layout 9) h (omega arith),
        member_at boolean bs base (offset_of sensing_data_layout 10) h (omega arith),
        member_at boolean bs base (offset_of sensing_data_layout 12) h (omega arith),
        member_at boolean bs base (offset_of sensing_data_layout 13) h (omega arith),
        member_at boolean bs base (offset_of sensing_data_layout 14) h (omega arith),
        member_at boolean bs base (offset_of sensing_data_layout 15) h (omega arith),
        member_at u32 bs base (offset_of sensing_data_layout 16) h (omega arith),
        member_at u64 bs base (offset_of sensing_data_layout 17) h (omega arith),
        member_at boolean bs base (offset_of sensing_data_layout 18) h (omega arith),
        member_at boolean bs base (offset_of sensing_data_layout 19) h (omega arith),
        counted_at bs base (offset_of sensing_data_layout 1) h (omega arith),
      )
      (>>=-second (decode_field boolean (read_uint bs (base + offset_of sensing_data_layout 0) 1))
        (decode_field u16 (read_uint bs (base + offset_of sensing_data_layout 1) 2))
        (λ v. (v + 1) % 2 ^ 16) _)
