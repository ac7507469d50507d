-- ===== src/Worker/Agreement/Members.antt =====
-- One member of a struct, read through `decodeField(field)` of urg_node/include/uam/visitor.h and through
-- the visitors of urg_node/include/uam/uam_visitors.h.
use urg_node.Prelude.{ℕ, ◌+◌, ◌%◌, ◌^◌, ◌<◌, ◌≡◌, ap, ◌∙◌, arith, some, ◌>>=◌, length}
use urg_node.Codec.Bytes.{Bytes, IsBytes, read_uint}
use urg_node.Codec.Field.{FieldType, width, u16, decode_field, decode_at}
use urg_node.Codec.Laws.{decode_at-decode_field, decode_at-offset}

-- A member of a struct, in either way.
pub member_at :
    (t : FieldType) (bs : Bytes) (base offset : ℕ)
    → IsBytes bs
    → base + offset + width t < length bs
    → decode_at t bs (offset + base) 0 ≡ decode_field t (read_uint bs (base + offset) (width t))
member_at t bs base offset h fits =
    decode_at-decode_field t bs (offset + base) h (omega arith)
    ∙ ap (λ i. decode_field t (read_uint bs i (width t))) (omega arith)

-- The area number, to which the visitor adds 1.
pub counted_at :
    (bs : Bytes) (base offset : ℕ)
    → IsBytes bs
    → base + offset + 2 < length bs
    → decode_at u16 bs (offset + base) 1
      ≡ (decode_field u16 (read_uint bs (base + offset) 2) >>= λ v. some ((v + 1) % 2 ^ 16))
counted_at bs base offset h fits =
    decode_at-offset u16 bs (offset + base) 1 h (omega arith)
    ∙ ap (λ i. decode_field u16 (read_uint bs i 2) >>= λ v. some ((v + 1) % 2 ^ 16)) (omega arith)
