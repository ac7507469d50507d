-- ===== src/Protocol/Layout.antt =====
-- The memory layout of the packed structs of
-- urg_node/include/uam/protocol_types/uam_protocol_types.h: `sizeof` and `offsetof`.
use urg_node.Prelude.{ℕ, zero, suc, ◌+◌, ◌*◌, List, [], ◌∷◌}
use urg_node.Codec.Field.{FieldType, width}

pub data Member : Type 0 where
  byte : Member
  field : FieldType → Member
  chars : ℕ → Member
  array : FieldType → ℕ → Member

abbrev pub Layout : Type 0
Layout = List Member

abbrev pub size_of_member : Member → ℕ
size_of_member byte = 1
size_of_member (field t) = width t
size_of_member (chars n) = n
size_of_member (array t n) = n * width t

-- `sizeof` of a struct under `#pragma pack(1)`.
abbrev pub size_of : Layout → ℕ
size_of [] = 0
size_of (m ∷ ms) = size_of_member m + size_of ms

-- `offsetof` of the member with the given number, counted from 0.
abbrev pub offset_of : Layout → ℕ → ℕ
offset_of [] i = 0
offset_of (m ∷ ms) zero = 0
offset_of (m ∷ ms) (suc i) = size_of_member m + offset_of ms i
