-- ===== src/Tests/Fields.antt =====
-- Fields of urg_node/include/uam/visitor.h, and the size of the packet buffer.
use urg_node.Prelude.{[], ◌∷◌}
use urg_node.Codec.Bytes.{Bytes}

abbrev text_01A0 : Bytes
text_01A0 = b'0' ∷ b'1' ∷ b'A' ∷ b'0' ∷ []

abbrev blanks : Bytes
blanks = 32 ∷ 32 ∷ []
