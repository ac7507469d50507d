-- ===== src/Worker/RawText.antt =====
-- `getRaw` of urg_node/include/uam/visitor.h, and what urg_node/src/uam/workers/id00_worker.cpp makes of its
-- result.
use urg_node.Prelude.{
  ℕ, ◌+◌, ◌-◌, ◌≡◌, refl, arith, Bool, true, false, Option, none, some, ◌>>=◌, [], ◌∷◌, leb, length,
  if◌then◌else◌,
}
use urg_node.Codec.Bytes.{Bytes}
use urg_node.Protocol.Header.{header_size, footer_size}
use urg_node.Protocol.Replies.{ConfigurationId, Id00CommandReply, id00_reply_size}
use urg_node.Worker.Base.{decode_header_and_footer_at}
use urg_node.Worker.Raw.{
  Visit, throws, returns, get_raw, decode_configuration_id_at, visited, decode_id00_buffer,
}

-- A visit that never returns `false`.
abbrev IsNeverFalse : {A : Type 0} → Visit A → Type 0
IsNeverFalse throws = Unit
IsNeverFalse (returns result field) = result ≡ true

next-IsNeverFalse :
    (rest : Visit Bytes) (c : ℕ) (b : Bool)
    → IsNeverFalse rest
    → IsNeverFalse (
        if b
        then elim rest [ throws ↦ throws | returns result field ↦ returns result (c ∷ field) ]
        else throws)
next-IsNeverFalse throws c true h = tt
next-IsNeverFalse (returns result field) c true h = h
next-IsNeverFalse rest c false h = tt

get_raw-IsNeverFalse :
    (buffer : Bytes) (index : ℕ) (old : Bytes) → IsNeverFalse (get_raw buffer index old)
unfolding get_raw
get_raw-IsNeverFalse buffer index [] = refl
get_raw-IsNeverFalse buffer index (c ∷ cs) =
    next-IsNeverFalse (get_raw buffer (index + 1) cs) _ (leb index (length buffer))
      (get_raw-IsNeverFalse buffer (index + 1) cs)

first_visit :
    (ids : ConfigurationId) (first : Visit Bytes) (other : Bytes → Visit ConfigurationId)
    → IsNeverFalse first
    → visited (elim first [
      | throws ↦ throws
      | returns true id ↦ returns false (record ids { id_1 = id })
      | returns false id ↦ other id
    ])
      ≡ none
first_visit ids throws other h = refl
first_visit ids (returns true id) other h = refl
first_visit ids (returns false id) other h = absurd (ground arith)

configuration_unread :
    (idx_offset : ℕ) (buffer : Bytes) (ids : ConfigurationId)
    → visited (decode_configuration_id_at idx_offset buffer ids) ≡ none
unfolding decode_configuration_id_at
configuration_unread idx_offset buffer ids =
    first_visit ids _ _ (get_raw-IsNeverFalse buffer _ ids.id_1)

bind-none :
    {A B : Type 0} (m : Option A) (k : A → Option B) → ((a : A) → k a ≡ none) → (m >>= k) ≡ none
bind-none none k h = refl
bind-none (some a) k h = h a

-- Decoding an ID00 reply from text never succeeds, for any buffer, offset and reply that it starts
-- from.
pub decode_id00_buffer-none :
    (idx_offset : ℕ) (reply : Id00CommandReply) (buffer : Bytes)
    → decode_id00_buffer idx_offset reply buffer ≡ none
unfolding decode_id00_buffer
decode_id00_buffer-none idx_offset reply buffer =
    let frame =
      decode_header_and_footer_at idx_offset (idx_offset + (id00_reply_size - footer_size)) buffer
        reply.header reply.footer in
    rw (configuration_unread (idx_offset + header_size) buffer reply.config_id)
      (bind-none frame (λ f. none) (λ f. refl))
