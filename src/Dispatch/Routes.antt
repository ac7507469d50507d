-- ===== src/Dispatch/Routes.antt =====
-- The chain of tests of `processByHandler(packet, time)` in
-- urg_node/src/uam/workers/uam_command_worker.cpp against a table of reply types.
use urg_node.Prelude.{
  ℕ, ◌≡◌, refl, sym, ◌∙◌, arith, Bool, true, false, ◌&&◌, ◌||◌, none, some, ◌==◌, if◌then◌else◌,
}
use urg_node.Protocol.Header.{CommandReplyHeader}
use urg_node.Protocol.Replies.{ar00_reply_size, ar01_reply_size, ar06_reply_size}
use urg_node.Worker.Base.{validate_reply_type, validate_command_header}
use urg_node.Worker.Kinds.{ar00_worker, ar01_worker, ar06_worker, xr00_worker, empty_reply_worker}
use urg_node.Worker.Raw.{vr00_worker, id00_worker}
use urg_node.Dispatch.{
  WorkerId, ar00, ar01, ar02, ar03, ar04, ar05, ar06, ar07, ar08, vr00, xr00, id00, yr, route,
  known_header,
}

-- The reply that a subscription delivers, which is told from its acknowledgement by the size alone.
abbrev pub delivered : WorkerId → ℕ → WorkerId
delivered ar02 n = if n == ar00_reply_size then ar00 else ar02
delivered ar04 n = if n == ar01_reply_size then ar01 else ar04
delivered ar07 n = if n == ar06_reply_size then ar06 else ar07
delivered worker n = worker

-- The type that a worker answers to: the YR worker does not look at the sub header.
abbrev pub HasType : WorkerId → ℕ × ℕ → ℕ × ℕ → Type 0
HasType ar00 h s = (h ≡ (b'A', b'R')) × (s ≡ (b'0', b'0'))
HasType ar01 h s = (h ≡ (b'A', b'R')) × (s ≡ (b'0', b'1'))
HasType ar02 h s = (h ≡ (b'A', b'R')) × (s ≡ (b'0', b'2'))
HasType ar03 h s = (h ≡ (b'A', b'R')) × (s ≡ (b'0', b'3'))
HasType ar04 h s = (h ≡ (b'A', b'R')) × (s ≡ (b'0', b'4'))
HasType ar05 h s = (h ≡ (b'A', b'R')) × (s ≡ (b'0', b'5'))
HasType ar06 h s = (h ≡ (b'A', b'R')) × (s ≡ (b'0', b'6'))
HasType ar07 h s = (h ≡ (b'A', b'R')) × (s ≡ (b'0', b'7'))
HasType ar08 h s = (h ≡ (b'A', b'R')) × (s ≡ (b'0', b'8'))
HasType vr00 h s = (h ≡ (b'V', b'R')) × (s ≡ (b'0', b'0'))
HasType xr00 h s = (h ≡ (b'X', b'R')) × (s ≡ (b'0', b'0'))
HasType id00 h s = (h ≡ (b'I', b'D')) × (s ≡ (b'0', b'0'))
HasType yr h s = h ≡ (b'Y', b'R')

some_if : (b : Bool) (x y : WorkerId) → (if b then some x else some y) ≡ some (if b then x else y)
some_if true x y = refl
some_if false x y = refl

-- A reply whose header and sub header are those of a worker is sent to that worker, except that one
-- of AR02, AR04 or AR07 with the size of an AR00, AR01 or AR06 reply is sent to the worker of that
-- reply.
pub route-HasType :
    (worker : WorkerId) (h : CommandReplyHeader) (n : ℕ)
    → HasType worker h.header h.sub_header
    → route h n ≡ some (delivered worker n)
unfolding route validate_reply_type ar00_worker ar01_worker ar06_worker xr00_worker vr00_worker
    id00_worker empty_reply_worker
route-HasType ar00 h n (e, s) = rw (e, s) refl
route-HasType ar01 h n (e, s) = rw (e, s) refl
route-HasType ar02 h n (e, s) = rw (e, s) (some_if (n == ar00_reply_size) ar00 ar02)
route-HasType ar03 h n (e, s) = rw (e, s) refl
route-HasType ar04 h n (e, s) = rw (e, s) (some_if (n == ar01_reply_size) ar01 ar04)
route-HasType ar05 h n (e, s) = rw (e, s) refl
route-HasType ar06 h n (e, s) = rw (e, s) refl
route-HasType ar07 h n (e, s) = rw (e, s) (some_if (n == ar06_reply_size) ar06 ar07)
route-HasType ar08 h n (e, s) = rw (e, s) refl
route-HasType vr00 h n (e, s) = rw (e, s) refl
route-HasType xr00 h n (e, s) = rw (e, s) refl
route-HasType id00 h n (e, s) = rw (e, s) refl
route-HasType yr h n e = rw e refl

abbrev is_char_pair : ℕ → ℕ → CommandReplyHeader → Bool
is_char_pair a b h = h.header.0 == a && h.header.1 == b

route-unknown :
    (h : CommandReplyHeader) (n : ℕ)
    → is_char_pair b'A' b'R' h ≡ false
    → is_char_pair b'V' b'R' h ≡ false
    → is_char_pair b'X' b'R' h ≡ false
    → is_char_pair b'I' b'D' h ≡ false
    → is_char_pair b'Y' b'R' h ≡ false
    → route h n ≡ none
unfolding route validate_reply_type ar00_worker ar01_worker ar06_worker xr00_worker vr00_worker
    id00_worker empty_reply_worker
route-unknown h n ea ev ex ei ey = rw (ea, ev, ex, ei, ey) refl

all_false :
    (a b c d e : Bool)
    → (a || b || c || d || e) ≡ false
    → (a ≡ false) × (b ≡ false) × (c ≡ false) × (d ≡ false) × (e ≡ false)
all_false true b c d e h = absurd (ground arith)
all_false false true c d e h = absurd (ground arith)
all_false false false true d e h = absurd (ground arith)
all_false false false false true e h = absurd (ground arith)
all_false false false false false e h = (refl, refl, refl, refl, h)

any_true :
    (a b c d e : Bool)
    → (a || a || a || a || a || a || a || a || a || b || c || d || e) ≡ (a || b || c || d || e)
any_true true b c d e = refl
any_true false b c d e = refl

known_header-pairs :
    (h : CommandReplyHeader)
    → known_header h.header ≡ (
        is_char_pair b'A' b'R' h
        || is_char_pair b'V' b'R' h
        || is_char_pair b'X' b'R' h
        || is_char_pair b'I' b'D' h
        || is_char_pair b'Y' b'R' h)
unfolding known_header validate_command_header ar00_worker ar01_worker ar06_worker xr00_worker
    vr00_worker id00_worker empty_reply_worker
known_header-pairs h =
    any_true (is_char_pair b'A' b'R' h) (is_char_pair b'V' b'R' h) (is_char_pair b'X' b'R' h)
      (is_char_pair b'I' b'D' h) (is_char_pair b'Y' b'R' h)

-- A reply whose header the filter `validateCommandHeader` of the packet worker refuses is sent to
-- no worker.
pub known_header-route :
    (h : CommandReplyHeader) (n : ℕ) → known_header h.header ≡ false → route h n ≡ none
known_header-route h n unknown =
    let (ea, ev, ex, ei, ey) =
      all_false (is_char_pair b'A' b'R' h) (is_char_pair b'V' b'R' h) (is_char_pair b'X' b'R' h)
        (is_char_pair b'I' b'D' h) (is_char_pair b'Y' b'R' h)
        (sym (known_header-pairs h) ∙ unknown) in
    route-unknown h n ea ev ex ei ey
