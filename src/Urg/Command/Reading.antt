-- ===== src/Urg/Command/Reading.antt =====
-- The loops of `sendCommand` in urg_node/src/urg_c_wrapper.cpp that read from the socket.
use urg_node.Prelude.{
  ℕ, zero, suc, ◌+◌, ◌-◌, ◌≤◌, ◌<◌, ◌≡◌, refl, arith, some, [], ◌∷◌, ◌++◌, length, drop, ap, ◌∙◌,
  sym, lt→ltb, le→ltb, length-append, length-drop, take-append, drop-append,
}
use mathlib.Core.List.{append_assoc, append-nil}
use urg_node.Codec.Bytes.{Bytes}
use urg_node.Urg.Library.{Platform}
use urg_node.Urg.Command.{overwrite, read_all}

overwrite-append :
    (n : ℕ) (got part old : Bytes)
    → length got ≡ n
    → overwrite n part (got ++ old) ≡ (got ++ part) ++ drop (length part) old
unfolding overwrite
overwrite-append n got part old e =
    rw (take-append n got old e, drop-append n (length part) (n + length part) got old e refl)
      (sym (append_assoc got part (drop (length part) old)))

drop-all : (n : ℕ) (xs : Bytes) → length xs ≤ n → drop n xs ≡ []
drop-all zero [] h = refl
drop-all zero (x ∷ xs) h = absurd (omega arith)
drop-all (suc n) [] h = refl
drop-all (suc n) (x ∷ xs) h = drop-all n xs (omega arith)

module _ (p : Platform) where
  -- The socket hands out bytes: each read brings some of those that are asked for, and at least one.
  -- The number is the length of the last part.
  pub data Delivers : p.lib.Sensor → Bytes → ℕ → p.lib.Sensor → Type 0 where
    last :
        (urg urg' : p.lib.Sensor) (b : ℕ) (bs : Bytes)
        → p.lib.socket_read urg (length (b ∷ bs)) ≡ (some (b ∷ bs), urg')
        → Delivers urg (b ∷ bs) (length (b ∷ bs)) urg'
    part :
        (urg urg1 urg' : p.lib.Sensor) (b : ℕ) (bs rest : Bytes) (n : ℕ)
        → p.lib.socket_read urg (length ((b ∷ bs) ++ rest)) ≡ (some (b ∷ bs), urg1)
        → Delivers urg1 rest n urg'
        → Delivers urg ((b ∷ bs) ++ rest) n urg'

  -- A read that brings bytes leaves the loop with the rest.
  read_all-suc :
      (fuel expected total read_len : ℕ) (buffer : Bytes) (b : ℕ) (bs : Bytes)
      (urg urg' : p.lib.Sensor)
      → total < expected
      → p.lib.socket_read urg (expected - total) ≡ (some (b ∷ bs), urg')
      → read_all p (suc fuel) expected buffer total read_len urg
        ≡ read_all p fuel expected
            (overwrite total (b ∷ bs) buffer)
            (total + length (b ∷ bs))
            (length (b ∷ bs))
            urg'
  unfolding read_all
  read_all-suc fuel expected total read_len buffer b bs urg urg' lt e =
      let read = p.lib.socket_read urg (expected - total) in
      let bytes : read.0 ≡ some (b ∷ bs) = ap (λ r. r.0) e in
      let after : read.1 ≡ urg' = ap (λ r. r.1) e in
      rw (read_all, lt→ltb total expected lt, bytes, after) refl

  read_all-full :
      (fuel expected read_len total : ℕ) (buffer : Bytes) (urg : p.lib.Sensor)
      → expected ≤ total
      → read_all p (suc fuel) expected buffer total read_len urg
        ≡ some (some (buffer, read_len), urg)
  unfolding read_all
  read_all-full fuel expected read_len total buffer urg h =
      rw (read_all, le→ltb total expected h) refl

  pub read_all-Delivers :
      (fuel expected total read_len n : ℕ) (got old rest : Bytes) (urg urg' : p.lib.Sensor)
      → Delivers urg rest n urg'
      → length got ≡ total
      → total + length rest ≡ expected
      → length rest < fuel
      → length old ≡ length rest
      → read_all p fuel expected (got ++ old) total read_len urg
        ≡ some (some (got ++ rest, n), urg')
  read_all-Delivers zero expected total read_len n got old rest urg urg' d e1 e2 h e3 =
      absurd (omega arith)
  read_all-Delivers (suc zero) expected total read_len n got old rest urg urg' (last _ _ b bs e) e1
        e2 h e3 =
      absurd (omega arith)
  read_all-Delivers (suc (suc fuel)) expected total read_len n got old rest urg urg'
        (last _ _ b bs e) e1 e2 h e3 =
      let asked : expected - total ≡ length (b ∷ bs) = omega arith in
      let read : p.lib.socket_read urg (expected - total) ≡ (some (b ∷ bs), urg') =
        ap (p.lib.socket_read urg) asked ∙ e in
      read_all-suc (suc fuel) expected total read_len (got ++ old) b bs urg urg' (omega arith) read
      ∙ read_all-full fuel expected (length (b ∷ bs)) (total + length (b ∷ bs)) _ urg' (omega arith)
      ∙ ap (λ buffer. some (some (buffer, length (b ∷ bs)), urg'))
          (overwrite-append total got (b ∷ bs) old e1
            ∙ ap (λ xs. (got ++ (b ∷ bs)) ++ xs) (drop-all (length (b ∷ bs)) old (omega arith))
            ∙ append-nil (got ++ (b ∷ bs)))
  read_all-Delivers (suc fuel) expected total read_len n got old rest urg urg'
        (part _ urg1 _ b bs more _ e d) e1 e2 h e3 =
      let whole : length ((b ∷ bs) ++ more) ≡ length (b ∷ bs) + length more =
        length-append (b ∷ bs) more in
      let asked : expected - total ≡ length ((b ∷ bs) ++ more) = omega arith in
      let read : p.lib.socket_read urg (expected - total) ≡ (some (b ∷ bs), urg1) =
        ap (p.lib.socket_read urg) asked ∙ e in
      let size = length (b ∷ bs) in
      read_all-suc fuel expected total read_len (got ++ old) b bs urg urg1 (omega arith) read
      ∙ ap (λ buffer. read_all p fuel expected buffer (total + size) size urg1)
          (overwrite-append total got (b ∷ bs) old e1)
      ∙ read_all-Delivers fuel expected (total + size) size n (got ++ (b ∷ bs)) (drop size old) more
          urg1 urg' d (omega (arith, length-append got (b ∷ bs))) (omega arith) (omega arith)
          (omega (arith, length-drop size old))
      ∙ ap (λ buffer. some (some (buffer, n), urg')) (append_assoc got (b ∷ bs) more)
