-- ===== src/Urg/Command/Sending.antt =====
-- `sendCommand` of urg_node/src/urg_c_wrapper.cpp as a whole.
use urg_node.Prelude.{
  ℕ, zero, suc, ◌+◌, ◌-◌, ◌%◌, ◌^◌, ◌≤◌, ◌<◌, ◌≡◌, ◌⊎◌, inl, inr, refl, arith, false, Bool, some,
  none, [], ◌∷◌, ◌++◌, ltb, length, take, replicate, ap, ◌∙◌, le→ltb, Option-cases, if◌then◌else◌,
  take-all,
}
use urg_node.Codec.Bytes.{Bytes}
use urg_node.Codec.Hex.{scan_hex}
use urg_node.Codec.Stream.{extract_hex}
use urg_node.Codec.Stream.Laws.{IsHexText, extract_hex-wide}
use urg_node.Urg.Library.{Platform}
use urg_node.Urg.{UrgCWrapper, stop}
use urg_node.Urg.Command.{read_all, rest_size, restarted, receive_rest, receive, send_command}
use urg_node.Urg.Command.Reading.{Delivers, last, read_all-Delivers}

-- A header announces the length of the rest with five more in its digits.
rest_size-IsHexText :
    (stx n : ℕ) (size : Bytes)
    → IsHexText 4 size
    → scan_hex 0 size ≡ n + 5
    → n ≤ 10_000
    → rest_size (stx ∷ size) ≡ some n
unfolding rest_size
rest_size-IsHexText stx n size hex e few =
    let text : take 4 size ≡ size = take-all 4 size hex.few_digits in
    let number : extract_hex (2 ^ 64) 5 size ≡ (scan_hex 0 size, []) =
      extract_hex-wide (2 ^ 64) 5 size (omega arith) hex in
    let rest : (n + 5 + (2 ^ 32 - 5)) % 2 ^ 32 ≡ n = omega arith in
    rw (text, number, e, rest, le→ltb 10_000 n few) refl

module _ (p : Platform) where
  abbrev pub quiet : UrgCWrapper p → UrgCWrapper p
  quiet w = if w.started then stop p w else w

  send_command-receive :
      (fuel : ℕ) (fresh : ℕ → Bytes) (cmd : Bytes) (w : UrgCWrapper p) (sent : ℕ)
      (urg : p.lib.Sensor)
      → p.lib.socket_write (quiet w).urg cmd ≡ (some sent, urg)
      → send_command p fuel fresh cmd w
        ≡ receive p fuel fresh w.started (record (quiet w) { urg = urg })
  unfolding send_command
  send_command-receive fuel fresh cmd w sent urg wrote =
      let write = p.lib.socket_write (quiet w).urg cmd in
      let e0 : write.0 ≡ some sent = ap (λ r. r.0) wrote in
      let e1 : write.1 ≡ urg = ap (λ r. r.1) wrote in rw (send_command, e0, e1) refl

  receive-receive_rest :
      (fuel : ℕ) (fresh : ℕ → Bytes) (restart : Bool) (w : UrgCWrapper p) (stx : ℕ) (size : Bytes)
      (urg : p.lib.Sensor)
      → length size ≡ 4
      → p.lib.socket_read w.urg 5 ≡ (some (stx ∷ size), urg)
      → 6 ≤ fuel
      → receive p fuel fresh restart w
        ≡ receive_rest p fuel fresh restart (record w { urg = urg }) (stx ∷ size)
  unfolding receive
  receive-receive_rest fuel fresh restart w stx size urg four read enough =
      let header = stx ∷ size in
      let n = length header in
      let five : n ≡ 5 = omega arith in
      let asked : p.lib.socket_read w.urg n ≡ (some header, urg) =
        ap (p.lib.socket_read w.urg) five ∙ read in
      let loop : read_all p fuel 5 (replicate 5 0) 0 0 w.urg ≡ some (some (header, n), urg) =
        read_all-Delivers p fuel 5 0 0 n [] (replicate 5 0) header w.urg urg
          (last w.urg urg stx size asked) refl (omega arith) (omega arith) (omega arith) in
      let fits : ltb 5 n ≡ false = le→ltb 5 n (omega arith) in
      let whole : take n header ≡ header = take-all n header (omega arith) in
      rw (receive, loop, fits, whole) refl

  receive_rest-Delivers :
      (fuel : ℕ) (fresh : ℕ → Bytes) (restart : Bool) (w : UrgCWrapper p) (header body : Bytes)
      (n : ℕ) (urg : p.lib.Sensor)
      → rest_size header ≡ some (length body)
      → Delivers p w.urg body n urg
      → length (fresh (length body)) ≡ length body
      → length body < fuel
      → receive_rest p fuel fresh restart w header
        ≡ some (restarted p restart (record w { urg = urg }) (header ++ body))
  unfolding receive_rest
  receive_rest-Delivers fuel fresh restart w header body n urg size d new enough =
      let loop =
        read_all-Delivers p fuel (length body) 0 0 n [] (fresh (length body)) body w.urg urg d refl
          (omega arith) enough new in
      rw (receive_rest, size, loop) refl

  -- The socket fails a command: it takes no bytes, or it ends before the first byte of the reply.
  abbrev pub IsBroken : Bytes → UrgCWrapper p → Type 0
  IsBroken cmd w =
      let (sent, urg) = p.lib.socket_write (quiet w).urg cmd in
      (sent ≡ none) ⊎ ((p.lib.socket_read urg 5).0 ≡ some [])

  quiet-started : (w : UrgCWrapper p) → (quiet w).started ≡ false
  unfolding stop
  quiet-started w = ground arith

  -- If the socket takes a command, brings the five bytes of the header in one read with the size
  -- in its last four as digits, and then brings the body of that size less 5, from 1 to 10000
  -- bytes, in any parts of at least one byte, then `sendCommand` ends, each of its loops within
  -- as many rounds as the body has bytes and 6 more, with the header and the body as the
  -- response, or with the exception of `start()` where the scan was running and cannot be started
  -- again.
  pub send_command-Delivers :
      (fuel : ℕ) (fresh : ℕ → Bytes) (cmd : Bytes) (w : UrgCWrapper p) (sent stx n : ℕ)
      (size body : Bytes) (urg0 urg1 urg2 : p.lib.Sensor)
      → p.lib.socket_write (quiet w).urg cmd ≡ (some sent, urg0)
      → p.lib.socket_read urg0 5 ≡ (some (stx ∷ size), urg1)
      → length size ≡ 4
      → IsHexText 4 size
      → scan_hex 0 size ≡ length body + 5
      → length body ≤ 10_000
      → Delivers p urg1 body n urg2
      → length (fresh (length body)) ≡ length body
      → length body + 6 ≤ fuel
      → send_command p fuel fresh cmd w
        ≡ some (restarted p w.started (record (quiet w) { urg = urg2 }) (stx ∷ size ++ body))
  send_command-Delivers fuel fresh cmd w sent stx n size body urg0 urg1 urg2 wrote read four hex
        number few d new enough =
      let w0 = record (quiet w) { urg = urg0 } in
      let w1 = record (quiet w) { urg = urg1 } in
      send_command-receive fuel fresh cmd w sent urg0 wrote
      ∙ receive-receive_rest fuel fresh w.started w0 stx size urg1 four read (omega arith)
      ∙ receive_rest-Delivers fuel fresh w.started w1 (stx ∷ size) body n urg2
          (rest_size-IsHexText stx (length body) size hex number few) d new (omega arith)

  send_command-unsent :
      (fuel : ℕ) (fresh : ℕ → Bytes) (cmd : Bytes) (w : UrgCWrapper p)
      → (p.lib.socket_write (quiet w).urg cmd).0 ≡ none
      → send_command p fuel fresh cmd w
        ≡ some (record (quiet w) { urg = (p.lib.socket_write (quiet w).urg cmd).1 }, some [])
  unfolding send_command
  send_command-unsent fuel fresh cmd w e = rw (send_command, e) refl

  receive-ended :
      (fuel : ℕ) (fresh : ℕ → Bytes) (restart : Bool) (w : UrgCWrapper p)
      → (p.lib.socket_read w.urg 5).0 ≡ some []
      → receive p (suc fuel) fresh restart w
        ≡ some (record w { urg = (p.lib.socket_read w.urg 5).1 }, some [])
  unfolding receive read_all
  receive-ended fuel fresh restart w e = rw (receive, read_all, e) refl

  -- If the socket takes no bytes of a command or is at its end before the reply, `sendCommand`
  -- gives an empty response and leaves the scan stopped, whether or not it was running.
  pub send_command-IsBroken :
      (fuel : ℕ) (fresh : ℕ → Bytes) (cmd : Bytes) (w : UrgCWrapper p)
      → IsBroken cmd w
      → 0 < fuel
      → (w' : UrgCWrapper p) × (send_command p fuel fresh cmd w ≡ some (w', some []))
        × (w'.started ≡ false)
  send_command-IsBroken zero fresh cmd w broken h = absurd (omega arith)
  send_command-IsBroken (suc fuel) fresh cmd w (inl e) h =
      (_, send_command-unsent (suc fuel) fresh cmd w e, quiet-started w)
  send_command-IsBroken (suc fuel) fresh cmd w (inr e) h =
      let (sent, urg) = p.lib.socket_write (quiet w).urg cmd in
      elim (Option-cases sent) [
        | inl unsent ↦ (_, send_command-unsent (suc fuel) fresh cmd w unsent, quiet-started w)
        | inr (n, wrote) ↦ (
          _,
          send_command-receive (suc fuel) fresh cmd w n urg (ap (λ s. (s, urg)) wrote)
              ∙ receive-ended fuel fresh w.started (record (quiet w) { urg = urg }) e,
          quiet-started w,
        )
      ]
