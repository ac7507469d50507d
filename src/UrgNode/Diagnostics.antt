-- ===== src/UrgNode/Diagnostics.antt =====
-- `populateDiagnosticsStatus` and `sensorStatusOk` of urg_node/src/urg_node_driver.cpp, up to the texts.
use urg_node.Prelude.{
  ℕ, ◌≡◌, ◌↔◌, refl, ap, ◌∙◌, arith, Bool, true, not, ◌||◌, Option, none, some, [], ◌∷◌, ◌==◌, ◌⊎◌,
  inl, inr, ==_iff, if◌then◌else◌,
}
use urg_node.Codec.Bytes.{Bytes}
use urg_node.Urg.Library.{Platform}
use urg_node.Urg.{UrgCWrapper, equal_bytes}
use urg_node.UrgNode.{UrgNode, on_sensor}

-- "Sensor works well.", "Stable 000 no error." and "sensor is working normally".
abbrev pub works_well : Bytes
works_well =
    b'S' ∷ b'e' ∷ b'n' ∷ b's' ∷ b'o' ∷ b'r' ∷ b' ' ∷ b'w' ∷ b'o' ∷ b'r' ∷ b'k' ∷ b's' ∷ b' ' ∷ b'w'
    ∷ b'e' ∷ b'l' ∷ b'l' ∷ b'.' ∷ []

abbrev pub stable_no_error : Bytes
stable_no_error =
    b'S' ∷ b't' ∷ b'a' ∷ b'b' ∷ b'l' ∷ b'e' ∷ b' ' ∷ b'0' ∷ b'0' ∷ b'0' ∷ b' ' ∷ b'n' ∷ b'o' ∷ b' '
    ∷ b'e' ∷ b'r' ∷ b'r' ∷ b'o' ∷ b'r' ∷ b'.' ∷ []

abbrev pub working_normally : Bytes
working_normally =
    b's' ∷ b'e' ∷ b'n' ∷ b's' ∷ b'o' ∷ b'r' ∷ b' ' ∷ b'i' ∷ b's' ∷ b' ' ∷ b'w' ∷ b'o' ∷ b'r' ∷ b'k'
    ∷ b'i' ∷ b'n' ∷ b'g' ∷ b' ' ∷ b'n' ∷ b'o' ∷ b'r' ∷ b'm' ∷ b'a' ∷ b'l' ∷ b'l' ∷ b'y' ∷ []

-- The summary of the diagnostics, of which only the last one is of the level OK.
pub data Summary : Type 0 where
  not_connected : Summary
  not_started abnormal_status : Bytes → Summary
  reporting_error : ℕ → Summary
  locked_out in_order : Summary

module _ (p : Platform) where
  unfoldable pub sensor_status_ok : Bytes → Bool
  sensor_status_ok status =
      equal_bytes p status works_well
      || equal_bytes p status stable_no_error
      || equal_bytes p status working_normally

  -- The chain of tests, on a sensor.
  unfoldable pub summary_of : UrgNode p → UrgCWrapper p → Summary
  unfolding sensor_status_ok
  summary_of node w =
      if not w.started
      then not_started node.status_str
      else if not (sensor_status_ok node.status_str)
      then abnormal_status node.status_str
      else if not (node.detailed_status.error_code == 0)
      then reporting_error node.detailed_status.error_code
      else if not (node.detailed_status.lockout_state == 0)
      then locked_out
      else in_order

  -- `populateDiagnosticsStatus(stat)`.
  unfoldable pub populate_diagnostics_status : UrgNode p → Summary
  unfolding summary_of
  populate_diagnostics_status node = on_sensor not_connected node.urg (summary_of node)

  -- The text is one of the three that a sensor without an error answers.
  abbrev pub IsGood : Bytes → Type 0
  IsGood status = (status ≡ works_well) ⊎ (status ≡ stable_no_error) ⊎ (status ≡ working_normally)

  equal_bytes_iff : (xs ys : Bytes) → (equal_bytes p xs ys ≡ true) ↔ (xs ≡ ys)
  equal_bytes_iff [] [] = (λ _. refl, λ _. refl)
  equal_bytes_iff [] (y ∷ ys) = (λ e. cc, λ e. cc)
  equal_bytes_iff (x ∷ xs) [] = (λ e. cc, λ e. cc)
  equal_bytes_iff (x ∷ xs) (y ∷ ys) =
      let (to, from) = equal_bytes_iff xs ys in
      let (same, of_same) = ==_iff x y in (λ e. ground (arith), λ e. ground (arith))

  or_cases : (a b c : Bool) → (a || b || c) ≡ true → (a ≡ true) ⊎ (b ≡ true) ⊎ (c ≡ true)
  or_cases a b c e = ground arith

  or_true : (a b c : Bool) → (a ≡ true) ⊎ (b ≡ true) ⊎ (c ≡ true) → (a || b || c) ≡ true
  or_true a b c e = ground arith

  sensor_status_ok_iff : (status : Bytes) → (sensor_status_ok status ≡ true) ↔ IsGood status
  unfolding sensor_status_ok
  sensor_status_ok_iff status = (
    λ h. elim (or_cases _ _ _ h) [
      | inl e ↦ inl ((equal_bytes_iff status works_well).0 e)
      | inr (inl e) ↦ inr (inl ((equal_bytes_iff status stable_no_error).0 e))
      | inr (inr e) ↦ inr (inr ((equal_bytes_iff status working_normally).0 e))
    ],
    λ h. or_true _ _ _ (elim h [
      | inl e ↦ inl ((equal_bytes_iff status works_well).1 e)
      | inr (inl e) ↦ inr (inl ((equal_bytes_iff status stable_no_error).1 e))
      | inr (inr e) ↦ inr (inr ((equal_bytes_iff status working_normally).1 e))
    ]),
  )

  -- The node has a started sensor whose status is in order, without an error, and not locked out.
  pub record IsInOrder (node : UrgNode p) : Type 0 where
    pub sensor : UrgCWrapper p
    pub connected : node.urg ≡ some sensor
    pub running : sensor.started ≡ true
    pub status_ok : IsGood node.status_str
    pub no_error : node.detailed_status.error_code ≡ 0
    pub not_locked : node.detailed_status.lockout_state ≡ 0

  summary_of-in_order :
      (node : UrgNode p) (w : UrgCWrapper p)
      → summary_of node w ≡ in_order
      → (w.started ≡ true)
        × (sensor_status_ok node.status_str ≡ true)
        × (node.detailed_status.error_code ≡ 0)
        × (node.detailed_status.lockout_state ≡ 0)
  unfolding summary_of
  summary_of-in_order node w h = ground arith

  in_order-summary_of :
      (node : UrgNode p) (w : UrgCWrapper p)
      → w.started ≡ true
      → sensor_status_ok node.status_str ≡ true
      → node.detailed_status.error_code ≡ 0
      → node.detailed_status.lockout_state ≡ 0
      → summary_of node w ≡ in_order
  unfolding summary_of
  in_order-summary_of node w h1 h2 h3 h4 = ground arith

  from_sensor :
      (node : UrgNode p) (o : Option (UrgCWrapper p))
      → node.urg ≡ o
      → on_sensor not_connected o (summary_of node) ≡ in_order
      → IsInOrder node
  from_sensor node none e h = absurd (ground arith)
  from_sensor node (some w) e h =
      let (running, status_ok, no_error, not_locked) = summary_of-in_order node w h in
      record {
        sensor = w;
        connected = e;
        running = running;
        status_ok = (sensor_status_ok_iff node.status_str).0 status_ok;
        no_error = no_error;
        not_locked = not_locked;
      }

  -- The summary of the diagnostics is that all is in order just when there is a sensor that is
  -- started, the text of its status is "Sensor works well.", "Stable 000 no error." or "sensor is
  -- working normally", its error code is 0 and it is not locked out.
  pub populate_diagnostics_status-IsInOrder :
      (node : UrgNode p) → (populate_diagnostics_status node ≡ in_order) ↔ IsInOrder node
  unfolding populate_diagnostics_status
  populate_diagnostics_status-IsInOrder node = (
    from_sensor node node.urg refl,
    λ h.
        ap (λ o. on_sensor not_connected o (summary_of node)) h.connected
        ∙ in_order-summary_of node h.sensor h.running
            ((sensor_status_ok_iff node.status_str).1 h.status_ok) h.no_error h.not_locked,
  )
