-- ===== src/Node/Status/Waiting.antt =====
-- How long `statusCallback` of urg_node/src/uam/uam_driver_ros.cpp waits, and for what.
use urg_node.Prelude.{
  ℕ, zero, suc, ◌+◌, ◌≤◌, ◌<◌, ◌≡◌, refl, ◌∙◌, ap, arith, Bool, true, false, not, ◌&&◌, if-holds,
  if-true, if-false, subst, sym, ◌⊎◌, inl, inr, ltb, lt→ltb, le→ltb,
}
use urg_node.Node.{UamRos}
use urg_node.Node.Library.{NodePlatform}
use urg_node.Node.Status.{wait_for_status, status_callback, half_scan_cycles_timeout}

lt_or_le : (m n : ℕ) → (m < n) ⊎ (n ≤ m)
lt_or_le m n = omega arith

and_false : (a b : Bool) → b ≡ false → (a && b) ≡ false
and_false a b h = ground arith

and_true : (a b : Bool) → a ≡ true → b ≡ true → (a && b) ≡ true
and_true a b h1 h2 = ground arith

module _ (p : NodePlatform) (handled : ℕ → UamRos p → UamRos p) (ros_ok : ℕ → Bool) where
  -- The wait ends after the half cycles that are left.
  pub wait_for_status-bound :
      (node : UamRos p) (left waited : ℕ)
      → let cycles = (wait_for_status p handled ros_ok node left waited).1 in
        (waited ≤ cycles) × (cycles ≤ waited + left)
  unfolding wait_for_status
  wait_for_status-bound node zero waited = omega arith
  wait_for_status-bound node (suc left) waited =
      let rest = wait_for_status-bound (handled waited node) left (suc waited) in
      let P : UamRos p × ℕ → Type 0 = λ r. (waited ≤ r.1) × (r.1 ≤ waited + suc left) in
      if-holds P (ros_ok waited && node.publish_status_requested) _ (node, waited) (omega arith)
        (omega arith)

  wait_for_status-done :
      (node : UamRos p) (left waited : ℕ)
      → node.publish_status_requested ≡ false
      → wait_for_status p handled ros_ok node left waited ≡ (node, waited)
  unfolding wait_for_status
  wait_for_status-done node zero waited h = refl
  wait_for_status-done node (suc left) waited h = if-false _ _ _ (and_false (ros_ok waited) _ h)

  wait_for_status-step :
      (node : UamRos p) (left waited : ℕ)
      → ros_ok waited ≡ true
      → (wait_for_status p handled ros_ok
          (handled waited node)
          left
          (suc waited)).0.publish_status_requested
        ≡ false
      → (wait_for_status p handled ros_ok node (suc left) waited).0.publish_status_requested ≡ false
  unfolding wait_for_status
  wait_for_status-step node left waited ok h = waiting node.publish_status_requested refl
    where
      waiting :
          (b : Bool)
          → node.publish_status_requested ≡ b
          → (wait_for_status p handled ros_ok node (suc left) waited).0.publish_status_requested
            ≡ false
      waiting true e =
          ap (λ (r : UamRos p × ℕ). r.0.publish_status_requested)
            (if-true (ros_ok waited && node.publish_status_requested) _ (node, waited)
              (and_true _ _ ok e))
          ∙ h
      waiting false e =
          ap (λ (r : UamRos p × ℕ). r.0.publish_status_requested)
            (wait_for_status-done node (suc left) waited e)
          ∙ e

  -- A request that is served in one of the half cycles is not pending when the wait ends.
  wait_for_status-served :
      (node : UamRos p) (left waited k : ℕ)
      → k < left
      → ((n : UamRos p) → (handled (waited + k) n).publish_status_requested ≡ false)
      → ((i : ℕ) → ros_ok i ≡ true)
      → (wait_for_status p handled ros_ok node left waited).0.publish_status_requested ≡ false
  wait_for_status-served node zero waited k h serves ok = absurd (omega arith)
  wait_for_status-served node (suc left) waited zero h serves ok =
      let e : waited + 0 ≡ waited = omega arith in
      let cleared =
        subst (λ i. (handled i node).publish_status_requested ≡ false) e (serves node) in
      wait_for_status-step node left waited (ok waited) (
        ap (λ (r : UamRos p × ℕ). r.0.publish_status_requested)
          (wait_for_status-done (handled waited node) left (suc waited) cleared)
        ∙ cleared)
  wait_for_status-served node (suc left) waited (suc k) h serves ok =
      let e : waited + suc k ≡ suc waited + k = omega arith in
      let serves' =
        subst (λ i. (n : UamRos p) → (handled i n).publish_status_requested ≡ false) e serves in
      wait_for_status-step node left waited (ok waited)
        (wait_for_status-served (handled waited node) left (suc waited) k (omega arith) serves' ok)

  -- A request that nothing clears in the half cycles that are left is still pending after them.
  wait_for_status-unserved :
      (node : UamRos p) (left waited : ℕ)
      → ((i : ℕ) (n : UamRos p)
          → i < waited + left
          → n.publish_status_requested ≡ true
          → (handled i n).publish_status_requested ≡ true)
      → node.publish_status_requested ≡ true
      → (wait_for_status p handled ros_ok node left waited).0.publish_status_requested ≡ true
  unfolding wait_for_status
  wait_for_status-unserved node zero waited idle h = h
  wait_for_status-unserved node (suc left) waited idle h =
      if-holds (λ (r : UamRos p × ℕ). r.0.publish_status_requested ≡ true)
        (ros_ok waited && node.publish_status_requested) _ (node, waited)
        (wait_for_status-unserved (handled waited node) left (suc waited)
          (λ i n below. idle i n (omega arith)) (idle waited node (omega arith) h))
        h

  status_callback-configured :
      (node : UamRos p)
      → node.configured ≡ true
      → (k : ℕ) → k < 4
      → ((i : ℕ) → ros_ok i ≡ true)
      → ((n : UamRos p) → (handled k n).publish_status_requested ≡ false)
      → (status_callback p handled ros_ok node).1 ≡ true
  unfolding status_callback
  status_callback-configured node configured k h ok serves =
      let asked = record node { publish_status_requested = true } in
      ap (λ (r : UamRos p × Bool). r.1) (if-false _ _ _ (ap not configured))
      ∙ ap not (
          wait_for_status-served asked half_scan_cycles_timeout 0 k h
            (subst (λ i. (n : UamRos p) → (handled i n).publish_status_requested ≡ false)
              (omega arith) serves)
            ok)

  status_callback-unserved :
      (node : UamRos p)
      → ((i : ℕ) (n : UamRos p)
          → i < 4
          → n.publish_status_requested ≡ true
          → (handled i n).publish_status_requested ≡ true)
      → (status_callback p handled ros_ok node).1 ≡ false
  unfolding status_callback
  status_callback-unserved node idle =
      let asked = record node { publish_status_requested = true } in
      if-holds (λ (r : UamRos p × Bool). r.1 ≡ false) (not node.configured) (node, false) _ refl
        (ap not (wait_for_status-unserved asked half_scan_cycles_timeout 0 idle refl))

  -- On a configured node, while ROS runs, if what the receiver does in the half cycles before the
  -- k-th, counted from 0, leaves a pending request for a status pending and what it does in the
  -- k-th one clears it, `statusCallback` reports success just when k is below 4.
  pub status_callback-served :
      (node : UamRos p) (k : ℕ)
      → node.configured ≡ true
      → ((i : ℕ) → ros_ok i ≡ true)
      → ((i : ℕ) (n : UamRos p)
          → i < k
          → n.publish_status_requested ≡ true
          → (handled i n).publish_status_requested ≡ true)
      → ((n : UamRos p) → (handled k n).publish_status_requested ≡ false)
      → (status_callback p handled ros_ok node).1 ≡ ltb k 4
  status_callback-served node k configured ok idle serves = elim (lt_or_le k 4) [
    | inl soon ↦ status_callback-configured node configured k soon ok serves ∙ sym (lt→ltb k 4 soon)
    | inr late ↦
        status_callback-unserved node (λ i n below. idle i n (omega arith)) ∙ sym (le→ltb k 4 late)
  ]
