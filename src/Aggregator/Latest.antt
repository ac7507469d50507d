-- ===== src/Aggregator/Latest.antt =====
-- The array of the status aggregator of urg_node/src/uam/uam_status_aggregator_node.cpp against a function
-- from topics to their last status, and what was published last.
use urg_node.Prelude.{
  ◌≢◌, ◌↔◌, ◌⊎◌, true, length-replicate, ℕ, zero, suc, ◌<◌, ◌≡◌, inl, inr, refl, arith, Bool, false,
  List, [], ◌∷◌, ◌==◌, if◌then◌else◌, length, get_or, set_at, set_at-get_or, length-set_at,
  get_or-set_at_self, get_or-set_at_other, ap, sym, ◌∙◌, Bool-cases, replicate, subst, ==_iff,
  ==_refl, if-true, if-false,
}
use urg_node.Codec.Bytes.{Bytes}
use urg_node.Aggregator.{
  StatusType, StatusAggregatorParams, StatusAggregator, status_callback, callbacks, new_aggregator,
  aggregator_for, valid_topics, is_topic_name_invalid,
}

true_false : {A : Type 0} → true ≡ false → A
true_false e = absurd (ground arith)

module _ (m : StatusType) where
  -- The abstract view: each topic's last status.
  abbrev pub Statuses : Type 0
  Statuses = ℕ → m.Status

  unfoldable pub update : ℕ → m.Status → Statuses → Statuses
  update i s f k = if k == i then s else f k

  unfoldable pub update_all : Statuses → List (ℕ × m.Status) → Statuses
  unfolding update
  update_all f [] = f
  update_all f (arrival ∷ arrivals) = update_all (update arrival.0 arrival.1 f) arrivals

  abbrev pub AreTopics : ℕ → List (ℕ × m.Status) → Type 0
  AreTopics n [] = Unit
  AreTopics n (arrival ∷ arrivals) = (arrival.0 < n) × AreTopics n arrivals

  -- The array stands for a function on its first places.
  abbrev Shows : StatusAggregator m → Statuses → Type 0
  Shows a f = (k : ℕ) → k < length a.output_status → get_or a.output_status k m.empty_status ≡ f k

  status_callback-output :
      (i : ℕ) (s : m.Status) (a : StatusAggregator m)
      → (status_callback m i s a).output_status ≡ set_at i s a.output_status
  unfolding status_callback
  status_callback-output i s a = ground arith

  status_callback-Shows :
      (i : ℕ) (s : m.Status) (a : StatusAggregator m) (f : Statuses)
      → Shows a f
      → Shows (status_callback m i s a) (update i s f)
  unfolding update
  status_callback-Shows i s a f r k h =
      let e = status_callback-output i s a in
      let h' : k < length a.output_status =
        omega (arith, ap length e, length-set_at i s a.output_status) in
      ap (λ xs. get_or xs k m.empty_status) e ∙ elim (Bool-cases (k == i)) [
        | inl same ↦
            let here : k ≡ i = (==_iff k i).0 same in
            subst (λ j. get_or (set_at j s a.output_status) k m.empty_status ≡ s) here
              (get_or-set_at_self k s a.output_status m.empty_status h')
            ∙ sym (if-true (k == i) s (f k) same)
        | inr other ↦
            get_or-set_at_other i k s a.output_status m.empty_status
              (λ here. absurd (ground (arith, ==_refl k)))
            ∙ r k h'
            ∙ sym (if-false (k == i) s (f k) other)
      ]

  pub callbacks-Shows :
      (arrivals : List (ℕ × m.Status)) (a : StatusAggregator m) (f : Statuses)
      → Shows a f
      → Shows (callbacks m a arrivals) (update_all f arrivals)
  unfolding callbacks update_all
  callbacks-Shows [] a f r = r
  callbacks-Shows ((i, s) ∷ arrivals) a f r =
      callbacks-Shows arrivals (status_callback m i s a) (update i s f)
        (status_callback-Shows i s a f r)

  -- What was published last is what the array holds, or nothing was and the array is as it started.
  abbrev pub IsLastOf : List (List m.Status) → List m.Status → List m.Status → Type 0
  IsLastOf [] output start = output ≡ start
  IsLastOf (latest ∷ earlier) output start = latest ≡ output

  abbrev pub IsCurrent : List m.Status → StatusAggregator m → Type 0
  IsCurrent start a = IsLastOf a.published a.output_status start

  IsLastOf-subst :
      (published : List (List m.Status)) (xs ys start : List m.Status)
      → xs ≡ ys
      → IsLastOf published xs start
      → IsLastOf published ys start
  IsLastOf-subst published xs ys start e h = subst (λ o. IsLastOf published o start) e h

  -- A status that is the same leaves the array as it is.
  set_at-same :
      (i : ℕ) (s : m.Status) (xs : List m.Status)
      → m.differs s (get_or xs i m.empty_status) ≡ false
      → set_at i s xs ≡ xs
  set_at-same i s xs e =
      let same : s ≡ get_or xs i m.empty_status = m.eq_of_differs s _ e in
      ap (λ t. set_at i t xs) same ∙ set_at-get_or i xs m.empty_status

  status_callback-IsCurrent :
      (start : List m.Status) (i : ℕ) (s : m.Status) (a : StatusAggregator m)
      → IsCurrent start a
      → IsCurrent start (status_callback m i s a)
  unfolding status_callback
  status_callback-IsCurrent start i s a h =
      let output = a.output_status in
      elim (Bool-cases a.params.publish_on_change) [
        | inr always ↦ rw (status_callback, always) refl
        | inl on_change ↦ elim (Bool-cases (m.differs s (get_or output i m.empty_status))) [
          | inl changed ↦ rw (status_callback, on_change, changed) refl
          | inr same ↦
              rw (status_callback, on_change, same)
                (IsLastOf-subst a.published output (set_at i s output) start
                  (sym (set_at-same i s output same)) h)
        ]
      ]

  callbacks-IsCurrent :
      (start : List m.Status) (arrivals : List (ℕ × m.Status)) (a : StatusAggregator m)
      → IsCurrent start a
      → IsCurrent start (callbacks m a arrivals)
  unfolding callbacks
  callbacks-IsCurrent start [] a h = h
  callbacks-IsCurrent start ((i, s) ∷ arrivals) a h =
      callbacks-IsCurrent start arrivals (status_callback m i s a)
        (status_callback-IsCurrent start i s a h)

  get_or-replicate : (n k : ℕ) (s : m.Status) → get_or (replicate n s) k s ≡ s
  get_or-replicate zero k s = refl
  get_or-replicate (suc n) zero s = refl
  get_or-replicate (suc n) (suc k) s = get_or-replicate n k s

  aggregator_for-starts :
      (params : StatusAggregatorParams) (topics : List Bytes)
      → let a = aggregator_for m params topics in
        IsCurrent a.output_status a × Shows a (λ _. m.empty_status)
  unfolding aggregator_for
  aggregator_for-starts params [] = (refl, λ k h. refl)
  aggregator_for-starts params (topic ∷ topics) =
      (refl, λ k h. get_or-replicate (length (topic ∷ topics)) k m.empty_status)

  -- What callbacks leave alone.
  status_callback-topics :
      (i : ℕ) (s : m.Status) (a : StatusAggregator m)
      → ((status_callback m i s a).params.status_topics ≡ a.params.status_topics)
        × (length (status_callback m i s a).output_status ≡ length a.output_status)
  unfolding status_callback
  status_callback-topics i s a = let e = length-set_at i s a.output_status in ground arith

  callbacks-topics :
      (arrivals : List (ℕ × m.Status)) (a : StatusAggregator m)
      → ((callbacks m a arrivals).params.status_topics ≡ a.params.status_topics)
        × (length (callbacks m a arrivals).output_status ≡ length a.output_status)
  unfolding callbacks
  callbacks-topics [] a = (refl, refl)
  callbacks-topics ((i, s) ∷ arrivals) a =
      let one = status_callback-topics i s a in
      let rest = callbacks-topics arrivals (status_callback m i s a) in
      (rest.0 ∙ one.0, rest.1 ∙ one.1)

  aggregator_for-topics :
      (params : StatusAggregatorParams) (topics : List Bytes)
      → let a = aggregator_for m params topics in
        (a.params.status_topics ≡ topics) × (length a.output_status ≡ length topics)
  unfolding aggregator_for
  aggregator_for-topics params [] = (refl, refl)
  aggregator_for-topics params (topic ∷ topics) = (refl, length-replicate _ m.empty_status)

  -- A name of a list.
  abbrev pub IsIn : Bytes → List Bytes → Type 0
  IsIn t [] = ⊥
  IsIn t (topic ∷ topics) = (topic ≡ t) ⊎ IsIn t topics

  module _ (names_validate : Bytes → Bool) where
    -- A name that ROS takes and that is not empty.
    abbrev pub IsTopic : Bytes → Type 0
    IsTopic t = (names_validate t ≡ true) × (t ≢ [])

    is_topic_name_invalid-IsTopic :
        (t : Bytes) → (is_topic_name_invalid m names_validate t ≡ false) ↔ IsTopic t
    unfolding is_topic_name_invalid
    is_topic_name_invalid-IsTopic [] = (λ e. absurd (ground arith), λ h. absurd (h.1 refl))
    is_topic_name_invalid-IsTopic (c ∷ cs) =
        (λ e. (ground arith, λ empty. cc), λ h. let valid = h.0 in ground arith)

    valid_topics-IsTopic :
        (topics : List Bytes) (t : Bytes)
        → IsIn t (valid_topics m names_validate topics) ↔ (IsIn t topics × IsTopic t)
    unfolding valid_topics
    valid_topics-IsTopic [] t = (λ h. absurd h, λ h. absurd h.0)
    valid_topics-IsTopic (topic ∷ topics) t =
        let (to, from) = valid_topics-IsTopic topics t in
        let (valid, of_valid) = is_topic_name_invalid-IsTopic topic in
        elim (Bool-cases (is_topic_name_invalid m names_validate topic)) [
          | inl bad ↦
              rw (valid_topics, bad)
                (
                  λ h. (inr (to h).0, (to h).1),
                  λ h. elim h.0 [
                    | inl same ↦
                        absurd (true_false (sym bad ∙ of_valid (subst IsTopic (sym same) h.1)))
                    | inr later ↦ from (later, h.1)
                  ],
                )
          | inr good ↦
              rw (valid_topics, good)
                (
                  λ h. elim h [
                    | inl same ↦ (inl same, subst IsTopic same (valid good))
                    | inr later ↦ (inr (to later).0, (to later).1)
                  ],
                  λ h. elim h.0 [ inl same ↦ inl same | inr later ↦ inr (from (later, h.1)) ],
                )
        ]

    -- The aggregator follows the topics among the names, has a status for each of them, and that one is what
    -- the function has for its place.
    pub record Represents (names : List Bytes) (a : StatusAggregator m) (f : Statuses)
        : Type 0 where
      pub topics_iff : (t : Bytes) → IsIn t a.params.status_topics ↔ (IsIn t names × IsTopic t)
      pub one_each : length a.output_status ≡ length a.params.status_topics
      pub latest :
          (k : ℕ)
          → k < length a.params.status_topics
          → get_or a.output_status k m.empty_status ≡ f k

    -- After any run of callbacks the topics of a new status aggregator are just the configured
    -- names that are valid and not empty, its array has one status for each of them, and that
    -- is the one that came last for its place, or the empty one, as the function from places to
    -- statuses has that each arrival updates at its place.
    pub new_aggregator-Represents :
        (params : StatusAggregatorParams) (arrivals : List (ℕ × m.Status))
        → Represents params.status_topics
            (callbacks m (new_aggregator m names_validate params) arrivals)
            (update_all (λ _. m.empty_status) arrivals)
    unfolding new_aggregator
    new_aggregator-Represents params arrivals =
        let topics = valid_topics m names_validate params.status_topics in
        let start = aggregator_for m params topics in
        let made = aggregator_for-topics params topics in
        let kept = callbacks-topics arrivals start in
        let names = kept.0 ∙ made.0 in
        let size = kept.1 ∙ made.1 ∙ ap length (sym names) in
        record {
          topics_iff = λ t.
              subst (λ ts. IsIn t ts ↔ (IsIn t params.status_topics × IsTopic t)) (sym names)
                (valid_topics-IsTopic params.status_topics t);
          one_each = size;
          latest = λ k h.
              callbacks-Shows arrivals start (λ _. m.empty_status)
                (aggregator_for-starts params topics).1 k (omega (arith, size));
        }

  -- After any run of callbacks the array that a status aggregator published last is the array
  -- that it holds, or it has published nothing and holds the array that it started with.
  pub new_aggregator-IsCurrent :
      (names_validate : Bytes → Bool) (params : StatusAggregatorParams)
      (arrivals : List (ℕ × m.Status))
      → let a = new_aggregator m names_validate params in
        IsCurrent a.output_status (callbacks m a arrivals)
  unfolding new_aggregator
  new_aggregator-IsCurrent names_validate params arrivals =
      let a = aggregator_for m params (valid_topics m names_validate params.status_topics) in
      callbacks-IsCurrent a.output_status arrivals a
        (aggregator_for-starts params (valid_topics m names_validate params.status_topics)).0
