-- ===== src/Aggregator.antt =====
-- `StatusAggregator` of urg_node/src/uam/uam_status_aggregator_node.cpp: the last status of each topic, and
-- when the array of them is published. The messages and the test of names are those of ROS.
pub mod Latest
use urg_node.Prelude.{
  ℕ, ◌≡◌, Bool, true, false, not, ◌&&◌, Option, none, some, List, [], ◌∷◌, ◌++◌, if◌then◌else◌,
  length, replicate, get_or, set_at,
}
use urg_node.Codec.Bytes.{Bytes}

-- `urg_node_msgs::Status` with its default value and its `!=`.
pub record StatusType : Type 1 where
  pub Status : Type 0
  pub empty_status : Status
  pub differs : Status → Status → Bool
  pub eq_of_differs : (s t : Status) → differs s t ≡ false → s ≡ t

pub record StatusAggregatorParams : Type 0 where
  pub status_topics : List Bytes
  pub publish_on_change : Bool

module _ (m : StatusType) where
  -- The object, with what its publisher has published, latest first.
  pub record StatusAggregator : Type 0 where
    pub params : StatusAggregatorParams
    pub configured : Bool
    pub output_status : List m.Status
    pub published : List (List m.Status)

  -- `isTopicNameInvalid`, where `names_validate` is `ros::names::validate`.
  unfoldable pub is_topic_name_invalid : (Bytes → Bool) → Bytes → Bool
  is_topic_name_invalid names_validate topic_name =
      not (names_validate topic_name && not (elim topic_name [ [] ↦ true | c ∷ cs ↦ false ]))

  unfoldable pub valid_topics : (Bytes → Bool) → List Bytes → List Bytes
  unfolding is_topic_name_invalid
  valid_topics names_validate [] = []
  valid_topics names_validate (topic ∷ topics) =
      let rest = valid_topics names_validate topics in
      if is_topic_name_invalid names_validate topic then rest else topic ∷ rest

  -- The constructor, once the topics are told apart. A subscription calls `status_callback` with the
  -- place of its topic.
  unfoldable pub aggregator_for : StatusAggregatorParams → List Bytes → StatusAggregator
  aggregator_for params [] = record {
    params = record params { status_topics = [] };
    configured = false;
    output_status = [];
    published = [];
  }
  aggregator_for params (topic ∷ topics) = record {
    params = record params { status_topics = topic ∷ topics };
    configured = true;
    output_status = replicate (length (topic ∷ topics)) m.empty_status;
    published = [];
  }

  unfoldable pub new_aggregator : (Bytes → Bool) → StatusAggregatorParams → StatusAggregator
  unfolding valid_topics aggregator_for
  new_aggregator names_validate params =
      aggregator_for params (valid_topics names_validate params.status_topics)

  -- `statusCallback(status, last_status)`, where `last_status` is the place of a topic in the array.
  unfoldable pub status_callback : ℕ → m.Status → StatusAggregator → StatusAggregator
  status_callback topic_idx status a =
      let last_status = get_or a.output_status topic_idx m.empty_status in
      let should_publish =
        if a.params.publish_on_change then m.differs status last_status else true in
      let output = set_at topic_idx status a.output_status in
      let a' = record a { output_status = output } in
      if should_publish then record a' { published = output ∷ a.published } else a'

  -- A run of callbacks, each on a topic of the array.
  unfoldable pub callbacks : StatusAggregator → List (ℕ × m.Status) → StatusAggregator
  unfolding status_callback
  callbacks a [] = a
  callbacks a (arrival ∷ arrivals) = callbacks (status_callback arrival.0 arrival.1 a) arrivals
