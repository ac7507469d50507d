-- ===== src/Tests/Statuses.antt =====
-- The status aggregator of urg_node/src/uam/uam_status_aggregator_node.cpp with two topics.
use urg_node.Prelude.{ℕ, ◌≡◌, arith, Bool, true, false, not, List, [], ◌∷◌, ◌==◌}
use urg_node.Codec.Bytes.{Bytes}
use urg_node.Aggregator.{StatusType, StatusAggregatorParams, new_aggregator, callbacks}
use urg_node.Aggregator.Latest.{
  Represents, IsCurrent, update_all, new_aggregator-Represents, new_aggregator-IsCurrent,
}

eq_of_not_equal : (s t : ℕ) → not (s == t) ≡ false → s ≡ t
eq_of_not_equal s t e = ground arith

-- Numbers for statuses.
abbrev numbers : StatusType
numbers = record {
  Status = ℕ;
  empty_status = 0;
  differs = λ s t. not (s == t);
  eq_of_differs = eq_of_not_equal;
}

-- Every name is valid, but one of the three topics is empty.
abbrev any_name : Bytes → Bool
any_name name = true

abbrev two_topics : StatusAggregatorParams
two_topics = record {
  status_topics = (b'a' ∷ []) ∷ [] ∷ (b'b' ∷ []) ∷ [];
  publish_on_change = true;
}

abbrev arrivals : List (ℕ × ℕ)
arrivals = (1, 7) ∷ (0, 5) ∷ (1, 7) ∷ (1, 8) ∷ []

Represents-example :
    Represents numbers any_name two_topics.status_topics
      (callbacks numbers (new_aggregator numbers any_name two_topics) arrivals)
      (update_all numbers (λ _. 0) arrivals)
Represents-example = new_aggregator-Represents numbers any_name two_topics arrivals

IsCurrent-example :
    let a = new_aggregator numbers any_name two_topics in
    IsCurrent numbers a.output_status (callbacks numbers a arrivals)
IsCurrent-example = new_aggregator-IsCurrent numbers any_name two_topics arrivals
