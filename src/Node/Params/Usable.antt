-- ===== src/Node/Params/Usable.antt =====
-- What `loadFromROS` of urg_node/src/uam/uam_driver_ros_params.cpp lets through.
use urg_node.Prelude.{
  ℕ, ◌≤◌, ◌<◌, ◌≡◌, ◌⊎◌, inl, inr, sym, ◌∙◌, ap, subst, arith, Bool, false, ◌&&◌, Option, none,
  some, if◌then◌else◌, if-false, le→ltb,
}
use urg_node.Prelude.Int.{ℤ, pos, negsuc}
use urg_node.Node.Library.{NodePlatform}
use urg_node.Node.Params.{
  UamRosParams, ParamServer, get_param, to_unsigned, reference_safety_area_of, load_from_ros,
}

-- The code is that of one of the first four types of areas, if there is one.
abbrev pub IsReference : Option ℕ → Type 0
IsReference none = Unit
IsReference (some code) = code ≤ 3

reference_safety_area_of-inside :
    (default : Option ℕ) (n : ℕ) → n ≤ 3 → reference_safety_area_of default (some (pos n)) ≡ some n
unfolding reference_safety_area_of
reference_safety_area_of-inside default n h = ground arith

reference_safety_area_of-outside :
    (default : Option ℕ) (n : ℕ) → 3 < n → reference_safety_area_of default (some (pos n)) ≡ default
unfolding reference_safety_area_of
reference_safety_area_of-outside default n h = ground arith

reference_safety_area_of-negative :
    (default : Option ℕ) (n : ℕ) → reference_safety_area_of default (some (negsuc n)) ≡ default
unfolding reference_safety_area_of
reference_safety_area_of-negative default n = ground arith

le_or_lt : (m n : ℕ) → (m ≤ n) ⊎ (n < m)
le_or_lt m n = omega arith

reference_safety_area_of-IsReference :
    (default : Option ℕ) (set : Option ℤ)
    → IsReference default
    → IsReference (reference_safety_area_of default set)
unfolding reference_safety_area_of
reference_safety_area_of-IsReference default none h = h
reference_safety_area_of-IsReference default (some (negsuc n)) h =
    subst IsReference (sym (reference_safety_area_of-negative default n)) h
reference_safety_area_of-IsReference default (some (pos n)) h = elim (le_or_lt n 3) [
  | inl small ↦ subst IsReference (sym (reference_safety_area_of-inside default n small)) small
  | inr large ↦ subst IsReference (sym (reference_safety_area_of-outside default n large)) h
]

not_both :
    (multi_echo intensity : Bool)
    → ((if multi_echo && intensity then false else multi_echo) && intensity) ≡ false
not_both multi_echo intensity = ground arith

module _ (p : NodePlatform) where
  -- Intensities and several echoes are not asked for together, the reference area is one of the first
  -- four types, the one that is set if it is one of them, and the port is the one that is set, as an
  -- unsigned number.
  pub record IsUsable (default : ℕ) (nh : ParamServer p) (params : UamRosParams p) : Type 0 where
    pub one_mode : (params.use_multi_echo && params.use_intensity) ≡ false
    pub reference : IsReference params.reference_safety_area
    pub reference_set :
        (n : ℕ)
        → nh.reference_safety_area_type ≡ some (pos n)
        → n ≤ 3
        → params.reference_safety_area ≡ some n
    pub port : params.ip_port ≡ to_unsigned (get_param nh.ip_port (pos default))

  -- Whatever the parameter server holds, the parameters that `loadFromROS` makes do not ask for
  -- intensities and several echoes at once, have as reference area the one that is set if its
  -- code is from 0 to 3, have in any case one with such a code or none, provided that holds of
  -- the defaults, and have as port the number that is set, or the default, cast to an unsigned
  -- one.
  pub load_from_ros-IsUsable :
      (default : UamRosParams p) (nh : ParamServer p)
      → IsReference default.reference_safety_area
      → IsUsable default.ip_port nh (load_from_ros p default nh)
  unfolding load_from_ros
  load_from_ros-IsUsable default nh h = record {
    one_mode =
        not_both (get_param nh.publish_multiecho default.use_multi_echo)
          (get_param nh.publish_intensity default.use_intensity);
    reference =
        reference_safety_area_of-IsReference default.reference_safety_area
          nh.reference_safety_area_type h;
    reference_set = λ n e small.
        ap (reference_safety_area_of default.reference_safety_area) e
        ∙ reference_safety_area_of-inside default.reference_safety_area n small;
    port = if-false _ _ _ (le→ltb default.ip_port 0 (omega arith));
  }
