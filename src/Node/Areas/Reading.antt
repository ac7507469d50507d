-- ===== src/Node/Areas/Reading.antt =====
-- What `readSafetyAreas` of urg_node/src/uam/uam_driver_ros.cpp leaves in the map of the areas.
use urg_node.Prelude.{
  ℕ, zero, suc, ◌+◌, ◌≤◌, ◌<◌, ◌≡◌, ◌⊎◌, inl, inr, refl, ap, sym, ◌∙◌, subst, arith, Bool, true,
  false, Option, none, some, List, [], ◌∷◌, ◌==◌, if◌then◌else◌, some-injective, if-true,
  Bool-cases, Option-cases, ==_iff,
}
use urg_node.Prelude.Maps.{find_key, insert_key, find_key-insert_same, find_key-insert_other}
use urg_node.Protocol.Area.{
  EyrAreaType, protection_1, protection_2, warning_1, warning_2, muting_1, muting_2,
  reference_center, reference_max, reference_min, area_type_code, YrCommandReply,
}
use urg_node.Protocol.Replies.{max_safety_area_index}
use urg_node.Worker.Crc.{Crc}
use urg_node.Driver.{UamDriver, Surroundings}
use urg_node.Node.{UamRos, SafetyArea}
use urg_node.Node.Library.{NodePlatform}
use urg_node.Node.Status.{area_types}
use urg_node.Node.Areas.{
  request_area, to_safety_area, read_types, read_numbers, with_areas, is_empty, read_safety_areas,
}

type_of_code : ℕ → EyrAreaType
type_of_code n =
    if n == 0
    then protection_1
    else if n == 1
    then protection_2
    else if n == 2
    then warning_1
    else if n == 3
    then warning_2
    else if n == 4
    then muting_1
    else if n == 5
    then muting_2
    else if n == 6
    then reference_center
    else if n == 7
    then reference_max
    else reference_min

type_of_code-area_type_code : (t : EyrAreaType) → type_of_code (area_type_code t) ≡ t
unfolding type_of_code
type_of_code-area_type_code protection_1 = refl
type_of_code-area_type_code protection_2 = refl
type_of_code-area_type_code warning_1 = refl
type_of_code-area_type_code warning_2 = refl
type_of_code-area_type_code muting_1 = refl
type_of_code-area_type_code muting_2 = refl
type_of_code-area_type_code reference_center = refl
type_of_code-area_type_code reference_max = refl
type_of_code-area_type_code reference_min = refl

-- Area types with the same code are the same.
area_type_code-injective : (s t : EyrAreaType) → area_type_code s ≡ area_type_code t → s ≡ t
area_type_code-injective s t e =
    sym (type_of_code-area_type_code s) ∙ ap type_of_code e ∙ type_of_code-area_type_code t

abbrev OneOf : EyrAreaType → List EyrAreaType → Type 0
OneOf t [] = ⊥
OneOf t (s ∷ types) = (s ≡ t) ⊎ OneOf t types

area_types-all : (t : EyrAreaType) → OneOf t area_types
area_types-all protection_1 = inl refl
area_types-all protection_2 = inr (inl refl)
area_types-all warning_1 = inr (inr (inl refl))
area_types-all warning_2 = inr (inr (inr (inl refl)))
area_types-all muting_1 = inr (inr (inr (inr (inl refl))))
area_types-all muting_2 = inr (inr (inr (inr (inr (inl refl)))))
area_types-all reference_center = inr (inr (inr (inr (inr (inr (inl refl))))))
area_types-all reference_max = inr (inr (inr (inr (inr (inr (inr (inl refl)))))))
area_types-all reference_min = inr (inr (inr (inr (inr (inr (inr (inr (inl refl))))))))

true-false : true ≡ false → ⊥
true-false e = cc

none-some : {A : Type 0} {a : A} → none ≡ some a → ⊥
none-some e = cc

lt_of_neq : (j n : ℕ) → j < suc n → (n == j) ≡ false → j < n
lt_of_neq j n h other = ground arith

module _ (p : NodePlatform) (crc : Crc) (around : ℕ → EyrAreaType → Surroundings)
    (node : UamRos p) where
  -- The area has the scan of a reply to the request for its number and its type.
  pub record IsAnswered (n : ℕ) (t : EyrAreaType) (area : SafetyArea p) : Type 0 where
    pub lidar : UamDriver
    pub reply : YrCommandReply
    pub replied : (request_area p crc around node lidar n t).1 ≡ some reply
    pub found : find_key (area_type_code t) area ≡ some (to_safety_area p node reply)

  IsAnswered-insert :
      (n : ℕ) (s t : EyrAreaType) (area : SafetyArea p) (lidar : UamDriver) (reply : YrCommandReply)
      → (request_area p crc around node lidar n s).1 ≡ some reply
      → (s ≡ t) ⊎ IsAnswered n t area
      → IsAnswered n t (insert_key (area_type_code s) (to_safety_area p node reply) area)
  IsAnswered-insert n s t area lidar reply e (inl same) =
      subst (λ u. IsAnswered n u (insert_key (area_type_code s) (to_safety_area p node reply) area))
        same
        (record {
          lidar = lidar;
          reply = reply;
          replied = e;
          found = find_key-insert_same _ _ area;
        })
  IsAnswered-insert n s t area lidar reply e (inr h) =
      let answered =
        subst (λ u.
          IsAnswered n u (insert_key (area_type_code s) (to_safety_area p node reply) area)) in
      elim (Bool-cases (area_type_code s == area_type_code t)) [
        | inl same ↦ answered (area_type_code-injective s t ((==_iff _ _).0 same)) (record {
          lidar = lidar;
          reply = reply;
          replied = e;
          found = find_key-insert_same _ _ area;
        })
        | inr other ↦ record {
          lidar = h.lidar;
          reply = h.reply;
          replied = h.replied;
          found =
              find_key-insert_other _ _ _ area
                (λ same. true-false (sym ((==_iff _ _).1 same) ∙ other))
              ∙ h.found;
        }
      ]

  pub read_types-some :
      (lidar : UamDriver) (n : ℕ) (s : EyrAreaType) (types : List EyrAreaType) (area : SafetyArea p)
      (reply : YrCommandReply)
      → (request_area p crc around node lidar n s).1 ≡ some reply
      → read_types p crc around node lidar n (s ∷ types) area
        ≡ read_types p crc around node
            (request_area p crc around node lidar n s).0
            n
            types
            (insert_key (area_type_code s) (to_safety_area p node reply) area)
  unfolding read_types
  read_types-some lidar n s types area reply e = rw (read_types, e) refl

  read_types-none :
      (lidar : UamDriver) (n : ℕ) (s : EyrAreaType) (types : List EyrAreaType) (area : SafetyArea p)
      → (request_area p crc around node lidar n s).1 ≡ none
      → (read_types p crc around node lidar n (s ∷ types) area).1 ≡ none
  unfolding read_types
  read_types-none lidar n s types area e = rw (read_types, e) refl

  -- Once the loop over types ends well, each of them is answered, as is each that was before.
  read_types-IsAnswered :
      (lidar : UamDriver) (n : ℕ) (types : List EyrAreaType) (area result : SafetyArea p)
      → (read_types p crc around node lidar n types area).1 ≡ some result
      → (t : EyrAreaType) → OneOf t types ⊎ IsAnswered n t area
      → IsAnswered n t result
  unfolding read_types
  read_types-IsAnswered lidar n [] area result e t (inl h) = absurd h
  read_types-IsAnswered lidar n [] area result e t (inr h) =
      subst (IsAnswered n t) (some-injective e) h
  read_types-IsAnswered lidar n (s ∷ types) area result e t h =
      let asked = request_area p crc around node lidar n s in
      elim (Option-cases asked.1) [
        | inl failed ↦ absurd (none-some (sym (read_types-none lidar n s types area failed) ∙ e))
        | inr (reply, replied) ↦
            read_types-IsAnswered asked.0 n types
              (insert_key (area_type_code s) (to_safety_area p node reply) area) result
              (sym (
                  ap (λ (r : UamDriver × Option (SafetyArea p)). r.1)
                    (read_types-some lidar n s types area reply replied))
                ∙ e)
              t
              (elim h [
                | inl (inl same) ↦ inr (IsAnswered-insert n s t area lidar reply replied (inl same))
                | inl (inr later) ↦ inl later
                | inr before ↦ inr (IsAnswered-insert n s t area lidar reply replied (inr before))
              ])
      ]

  -- The map has an area of this number in which every area type is answered.
  pub record HasArea (areas : List (ℕ × SafetyArea p)) (n : ℕ) : Type 0 where
    pub area : SafetyArea p
    pub found : find_key n areas ≡ some area
    pub answered : (t : EyrAreaType) → IsAnswered n t area

  HasArea-insert :
      (areas : List (ℕ × SafetyArea p)) (n k : ℕ) (area : SafetyArea p)
      → ((t : EyrAreaType) → IsAnswered n t area)
      → (n ≡ k) ⊎ HasArea areas k
      → HasArea (insert_key n area areas) k
  HasArea-insert areas n k area h (inl same) =
      subst (HasArea (insert_key n area areas)) same
        (record { area = area; found = find_key-insert_same n area areas; answered = h })
  HasArea-insert areas n k area h (inr before) = elim (Bool-cases (n == k)) [
    | inl same ↦
        subst (HasArea (insert_key n area areas)) ((==_iff n k).0 same)
          (record { area = area; found = find_key-insert_same n area areas; answered = h })
    | inr other ↦ record {
      area = before.area;
      found =
          find_key-insert_other n k area areas
            (λ same. true-false (sym ((==_iff n k).1 same) ∙ other))
          ∙ before.found;
      answered = before.answered;
    }
  ]

  pub read_numbers-some :
      (lidar : UamDriver) (left n : ℕ) (areas : List (ℕ × SafetyArea p)) (area : SafetyArea p)
      → (read_types p crc around node lidar n area_types []).1 ≡ some area
      → read_numbers p crc around node lidar (suc left) n areas
        ≡ read_numbers p crc around node
            (read_types p crc around node lidar n area_types []).0
            left
            (suc n)
            (insert_key n area areas)
  unfolding read_numbers
  read_numbers-some lidar left n areas area e = rw (read_numbers, e) refl

  read_numbers-none :
      (lidar : UamDriver) (left n : ℕ) (areas : List (ℕ × SafetyArea p))
      → (read_types p crc around node lidar n area_types []).1 ≡ none
      → (read_numbers p crc around node lidar (suc left) n areas).1 ≡ none
  unfolding read_numbers
  read_numbers-none lidar left n areas e = rw (read_numbers, e) refl

  read_numbers-HasArea :
      (lidar : UamDriver) (left n : ℕ) (areas result : List (ℕ × SafetyArea p))
      → (read_numbers p crc around node lidar left n areas).1 ≡ some result
      → ((k : ℕ) → 1 ≤ k → k < n → HasArea areas k)
      → (k : ℕ) → 1 ≤ k
      → k < n + left
      → HasArea result k
  unfolding read_numbers
  read_numbers-HasArea lidar zero n areas result e before k low high =
      subst (λ r. HasArea r k) (some-injective e) (before k low (omega arith))
  read_numbers-HasArea lidar (suc left) n areas result e before k low high =
      let asked = read_types p crc around node lidar n area_types [] in
      elim (Option-cases asked.1) [
        | inl failed ↦ absurd (none-some (sym (read_numbers-none lidar left n areas failed) ∙ e))
        | inr (area, replied) ↦
            let answered : (t : EyrAreaType) → IsAnswered n t area = λ t.
              read_types-IsAnswered lidar n area_types [] area replied t (inl (area_types-all t)) in
            let up_to_n : (j : ℕ) → 1 ≤ j → j < suc n → HasArea (insert_key n area areas) j =
              λ j at_least below. elim (Bool-cases (n == j)) [
                | inl same ↦ HasArea-insert areas n j area answered (inl ((==_iff n j).0 same))
                | inr other ↦
                    HasArea-insert areas n j area answered
                      (inr (before j at_least (lt_of_neq j n below other)))
              ] in
            read_numbers-HasArea asked.0 left (suc n) (insert_key n area areas) result
              (sym (
                  ap (λ (r : UamDriver × Option (List (ℕ × SafetyArea p))). r.1)
                    (read_numbers-some lidar left n areas area replied))
                ∙ e)
              up_to_n k low (omega arith)
      ]

  pub read_safety_areas-empty :
      node.safety_areas ≡ []
      → read_safety_areas p crc around node
        ≡ with_areas p node (read_numbers p crc around node node.lidar max_safety_area_index 1 [])
  unfolding read_safety_areas
  read_safety_areas-empty empty = if-true _ _ _ (ap is_empty empty)

  with_areas-HasArea :
      (r : UamDriver × Option (List (ℕ × SafetyArea p))) (k : ℕ)
      → (with_areas p node r).1 ≡ true
      → ((result : List (ℕ × SafetyArea p)) → r.1 ≡ some result → HasArea result k)
      → HasArea (with_areas p node r).0.safety_areas k
  with_areas-HasArea (lidar, none) k ok h = absurd (true-false (sym ok))
  with_areas-HasArea (lidar, some areas) k ok h = h areas refl

  with_areas-failed :
      (r : UamDriver × Option (List (ℕ × SafetyArea p)))
      → (with_areas p node r).1 ≡ false
      → (with_areas p node r).0.safety_areas ≡ node.safety_areas
  with_areas-failed (lidar, none) failed = refl
  with_areas-failed (lidar, some areas) failed = absurd (true-false failed)

  -- If no areas are known and `readSafetyAreas` ends without an exception, then for each area
  -- number from 1 to 32 and each of the nine area types the map has, under the number and the
  -- code of the type, the scan made of what the request for that number and that type returned,
  -- which is a reply of the YR worker, or the memory of a late reply of another type read as one.
  pub read_safety_areas-HasArea :
      (k : ℕ)
      → node.safety_areas ≡ []
      → (read_safety_areas p crc around node).1 ≡ true
      → 1 ≤ k
      → k ≤ max_safety_area_index
      → HasArea (read_safety_areas p crc around node).0.safety_areas k
  read_safety_areas-HasArea k empty ok low high =
      let e = read_safety_areas-empty empty in
      let r = read_numbers p crc around node node.lidar max_safety_area_index 1 [] in
      subst (λ (a : UamRos p × Bool). HasArea a.0.safety_areas k) (sym e)
        (with_areas-HasArea r k (sym (ap (λ (a : UamRos p × Bool). a.1) e) ∙ ok) (λ result found.
          read_numbers-HasArea node.lidar max_safety_area_index 1 [] result found
            (λ j at_least below. absurd (omega arith)) k low (omega arith)))

  -- After an exception no areas are known, as before.
  pub read_safety_areas-failed :
      node.safety_areas ≡ []
      → (read_safety_areas p crc around node).1 ≡ false
      → (read_safety_areas p crc around node).0.safety_areas ≡ []
  read_safety_areas-failed empty failed =
      let e = read_safety_areas-empty empty in
      let r = read_numbers p crc around node node.lidar max_safety_area_index 1 [] in
      ap (λ (a : UamRos p × Bool). a.0.safety_areas) e
      ∙ with_areas-failed r (sym (ap (λ (a : UamRos p × Bool). a.1) e) ∙ failed)
      ∙ empty
