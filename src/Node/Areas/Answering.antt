-- ===== src/Node/Areas/Answering.antt =====
-- `readSafetyAreas` of urg_node/src/uam/uam_driver_ros.cpp with a sensor that answers.
use urg_node.Prelude.{
  ℕ, zero, suc, ◌≡◌, refl, ap, ◌∙◌, Bool, true, Option, none, some, List, [], ◌∷◌,
}
use urg_node.Protocol.Area.{EyrAreaType, YrCommandReply}
use urg_node.Protocol.Replies.{max_safety_area_index}
use urg_node.Worker.Crc.{Crc}
use urg_node.Driver.{UamDriver, Surroundings}
use urg_node.Node.{UamRos, SafetyArea}
use urg_node.Node.Library.{NodePlatform}
use urg_node.Node.Status.{area_types}
use urg_node.Node.Areas.{request_area, read_types, read_numbers, with_areas, read_safety_areas}
use urg_node.Node.Areas.Reading.{read_types-some, read_numbers-some, read_safety_areas-empty}

module _ (p : NodePlatform) (crc : Crc) (around : ℕ → EyrAreaType → Surroundings) (node : UamRos p)
    (answers : (lidar : UamDriver) (n : ℕ) (t : EyrAreaType)
      → lidar.client.connected ≡ true
      → ((reply : YrCommandReply) × ((request_area p crc around node lidar n t).1 ≡ some reply))
        × ((request_area p crc around node lidar n t).0.client.connected ≡ true)) where
  read_types-ends :
      (lidar : UamDriver) (n : ℕ) (types : List EyrAreaType) (area : SafetyArea p)
      → lidar.client.connected ≡ true
      → ((result : SafetyArea p) × ((read_types p crc around node lidar n types area).1
            ≡ some result))
        × ((read_types p crc around node lidar n types area).0.client.connected ≡ true)
  unfolding read_types
  read_types-ends lidar n [] area h = ((area, refl), h)
  read_types-ends lidar n (t ∷ types) area h =
      let ((reply, e), still) = answers lidar n t h in
      let same = read_types-some p crc around node lidar n t types area reply e in
      let ((result, found), last) =
        read_types-ends (request_area p crc around node lidar n t).0 n types _ still in
      (
        (result, ap (λ (r : UamDriver × Option (SafetyArea p)). r.1) same ∙ found),
        ap (λ (r : UamDriver × Option (SafetyArea p)). r.0.client.connected) same ∙ last,
      )

  read_numbers-ends :
      (lidar : UamDriver) (left n : ℕ) (areas : List (ℕ × SafetyArea p))
      → lidar.client.connected ≡ true
      → (result : List (ℕ × SafetyArea p)) × ((read_numbers p crc around node lidar left n areas).1
          ≡ some result)
  unfolding read_numbers
  read_numbers-ends lidar zero n areas h = (areas, refl)
  read_numbers-ends lidar (suc left) n areas h =
      let ((area, e), still) = read_types-ends lidar n area_types [] h in
      let same = read_numbers-some p crc around node lidar left n areas area e in
      let (result, found) =
        read_numbers-ends (read_types p crc around node lidar n area_types []).0 left (suc n) _
          still in
      (result, ap (λ (r : UamDriver × Option (List (ℕ × SafetyArea p))). r.1) same ∙ found)

  with_areas-ends :
      (r : UamDriver × Option (List (ℕ × SafetyArea p)))
      → (result : List (ℕ × SafetyArea p)) × (r.1 ≡ some result)
      → (with_areas p node r).1 ≡ true
  with_areas-ends (lidar, none) (result, e) = cc
  with_areas-ends (lidar, some areas) e = refl

  -- If a connected sensor answers each request of an area and stays connected, all areas are read.
  pub read_safety_areas-ends :
      node.safety_areas ≡ []
      → node.lidar.client.connected ≡ true
      → (read_safety_areas p crc around node).1 ≡ true
  read_safety_areas-ends empty connected =
      ap (λ (r : UamRos p × Bool). r.1) (read_safety_areas-empty p crc around node empty)
      ∙ with_areas-ends (read_numbers p crc around node node.lidar max_safety_area_index 1 [])
          (read_numbers-ends node.lidar max_safety_area_index 1 [] connected)
