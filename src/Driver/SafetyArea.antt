-- ===== src/Driver/SafetyArea.antt =====
-- The request of `getSafetyArea` in urg_node/src/uam/uam_driver.cpp on the wire.
use urg_node.Prelude.{ℕ, ◌-◌, ◌≤◌, ◌≡◌, arith, some, ap, ◌∙◌}
use urg_node.Protocol.Area.{EyrAreaType, area_type_code}
use urg_node.Worker.Crc.{Crc}
use urg_node.Worker.Request.AreaFraming.{u16_member, u32_member, get_yr_command_lem}
use urg_node.Driver.{adjusted, safety_area_command}

adjusted_lem : (n : ℕ) → adjusted n ≡ n - 1
adjusted_lem n = ground arith

-- The request of a safety area, for an area number of at most 32 and steps of at most 1081, carries
-- the code of the area type, and the area number and the steps each less 1, where 0 stays 0.
pub safety_area_command_lem :
    (crc : Crc) (a : EyrAreaType) (n s e : ℕ)
    → n ≤ 32
    → s ≤ 1081
    → e ≤ 1081
    → let bs = safety_area_command crc a n s e in
      (u16_member bs 3 ≡ some (area_type_code a))
      × (u16_member bs 4 ≡ some (n - 1))
      × (u32_member bs 5 ≡ some (s - 1))
      × (u32_member bs 6 ≡ some (e - 1))
safety_area_command_lem crc a n s e hn hs he =
    let (_, _, _, _, kind, number, first, last, _, _, _) =
      get_yr_command_lem crc a (adjusted n) (adjusted s) (adjusted e)
        (omega (arith, adjusted_lem n)) (omega (arith, adjusted_lem s))
        (omega (arith, adjusted_lem e)) in
    (
      kind,
      number ∙ ap some (adjusted_lem n),
      first ∙ ap some (adjusted_lem s),
      last ∙ ap some (adjusted_lem e),
    )
