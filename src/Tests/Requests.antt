-- ===== src/Tests/Requests.antt =====
-- Requests of urg_node/include/uam/workers/uam_worker_base.h and yr_worker.h.
use urg_node.Prelude.{◌≡◌, arith, some, [], ◌∷◌, length}
use urg_node.Codec.Bytes.{slice}
use urg_node.Codec.Field.{u32, get_from_chars}
use urg_node.Protocol.Header.{stx_id, etx_id}
use urg_node.Protocol.Area.{warning_1, area_type_code, yr_request_size}
use urg_node.Worker.Request.{get_command, get_yr_command}
use urg_node.Worker.Request.Framing.{IsFrame, get_command_lem}
use urg_node.Worker.Request.AreaFraming.{u16_member, u32_member, get_yr_command_lem}
use urg_node.Tests.Kermit.{kermit}

ar02_command_example :
    let bs = get_command kermit (b'A', b'R') (b'0', b'2') in
    IsFrame (b'A', b'R') (b'0', b'2') (kermit.checksum (slice bs 1 8)) bs
ar02_command_example = get_command_lem kermit (b'A', b'R') (b'0', b'2')

yr_command_example :
    let bs = get_yr_command kermit warning_1 3 100 900 in
    (length bs ≡ yr_request_size)
    × (slice bs 0 1 ≡ stx_id ∷ [])
    × (u32_member bs 1 ≡ some yr_request_size)
    × (slice bs 5 2 ≡ b'Y' ∷ b'R' ∷ [])
    × (u16_member bs 3 ≡ some (area_type_code warning_1))
    × (u16_member bs 4 ≡ some 3)
    × (u32_member bs 5 ≡ some 100)
    × (u32_member bs 6 ≡ some 900)
    × (u16_member bs 7 ≡ some 1)
    × (get_from_chars u32 (slice bs 21 4) ≡ some (kermit.checksum (slice bs 1 20)))
    × (slice bs 25 1 ≡ etx_id ∷ [])
yr_command_example =
    get_yr_command_lem kermit warning_1 3 100 900 (omega arith) (omega arith) (omega arith)
