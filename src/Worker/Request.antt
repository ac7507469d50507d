-- ===== src/Worker/Request.antt =====
-- The requests of urg_node/include/uam/workers/uam_worker_base.h and
-- urg_node/include/uam/workers/yr_worker.h, and their encoding.
pub mod Framing
pub mod AreaFraming
use urg_node.Prelude.{ℕ, [], ◌∷◌, ◌++◌}
use urg_node.Codec.Bytes.{Bytes}
use urg_node.Codec.Hex.{to_hex_string}
use urg_node.Protocol.Header.{CommandRequest, stx_id, etx_id, request_size}
use urg_node.Protocol.Area.{YrCommandRequest, EyrAreaType, area_type_code, yr_request_size}
use urg_node.Worker.Crc.{Crc}

-- The part of a request that its checksum covers.
abbrev pub request_body : CommandRequest → Bytes
request_body msg =
    to_hex_string 4 msg.header.cmd_size
    ++ (msg.header.header.0 ∷ msg.header.header.1 ∷ msg.header.sub_header.0
        ∷ msg.header.sub_header.1 ∷ [])

-- `calculateCrc(msg)`.
unfoldable pub calculate_crc : Crc → CommandRequest → ℕ
calculate_crc crc msg = crc.checksum (request_body msg)

-- `encodeCommand(request)`.
unfoldable pub encode_command : CommandRequest → Bytes
encode_command request =
    (request.header.stx ∷ [])
    ++ (to_hex_string 4 request.header.cmd_size
        ++ ((request.header.header.0 ∷ request.header.header.1 ∷ request.header.sub_header.0
              ∷ request.header.sub_header.1 ∷ [])
            ++ (to_hex_string 4 request.footer.crc ++ (request.footer.etx ∷ []))))

-- The request of a worker, before and after its checksum is filled in.
abbrev pub blank_request : ℕ × ℕ → ℕ × ℕ → CommandRequest
blank_request header sub_header = record {
  header = record {
    stx = stx_id;
    cmd_size = request_size;
    header = header;
    sub_header = sub_header;
  };
  footer = record { crc = 0; etx = etx_id };
}

-- The constructor of `WorkerBase`.
unfoldable pub make_request : Crc → ℕ × ℕ → ℕ × ℕ → CommandRequest
make_request crc header sub_header =
    let blank = blank_request header sub_header in
    record blank { footer = record { crc = calculate_crc crc blank; etx = etx_id } }

-- `getCommand()`.
unfoldable pub get_command : Crc → ℕ × ℕ → ℕ × ℕ → Bytes
get_command crc header sub_header = encode_command (make_request crc header sub_header)

-- `calculateCrc` and `encodeCommand` of the YR worker.
abbrev pub yr_request_body : YrCommandRequest → Bytes
yr_request_body msg =
    to_hex_string 4 msg.header.cmd_size
    ++ ((msg.header.header.0 ∷ msg.header.header.1 ∷ [])
        ++ (to_hex_string 2 msg.header.area_type
            ++ (to_hex_string 2 msg.header.area_number
                ++ (to_hex_string 4 msg.header.start_step
                    ++ (to_hex_string 4 msg.header.end_step
                        ++ to_hex_string 2 msg.header.resolution)))))

unfoldable pub calculate_yr_crc : Crc → YrCommandRequest → ℕ
calculate_yr_crc crc msg = crc.checksum (yr_request_body msg)

unfoldable pub encode_yr_command : YrCommandRequest → Bytes
encode_yr_command request =
    (request.header.stx ∷ [])
    ++ (to_hex_string 4 request.header.cmd_size
        ++ ((request.header.header.0 ∷ request.header.header.1 ∷ [])
            ++ (to_hex_string 2 request.header.area_type
                ++ (to_hex_string 2 request.header.area_number
                    ++ (to_hex_string 4 request.header.start_step
                        ++ (to_hex_string 4 request.header.end_step
                            ++ (to_hex_string 2 request.header.resolution
                                ++ (to_hex_string 4 request.footer.crc
                                    ++ (request.footer.etx ∷ [])))))))))

abbrev pub yr_request : EyrAreaType → ℕ → ℕ → ℕ → ℕ → YrCommandRequest
yr_request area_type area_number start_step end_step checksum = record {
  header = record {
    stx = stx_id;
    cmd_size = yr_request_size;
    header = (b'Y', b'R');
    area_type = area_type_code area_type;
    area_number = area_number;
    start_step = start_step;
    end_step = end_step;
    resolution = 1;
  };
  footer = record { crc = checksum; etx = etx_id };
}

-- `getCommand(area_type, area_number, start_step, end_step)`. The checksum does not cover the footer.
unfoldable pub get_yr_command : Crc → EyrAreaType → ℕ → ℕ → ℕ → Bytes
get_yr_command crc area_type area_number start_step end_step =
    let checksum = calculate_yr_crc crc (yr_request area_type area_number start_step end_step 0) in
    encode_yr_command (yr_request area_type area_number start_step end_step checksum)
