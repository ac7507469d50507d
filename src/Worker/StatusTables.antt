-- ===== src/Worker/StatusTables.antt =====
-- The look up of urg_node/include/uam/uam_error_codes.h in `validateStatus`.
use urg_node.Prelude.{◌≡◌, ◌≢◌, refl, some}
use urg_node.Worker.Status.{
  EStatusErrorCodes, no_error, command_invalid_fields, command_without_stx,
  command_header_with_unspecified_chars, data_with_unspecified_chars, data_size_mismatch,
  crc_mismatch, unspecified_command_0, unspecified_command_1, sub_header_out_of_range,
  sub_header_nan, incomplete_configuration, cannot_process_commands, status_code, find_code,
  EyrStatusErrorCodes, yr_no_error, area_type_group_count_exceeded, start_end_step_misconfig,
  area_nr_exceeded_max, area_nr_exceeds_active_area_cound, protection_area2_not_active,
  warning1_not_active, warning2_not_active, muting1_not_active, muting2_not_active,
  reference_data_not_active, reference_max_data_not_active, reference_min_data_not_active,
  yr_status_code, known, known_yr, validate_status, validate_yr_status,
}

-- Each of the common status codes but the one of no error is refused with that code's own message.
pub validate_status-status_code :
    (c : EStatusErrorCodes) → c ≢ no_error → validate_status (status_code c) ≡ some (known c)
unfolding validate_status find_code
validate_status-status_code no_error h = absurd (h refl)
validate_status-status_code command_invalid_fields h = refl
validate_status-status_code command_without_stx h = refl
validate_status-status_code command_header_with_unspecified_chars h = refl
validate_status-status_code data_with_unspecified_chars h = refl
validate_status-status_code data_size_mismatch h = refl
validate_status-status_code crc_mismatch h = refl
validate_status-status_code unspecified_command_0 h = refl
validate_status-status_code unspecified_command_1 h = refl
validate_status-status_code sub_header_out_of_range h = refl
validate_status-status_code sub_header_nan h = refl
validate_status-status_code incomplete_configuration h = refl
validate_status-status_code cannot_process_commands h = refl

-- The YR worker refuses each of its own status codes but the one of no error with that code's own
-- message, also where the code is one of the common table.
pub validate_yr_status-yr_status_code :
    (c : EyrStatusErrorCodes)
    → c ≢ yr_no_error
    → validate_yr_status (yr_status_code c) ≡ some (known_yr c)
unfolding validate_yr_status find_code
validate_yr_status-yr_status_code yr_no_error h = absurd (h refl)
validate_yr_status-yr_status_code area_type_group_count_exceeded h = refl
validate_yr_status-yr_status_code start_end_step_misconfig h = refl
validate_yr_status-yr_status_code area_nr_exceeded_max h = refl
validate_yr_status-yr_status_code area_nr_exceeds_active_area_cound h = refl
validate_yr_status-yr_status_code protection_area2_not_active h = refl
validate_yr_status-yr_status_code warning1_not_active h = refl
validate_yr_status-yr_status_code warning2_not_active h = refl
validate_yr_status-yr_status_code muting1_not_active h = refl
validate_yr_status-yr_status_code muting2_not_active h = refl
validate_yr_status-yr_status_code reference_data_not_active h = refl
validate_yr_status-yr_status_code reference_max_data_not_active h = refl
validate_yr_status-yr_status_code reference_min_data_not_active h = refl
