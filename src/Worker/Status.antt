-- ===== src/Worker/Status.antt =====
-- urg_node/include/uam/uam_error_codes.h, and `validateStatus` of
-- urg_node/include/uam/workers/uam_worker_base.h and urg_node/include/uam/workers/yr_worker.h. The text
-- of a message is the name of its code.
use urg_node.Prelude.{ℕ, Option, none, some, List, [], ◌∷◌, ◌==◌, if◌then◌else◌}

pub data EStatusErrorCodes : Type 0 where
  no_error command_invalid_fields command_without_stx : EStatusErrorCodes
  command_header_with_unspecified_chars data_with_unspecified_chars : EStatusErrorCodes
  data_size_mismatch crc_mismatch unspecified_command_0 unspecified_command_1 : EStatusErrorCodes
  sub_header_out_of_range sub_header_nan incomplete_configuration : EStatusErrorCodes
  cannot_process_commands : EStatusErrorCodes

abbrev pub status_code : EStatusErrorCodes → ℕ
status_code no_error = 0x00
status_code command_invalid_fields = 0x12
status_code command_without_stx = 0x31
status_code command_header_with_unspecified_chars = 0x34
status_code data_with_unspecified_chars = 0x35
status_code data_size_mismatch = 0x36
status_code crc_mismatch = 0x37
status_code unspecified_command_0 = 0x41
status_code unspecified_command_1 = 0x42
status_code sub_header_out_of_range = 0x44
status_code sub_header_nan = 0x45
status_code incomplete_configuration = 0x66
status_code cannot_process_commands = 0x73

pub data EyrStatusErrorCodes : Type 0 where
  yr_no_error area_type_group_count_exceeded start_end_step_misconfig : EyrStatusErrorCodes
  area_nr_exceeded_max area_nr_exceeds_active_area_cound : EyrStatusErrorCodes
  protection_area2_not_active warning1_not_active warning2_not_active : EyrStatusErrorCodes
  muting1_not_active muting2_not_active reference_data_not_active : EyrStatusErrorCodes
  reference_max_data_not_active reference_min_data_not_active : EyrStatusErrorCodes

abbrev pub yr_status_code : EyrStatusErrorCodes → ℕ
yr_status_code yr_no_error = 0x00
yr_status_code area_type_group_count_exceeded = 0x44
yr_status_code start_end_step_misconfig = 0x52
yr_status_code area_nr_exceeded_max = 0x54
yr_status_code area_nr_exceeds_active_area_cound = 0x55
yr_status_code protection_area2_not_active = 0x81
yr_status_code warning1_not_active = 0x82
yr_status_code warning2_not_active = 0x83
yr_status_code muting1_not_active = 0x84
yr_status_code muting2_not_active = 0x85
yr_status_code reference_data_not_active = 0x86
yr_status_code reference_max_data_not_active = 0x87
yr_status_code reference_min_data_not_active = 0x88

-- The keys of the map `StatusErrorCodeToString`.
abbrev pub status_table : List EStatusErrorCodes
status_table =
    no_error ∷ command_invalid_fields ∷ command_without_stx ∷ command_header_with_unspecified_chars
    ∷ data_with_unspecified_chars ∷ data_size_mismatch ∷ crc_mismatch ∷ unspecified_command_0
    ∷ unspecified_command_1 ∷ sub_header_out_of_range ∷ sub_header_nan ∷ incomplete_configuration
    ∷ cannot_process_commands ∷ []

-- The keys of the map `YRStatusErrorCodeToString`.
abbrev pub yr_status_table : List EyrStatusErrorCodes
yr_status_table =
    yr_no_error ∷ area_type_group_count_exceeded ∷ start_end_step_misconfig ∷ area_nr_exceeded_max
    ∷ area_nr_exceeds_active_area_cound ∷ protection_area2_not_active ∷ warning1_not_active
    ∷ warning2_not_active ∷ muting1_not_active ∷ muting2_not_active ∷ reference_data_not_active
    ∷ reference_max_data_not_active ∷ reference_min_data_not_active ∷ []

-- `count` and `at` of a map from codes.
unfoldable pub find_code : {A : Type 0} → (A → ℕ) → List A → ℕ → Option A
find_code code [] status = none
find_code code (a ∷ as') status = if code a == status then some a else find_code code as' status

-- What is logged for a status other than 0.
pub data StatusMessage : Type 0 where
  known : EStatusErrorCodes → StatusMessage
  known_yr : EyrStatusErrorCodes → StatusMessage
  unknown : ℕ → StatusMessage

-- `validateStatus` of the base class: `none` is `true`, a message is `false`.
unfoldable pub validate_status : ℕ → Option StatusMessage
validate_status status =
    if status == 0 then none else elim (find_code status_code status_table status) [
      | some c ↦ some (known c)
      | none ↦ some (unknown status)
    ]

-- `validateStatus` of the YR worker: its own table comes first.
unfoldable pub validate_yr_status : ℕ → Option StatusMessage
validate_yr_status status =
    if status == 0 then none else elim (find_code yr_status_code yr_status_table status) [
      | some c ↦ some (known_yr c)
      | none ↦ elim (find_code status_code status_table status) [
        | some c ↦ some (known c)
        | none ↦ some (unknown status)
      ]
    ]
