-- ===== src/Status.antt =====
-- kernel/include/emos/status.h and boot/include/eboot/status.h: the status codes that the modelled
-- functions return, `JSON_SYNTAX_ERR` of boot/include/eboot/json.h, and `CHECK_SUCCESS`.
use emos.Base.{ℕ, ◌==◌, ◌/◌, ◌%◌, ◌^◌, Bool}

pub data Status : Type 0 where
  success : Status
  mutex_locked : Status
  unknown_error : Status
  invalid_value : Status
  unexpected_result : Status
  conflicting_state : Status
  syntax_error : Status
  end_of_list : Status
  entry_not_found : Status
  buffer_too_small : Status
  page_not_present : Status
  insufficient_memory : Status
  thread_not_finished : Status
  invalid_thread : Status
  end_of_file : Status
  size_check_failure : Status
  invalid_signature : Status
  json_syntax_err : Status

-- The number behind each name.
unfoldable pub code : Status → ℕ
code Status.success = 0x0000_0000
code Status.mutex_locked = 0x0000_0003
code Status.unknown_error = 0x8000_0000
code Status.unexpected_result = 0x8000_0002
code Status.invalid_value = 0x8000_0004
code Status.entry_not_found = 0x8000_0006
code Status.conflicting_state = 0x8000_000c
code Status.end_of_list = 0x8000_000d
code Status.syntax_error = 0x8000_0010
code Status.buffer_too_small = 0x8000_0016
code Status.page_not_present = 0x8000_0017
code Status.insufficient_memory = 0x8000_0018
code Status.thread_not_finished = 0x8000_001a
code Status.invalid_thread = 0x8000_001b
code Status.end_of_file = 0x8000_0011
code Status.size_check_failure = 0x8000_0013
code Status.invalid_signature = 0x8000_0003
code Status.json_syntax_err = 0xffff_ffff

-- `CHECK_SUCCESS`: the top bit of the 32 is clear.
unfoldable pub check_success : Status → Bool
unfolding code
check_success s = code s / 2 ^ 31 % 2 == 0
