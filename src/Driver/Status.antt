-- ===== src/Driver/Status.antt =====
-- The NTSTATUS values that HidHide/src/Config.c and HidHide/src/Logic.c name. Their numbers are
-- those of the Windows headers, which the code never computes with: it compares them for equality
-- and asks NT_SUCCESS. A status that only the kernel returns is `other_success` or `other_failure`.
use hid_hide.Prelude.{ℕ, Bool, true, false}

pub data NtStatus : Type 0 where
  success process_in_job process_not_in_job : NtStatus
  buffer_overflow object_name_not_found object_type_mismatch : NtStatus
  invalid_parameter unsuccessful no_memory insufficient_resources : NtStatus
  already_initialized buffer_too_small access_denied : NtStatus
  other_success other_failure : ℕ → NtStatus

-- NT_SUCCESS: success and information codes pass, warnings and errors do not.
abbrev pub nt_success : NtStatus → Bool
nt_success success = true
nt_success process_in_job = true
nt_success process_not_in_job = true
nt_success (other_success n) = true
nt_success _ = false

abbrev pub is_process_in_job : NtStatus → Bool
is_process_in_job process_in_job = true
is_process_in_job _ = false

abbrev pub is_process_not_in_job : NtStatus → Bool
is_process_not_in_job process_not_in_job = true
is_process_not_in_job _ = false

abbrev pub is_already_initialized : NtStatus → Bool
is_already_initialized already_initialized = true
is_already_initialized _ = false

abbrev pub is_object_name_not_found : NtStatus → Bool
is_object_name_not_found object_name_not_found = true
is_object_name_not_found _ = false

abbrev pub is_buffer_overflow : NtStatus → Bool
is_buffer_overflow buffer_overflow = true
is_buffer_overflow _ = false
