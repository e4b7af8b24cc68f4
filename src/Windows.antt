-- ===== src/Windows.antt =====
-- The documented values of the Windows headers that the source compares with. An `HRESULT` is its
-- 32-bit pattern: the sign bit is set exactly on failure.
use modern_sapi_adapter.Base.{ℕ, ◌+◌, ◌%◌, ◌^◌, Bool, leb, if◌then◌else◌}

abbrev pub s_ok : ℕ
s_ok = 0

abbrev pub s_false : ℕ
s_false = 1

abbrev pub e_fail : ℕ
e_fail = 0x80004005

abbrev pub e_unexpected : ℕ
e_unexpected = 0x8000ffff

abbrev pub e_abort : ℕ
e_abort = 0x80004004

abbrev pub e_pointer : ℕ
e_pointer = 0x80004003

abbrev pub e_invalidarg : ℕ
e_invalidarg = 0x80070057

abbrev pub e_outofmemory : ℕ
e_outofmemory = 0x8007000e

abbrev pub class_e_classnotavailable : ℕ
class_e_classnotavailable = 0x80040111

abbrev pub sperr_uninitialized : ℕ
sperr_uninitialized = 0x80045001

-- `ERROR_SUCCESS` and the error codes.
abbrev pub error_success : ℕ
error_success = 0

abbrev pub error_file_not_found : ℕ
error_file_not_found = 2

abbrev pub error_access_denied : ℕ
error_access_denied = 5

abbrev pub error_write_fault : ℕ
error_write_fault = 29

abbrev pub error_buffer_overflow : ℕ
error_buffer_overflow = 111

abbrev pub wait_timeout : ℕ
wait_timeout = 258

abbrev pub error_operation_aborted : ℕ
error_operation_aborted = 995

abbrev pub error_io_incomplete : ℕ
error_io_incomplete = 996

abbrev pub error_io_pending : ℕ
error_io_pending = 997

abbrev pub error_process_aborted : ℕ
error_process_aborted = 1067

abbrev pub error_not_found : ℕ
error_not_found = 1168

abbrev pub error_timeout : ℕ
error_timeout = 1460

abbrev pub failed : ℕ → Bool
failed hr = leb 0x80000000 hr

-- `HRESULT_FROM_WIN32`: a positive code gets the failure bit and the Win32 facility.
abbrev pub hresult_from_win32 : ℕ → ℕ
hresult_from_win32 code =
    if leb code 0 then code else if leb 0x80000000 code then code else code % 2 ^ 16 + 0x80070000

abbrev pub timed_out : ℕ
timed_out = hresult_from_win32 error_timeout

-- `HRESULT_CODE`.
abbrev pub hresult_code : ℕ → ℕ
hresult_code hr = hr % 2 ^ 16
