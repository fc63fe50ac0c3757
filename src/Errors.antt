-- ===== src/Errors.antt =====
-- Headers/DebugServer2/Core/ErrorCodes.h: the error codes, with the numbers that go over the wire.
use ds.Base.{ℕ, Bytes, codes}

pub data ErrorCode : Type 0 where
  success no_permission not_found process_not_found interrupted invalid_handle : ErrorCode
  no_memory access_denied invalid_address busy already_exist no_device : ErrorCode
  not_directory is_directory invalid_argument too_many_system_files : ErrorCode
  too_many_files file_too_big no_space invalid_seek not_writeable name_too_long : ErrorCode
  unknown unsupported : ErrorCode

unfoldable pub error_number : ErrorCode → ℕ
error_number success = 0
error_number no_permission = 1
error_number not_found = 2
error_number process_not_found = 3
error_number interrupted = 4
error_number invalid_handle = 9
error_number no_memory = 12
error_number access_denied = 13
error_number invalid_address = 14
error_number busy = 16
error_number already_exist = 17
error_number no_device = 19
error_number not_directory = 20
error_number is_directory = 21
error_number invalid_argument = 22
error_number too_many_system_files = 23
error_number too_many_files = 24
error_number file_too_big = 27
error_number no_space = 28
error_number invalid_seek = 29
error_number not_writeable = 30
error_number name_too_long = 91
error_number unknown = 9999
error_number unsupported = 10000

-- GetErrorCodeString of Sources/Core/ErrorCodes.cpp.
unfoldable pub error_string : ErrorCode → Bytes
error_string success = codes "success"
error_string no_permission = codes "no permission"
error_string not_found = codes "file not found"
error_string process_not_found = codes "process not found"
error_string interrupted = codes "interrupted"
error_string invalid_handle = codes "invalid handle"
error_string no_memory = codes "no memory"
error_string access_denied = codes "access denied"
error_string invalid_address = codes "invalid address"
error_string busy = codes "busy"
error_string already_exist = codes "file already exists"
error_string no_device = codes "no device"
error_string not_directory = codes "not a directory"
error_string is_directory = codes "is a directory"
error_string invalid_argument = codes "invalid argument"
error_string too_many_system_files = codes "too many files open in the system"
error_string too_many_files = codes "too many files open in the process"
error_string file_too_big = codes "file too big"
error_string no_space = codes "no space available"
error_string invalid_seek = codes "invalid seek offset"
error_string not_writeable = codes "not writeable"
error_string name_too_long = codes "name too long"
error_string unsupported = codes "operation not supported"
error_string unknown = codes "unknown"
