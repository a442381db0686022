-- ===== src/Protocol/Error.antt =====
-- server/src/protocol/protocol_error.cpp: the codes of the protocol and what the server throws.
use tin_dox.Prelude.{ℕ, Bytes, codes, Result, err}

pub data ProtocolCode : Type 0 where
  ok : ProtocolCode
  too_long_line too_many_fields bad_field bad_command : ProtocolCode
  unknown not_logged_in invalid_field_value not_found no_upload_to_resume : ProtocolCode
  not_enough_perms user_already_logged invalid_credentials file_already_exists : ProtocolCode
  invalid_file_type dls_without_dl in_use wrong_upload_path not_a_directory : ProtocolCode
  too_large_file : ProtocolCode

-- `static_cast<int>(code)`.
unfoldable pub code_number : ProtocolCode → ℕ
code_number ProtocolCode.ok = 100
code_number ProtocolCode.too_long_line = 300
code_number ProtocolCode.too_many_fields = 301
code_number ProtocolCode.bad_field = 302
code_number ProtocolCode.bad_command = 303
code_number ProtocolCode.unknown = 401
code_number ProtocolCode.not_logged_in = 402
code_number ProtocolCode.invalid_field_value = 403
code_number ProtocolCode.not_found = 404
code_number ProtocolCode.no_upload_to_resume = 405
code_number ProtocolCode.not_enough_perms = 406
code_number ProtocolCode.user_already_logged = 407
code_number ProtocolCode.invalid_credentials = 408
code_number ProtocolCode.file_already_exists = 409
code_number ProtocolCode.invalid_file_type = 410
code_number ProtocolCode.dls_without_dl = 411
code_number ProtocolCode.in_use = 412
code_number ProtocolCode.wrong_upload_path = 413
code_number ProtocolCode.not_a_directory = 414
code_number ProtocolCode.too_large_file = 415

-- `TdpCategory::message`.
unfoldable pub category_message : ProtocolCode → Bytes
category_message ProtocolCode.ok = codes "no error"
category_message ProtocolCode.too_long_line = codes "received line is too long"
category_message ProtocolCode.too_many_fields = codes "received too many fields"
category_message ProtocolCode.bad_field = codes "invalid field"
category_message ProtocolCode.bad_command = codes "invalid command"
category_message ProtocolCode.not_enough_perms = codes "not enough permissions"
category_message ProtocolCode.unknown = codes "unknown"
category_message ProtocolCode.not_logged_in = codes "not logged in"
category_message ProtocolCode.invalid_field_value = codes "invalid field value in request"
category_message ProtocolCode.not_found = codes "file not found"
category_message ProtocolCode.no_upload_to_resume = codes "no upload to resume"
category_message ProtocolCode.user_already_logged = codes "user is already logged in"
category_message ProtocolCode.invalid_credentials = codes "invalid credentials (login or password)"
category_message ProtocolCode.file_already_exists = codes "file or directory already exists"
category_message ProtocolCode.invalid_file_type = codes "invalid file type"
category_message ProtocolCode.dls_without_dl = codes "download start requested without dl command"
category_message ProtocolCode.in_use = codes "file or directory is used by another user"
category_message ProtocolCode.wrong_upload_path = codes "wrong upload path"
category_message ProtocolCode.not_a_directory = codes "not a directory"
category_message ProtocolCode.too_large_file = codes "too large file"

-- `class ProtocolError`.
pub record ProtocolError : Type 0 where
  pub code : ProtocolCode
  pub message : Bytes

-- What a call may throw: a `ProtocolError`, or another `std::exception` with its `what()`. The source
-- never throws `running`: it stands for a loop that has not ended yet, which is the one of cp over
-- copy numbers, cut off by the model.
pub data Error : Type 0 where
  protocol : ProtocolError → Error
  fatal : Bytes → Error
  running : Error

-- `throw ProtocolError{code, message}` and `throw ProtocolError{code}`.
abbrev pub fail_with : ProtocolCode → Bytes → Error
fail_with c m = Error.protocol (record { code = c; message = m })

abbrev pub fail : ProtocolCode → Error
fail c = fail_with c (category_message c)

abbrev pub Outcome : Type 0 → Type 0
Outcome A = Result Error A

abbrev pub throw : {A : Type 0} → ProtocolCode → Bytes → Outcome A
throw c m = err (fail_with c m)
