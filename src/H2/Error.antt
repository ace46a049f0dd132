-- ===== src/H2/Error.antt =====
-- src/http2/error.rs: error codes, and errors of a stream or of the connection.
use qhttp.Base.{ℕ, Result}

pub data ErrorCode : Type 0 where
  no_error protocol_error internal_error flow_control_error settings_timeout : ErrorCode
  stream_closed frame_size_error refused_stream cancel compresssion_error : ErrorCode
  connect_error enhance_your_calm inadequate_security http11_required : ErrorCode

-- `code as u32`
abbrev pub code_number : ErrorCode → ℕ
code_number no_error = 0
code_number protocol_error = 1
code_number internal_error = 2
code_number flow_control_error = 3
code_number settings_timeout = 4
code_number stream_closed = 5
code_number frame_size_error = 6
code_number refused_stream = 7
code_number cancel = 8
code_number compresssion_error = 9
code_number connect_error = 10
code_number enhance_your_calm = 11
code_number inadequate_security = 12
code_number http11_required = 13

pub data H2Error : Type 0 where
  stream : ErrorCode → H2Error
  connection : ErrorCode → H2Error

unfoldable pub into_inner : H2Error → ErrorCode
into_inner (stream code) = code
into_inner (connection code) = code

abbrev pub H2Result : Type 0 → Type 0
H2Result A = Result H2Error A
