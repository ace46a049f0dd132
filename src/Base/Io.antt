-- ===== src/Base/Io.antt =====
-- `std::io::Result`: errors are kept by their `ErrorKind`.
use qhttp.Base.Results.{Result}

pub data IoError : Type 0 where
  invalid_data invalid_input other unexpected_eof broken_pipe timed_out : IoError

abbrev pub IoResult : Type 0 → Type 0
IoResult A = Result IoError A
