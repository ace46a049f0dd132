-- ===== src/Parse/Scan.antt =====
-- parse.rs: the loops that look for the first byte of a class. `scan` is their common loop: it
-- walks the bytes from `idx` on and returns the first index whose byte passes the test.
pub mod First
pub mod Bounds
use qhttp.Base.{
  ℕ, suc, ◌+◌, Bool, not, List, [], ◌∷◌, Option, none, some, Result, ok, err, ◌==◌, if◌then◌else◌,
  IoResult, IoError,
}
use qhttp.Parse.Chars.{sp, is_text, is_hex, is_token}

unfoldable pub scan : (ℕ → Bool) → List ℕ → ℕ → IoResult (Option ℕ)
scan stop [] idx = ok none
scan stop (b ∷ rest) idx =
    let later = scan stop rest (suc idx) in if stop b then ok (some idx) else later

unfoldable pub find_next_sp : List ℕ → IoResult (Option ℕ)
find_next_sp buf = scan (λ b. b == sp) buf 0

unfoldable pub find_text_end : List ℕ → IoResult (Option ℕ)
find_text_end buf = scan (λ b. not (is_text b)) buf 0

unfoldable pub find_hex_end : List ℕ → IoResult (Option ℕ)
find_hex_end buf = scan (λ b. not (is_hex b)) buf 0

unfoldable pub find_token_end : List ℕ → IoResult (Option ℕ)
find_token_end buf = scan (λ b. not (is_token b)) buf 0
