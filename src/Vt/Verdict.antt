-- ===== src/Vt/Verdict.antt =====
-- vt.go: resolveHash. An answer is a verdict, a status other than 200, or an error of the request or
-- of its decoding, with the text that the error has.
pub mod Misread
use efe_process_monitor.Common.{
  ℕ, Option, none, some, [], ◌++◌, list_eq, nat_eq, ◌=?◌, if◌then◌else◌,
}
use efe_process_monitor.Common.Texts.{Text, codes, contains}
use efe_process_monitor.Common.Ints.{itoa}

pub data Answer : Type 0 where
  verdict : ℕ → ℕ → Answer
  status : ℕ → Answer
  failed : Text → Answer

-- What is saved for the hash when its request failed with an error of this text.
abbrev pub saved_on_error : Text → Option Text
saved_on_error message = if contains message (codes "404") then some (codes "NOT_IN_VT") else none

-- What is saved for the hash, if anything is.
unfoldable pub resolve_hash : Text → Answer → Option Text
resolve_hash vt_key answer = if vt_key =? [] then none else elim answer [
  | verdict malicious undetected ↦ some (itoa malicious ++ (codes "/" ++ itoa undetected))
  | status n ↦ saved_on_error (codes "status " ++ itoa n)
  | failed message ↦ saved_on_error message
]
