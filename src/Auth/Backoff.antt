-- ===== src/Auth/Backoff.antt =====
-- auth.go: pruneLocks, loginLocked, recordLoginFail and resetLoginFails.
pub mod Laws
pub mod Counted
use efe_process_monitor.Common.{
  ℕ, ◌+◌, ◌-◌, ◌*◌, ◌^◌, Bool, true, false, not, Option, none, some, [], list_eq, nat_eq, length,
  ltb, leb, if◌then◌else◌,
}
use efe_process_monitor.Common.Maps.{Map, lookup, insert, delete, keep}
use efe_process_monitor.Common.Texts.{Text}
use efe_process_monitor.Auth.{AuthState, second, minute}

abbrev pub lock_threshold : ℕ
lock_threshold = 5

abbrev pub max_lock_entries : ℕ
max_lock_entries = 1024

-- now.After(until)
abbrev pub is_past : ℕ → Option ℕ → Bool
is_past now none = false
is_past now (some until) = ltb until now

-- The sweep of the locks that are over: their failure counts go too.
pub sweep_locks : ℕ → AuthState → AuthState
sweep_locks now s = record s {
  login_fails = keep (λ ip n. not (is_past now (lookup ip s.lock_until))) s.login_fails;
  lock_until = keep (λ ip until. not (ltb until now)) s.lock_until;
}

pub prune_locks : ℕ → AuthState → AuthState
prune_locks now s =
    let s' = sweep_locks now s in
    if ltb max_lock_entries (length s'.login_fails)
    then record s' { login_fails = []; lock_until = [] }
    else s'

-- How long a login from this address stays blocked; `none` if it is not.
unfoldable pub login_locked : ℕ → Text → AuthState → Option ℕ
login_locked now ip s = elim (lookup ip s.lock_until) [
  | none ↦ none
  | some until ↦ if ltb now until then some (until - now) else none
]

abbrev pub count_of : Option ℕ → ℕ
count_of none = 0
count_of (some n) = n

-- The lockout at the n-th failure: 30 seconds, doubled for each failure past the fifth.
pub lock_duration : ℕ → ℕ
lock_duration n =
    let over = if ltb 5 (n - lock_threshold) then 5 else n - lock_threshold in
    let d = 30 * second * 2 ^ over in if ltb (15 * minute) d then 15 * minute else d

pub record_login_fail : ℕ → Text → AuthState → AuthState
record_login_fail now ip s =
    let s' = prune_locks now s in
    let n = count_of (lookup ip s'.login_fails) + 1 in
    let s'' = record s' { login_fails = insert ip n s'.login_fails } in
    if leb lock_threshold n
    then record s'' { lock_until = insert ip (now + lock_duration n) s''.lock_until }
    else s''

pub reset_login_fails : Text → AuthState → AuthState
reset_login_fails ip s = record s {
  login_fails = delete ip s.login_fails;
  lock_until = delete ip s.lock_until;
}
