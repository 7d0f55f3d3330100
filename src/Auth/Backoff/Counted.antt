-- ===== src/Auth/Backoff/Counted.antt =====
-- How many failures are on record for an address, and the lock that the next one sets.
use efe_process_monitor.Common.{
  ℕ, ◌+◌, ◌*◌, ◌≤◌, ◌≡◌, ◌≢◌, ◌⊎◌, false, not, none, some, [], list_eq, nat_eq, ltb, arith,
  list_beq_iff,
}
use efe_process_monitor.Common.Maps.{Map, lookup, lookup-insert, lookup-keep}
use efe_process_monitor.Common.Texts.{Text}
use efe_process_monitor.Auth.{AuthState, second}
use efe_process_monitor.Auth.Backoff.{
  is_past, sweep_locks, prune_locks, login_locked, count_of, lock_duration, record_login_fail,
  reset_login_fails,
}
use efe_process_monitor.Auth.Backoff.Laws.{reset_login_fails_lem, lookup-prune_locks}

-- The sweep takes a count and its lock away together, or leaves both.
lookup-prune_both :
    (now : ℕ) (ip : Text) (s : AuthState)
    → let t = prune_locks now s in
      (lookup ip t.login_fails ≡ none)
      ⊎ ((lookup ip t.login_fails ≡ lookup ip s.login_fails)
          × (lookup ip t.lock_until ≡ lookup ip s.lock_until)
          × (is_past now (lookup ip s.lock_until) ≡ false))
unfolding prune_locks sweep_locks lookup
lookup-prune_both now ip s = ground (
  arith,
  lookup-keep ip (λ ip n. not (is_past now (lookup ip s.lock_until))) s.login_fails,
  lookup-keep ip (λ ip until. not (ltb until now)) s.lock_until,
)

-- At most five failures are on record for an address, and the fifth only behind a lock.
pub record IsCounted (ip : Text) (s : AuthState) : Type 0 where
  pub few : count_of (lookup ip s.login_fails) ≤ 5
  pub fifth_locked : count_of (lookup ip s.login_fails) ≡ 5 → lookup ip s.lock_until ≢ none

lookup-nil : (ip : Text) (m : Map Text ℕ) → m ≡ [] → lookup ip m ≡ none
unfolding lookup
lookup-nil ip m e = rw e

pub IsCounted-fresh : (ip : Text) (s : AuthState) → s.login_fails ≡ [] → IsCounted ip s
IsCounted-fresh ip s e = ground (arith, lookup-nil ip s.login_fails e)

pub record_login_fail-IsCounted :
    (now : ℕ) (ip other : Text) (s : AuthState)
    → login_locked now ip s ≡ none
    → lookup ip s.lock_until ≢ some now
    → IsCounted other s
    → IsCounted other (record_login_fail now ip s)
unfolding record_login_fail login_locked
record_login_fail-IsCounted now ip other s free instant h =
    let t = prune_locks now s in
    let n = count_of (lookup ip t.login_fails) + 1 in
    ground (
      arith,
      lookup-prune_both now ip s,
      lookup-prune_both now other s,
      list_beq_iff ip other,
      lookup-insert other ip n t.login_fails,
      lookup-insert other ip (now + lock_duration n) t.lock_until,
    )

pub reset_login_fails-IsCounted :
    (ip other : Text) (s : AuthState) → IsCounted other s → IsCounted other (reset_login_fails ip s)
reset_login_fails-IsCounted ip other s h = ground (arith, reset_login_fails_lem ip other s)

lock_first : (n : ℕ) → n ≡ 5 → lock_duration n ≡ 30 * second
unfolding lock_duration
lock_first n e = rw e

-- The lock that a failure sets on a counted address is the first one, of 30 seconds.
pub lookup-record_login_fail :
    (now : ℕ) (ip : Text) (s : AuthState)
    → login_locked now ip s ≡ none
    → lookup ip s.lock_until ≢ some now
    → IsCounted ip s
    → let lock = lookup ip (record_login_fail now ip s).lock_until in
      (lock ≡ none) ⊎ (lock ≡ some (now + 30 * second))
unfolding record_login_fail login_locked
lookup-record_login_fail now ip s free instant h =
    let t = prune_locks now s in
    let n = count_of (lookup ip t.login_fails) + 1 in
    ground (
      arith,
      lookup-prune_both now ip s,
      lookup-prune_locks now ip s,
      list_beq_iff ip ip,
      lookup-insert ip ip n t.login_fails,
      lock_first n,
      lookup-insert ip ip (now + lock_duration n) t.lock_until,
    )
