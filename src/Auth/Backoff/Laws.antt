-- ===== src/Auth/Backoff/Laws.antt =====
-- What the login backoff guarantees to each address.
use efe_process_monitor.Common.{
  ℕ, zero, suc, ◌+◌, ◌-◌, ◌*◌, ◌^◌, ◌≤◌, ◌<◌, ◌≡◌, ◌≢◌, ◌⊎◌, false, not, none, some, [], list_eq,
  nat_eq, length, ltb, if◌then◌else◌, arith, list_beq_iff, ◌=?◌, true, Bool-cases, Option-cases,
  inl, inr,
}
use efe_process_monitor.Common.Maps.{
  lookup, keep, lookup-insert, lookup-keep, lookup-delete, length-insert, length-keep,
}
use efe_process_monitor.Common.Texts.{Text}
use efe_process_monitor.Auth.{AuthState, second, minute}
use efe_process_monitor.Auth.Backoff.{
  max_lock_entries, is_past, sweep_locks, prune_locks, login_locked, count_of, lock_duration,
  record_login_fail, reset_login_fails,
}

doubled : (k : ℕ) → k ≤ 5 → (30 * second ≤ 30 * second * 2 ^ k)
doubled zero h = omega arith
doubled (suc zero) h = omega arith
doubled (suc (suc zero)) h = omega arith
doubled (suc (suc (suc zero))) h = omega arith
doubled (suc (suc (suc (suc zero)))) h = omega arith
doubled (suc (suc (suc (suc (suc zero))))) h = omega arith
doubled (suc (suc (suc (suc (suc (suc k)))))) h = omega arith

-- Every lockout lasts between 30 seconds and 15 minutes.
pub lock_duration_bounds :
    (n : ℕ) → (30 * second ≤ lock_duration n) × (lock_duration n ≤ 15 * minute)
unfolding lock_duration
lock_duration_bounds n = ground (arith, doubled 5, doubled (n - 5))

-- What the sweep leaves at an address.
lookup-prune_fails :
    (now : ℕ) (ip : Text) (s : AuthState)
    → (lookup ip (prune_locks now s).login_fails ≡ none)
      ⊎ (lookup ip (prune_locks now s).login_fails
          ≡ (if is_past now (lookup ip s.lock_until) then none else lookup ip s.login_fails))
unfolding prune_locks sweep_locks lookup
lookup-prune_fails now ip s =
    ground
      (arith, lookup-keep ip (λ ip n. not (is_past now (lookup ip s.lock_until))) s.login_fails)

pub lookup-prune_locks :
    (now : ℕ) (ip : Text) (s : AuthState)
    → (lookup ip (prune_locks now s).lock_until ≡ none)
      ⊎ ((lookup ip (prune_locks now s).lock_until ≡ lookup ip s.lock_until)
          × (is_past now (lookup ip s.lock_until) ≡ false))
unfolding prune_locks sweep_locks lookup
lookup-prune_locks now ip s =
    ground (arith, lookup-keep ip (λ ip until. not (ltb until now)) s.lock_until)

locked_live :
    (now later n : ℕ) (ip : Text) (s : AuthState)
    → lookup ip s.login_fails ≡ some n
    → 4 ≤ n
    → is_past now (lookup ip s.lock_until) ≡ false
    → length s.login_fails ≤ max_lock_entries
    → later < now + lock_duration (n + 1)
    → login_locked later ip (record_login_fail now ip s)
      ≡ some (now + lock_duration (n + 1) - later)
unfolding record_login_fail login_locked prune_locks sweep_locks
locked_live now later n ip s f many live room soon =
    let p = λ (ip : Text) (n : ℕ). not (is_past now (lookup ip s.lock_until)) in
    let locks = keep (λ (ip : Text) (until : ℕ). not (ltb until now)) s.lock_until in
    ground (
      arith,
      length-keep p s.login_fails,
      lookup-keep ip p s.login_fails,
      lookup-insert ip ip (now + lock_duration (n + 1)) locks,
      list_beq_iff ip ip,
    )

-- The first failure after a lockout is over starts the count again at one, with no lock.
pub record_login_fail_after_lock :
    (now until : ℕ) (ip : Text) (s : AuthState)
    → lookup ip s.lock_until ≡ some until
    → until < now
    → (lookup ip (record_login_fail now ip s).login_fails ≡ some 1)
      × (lookup ip (record_login_fail now ip s).lock_until ≡ none)
unfolding record_login_fail
record_login_fail_after_lock now until ip s l over =
    let t = prune_locks now s in
    ground (
      arith,
      lookup-prune_fails now ip s,
      lookup-prune_locks now ip s,
      list_beq_iff ip ip,
      lookup-insert ip ip (count_of (lookup ip t.login_fails) + 1) t.login_fails,
    )

unlocked_over :
    (now later : ℕ) (ip : Text) (s : AuthState)
    → is_past now (lookup ip s.lock_until) ≡ true
    → login_locked later ip (record_login_fail now ip s) ≡ none
unfolding login_locked
unlocked_over now later ip s p = elim (Option-cases (lookup ip s.lock_until)) [
  | inl e ↦ ground (arith)
  | inr (until, e) ↦
      let over = record_login_fail_after_lock now until ip s e (ground arith) in
      ground (arith, over)
]

-- With room in the table, a failure of an address with four failures or more on record locks it from
-- then on, for the length of the lockout of that failure. It does not where the address has a lock that
-- is over: then the address is not locked after the failure.
pub login_locked-record_login_fail :
    (now later n : ℕ) (ip : Text) (s : AuthState)
    → lookup ip s.login_fails ≡ some n
    → 4 ≤ n
    → length s.login_fails ≤ max_lock_entries
    → later < now + lock_duration (n + 1)
    → login_locked later ip (record_login_fail now ip s) ≡ (
        if is_past now (lookup ip s.lock_until)
        then none
        else some (now + lock_duration (n + 1) - later))
login_locked-record_login_fail now later n ip s f many room soon =
    elim (Bool-cases (is_past now (lookup ip s.lock_until))) [
      | inl p ↦ rw p (unlocked_over now later ip s p)
      | inr p ↦ rw p (locked_live now later n ip s f many p room soon)
    ]

-- A failure from one address never locks another: whoever is locked afterwards was locked before,
-- for as long.
pub record_login_fail_others :
    (now later : ℕ) (ip other : Text) (s : AuthState)
    → ip ≢ other
    → (login_locked later other (record_login_fail now ip s) ≡ none)
      ⊎ (login_locked later other (record_login_fail now ip s) ≡ login_locked later other s)
unfolding record_login_fail login_locked
record_login_fail_others now later ip other s ne =
    let t = prune_locks now s in
    let n = count_of (lookup ip t.login_fails) + 1 in
    ground (
      arith,
      lookup-prune_locks now other s,
      list_beq_iff ip other,
      lookup-insert other ip (now + lock_duration n) t.lock_until,
    )

-- The failure counts never hold more than 1025 addresses, whatever the state before.
pub length-record_login_fail :
    (now : ℕ) (ip : Text) (s : AuthState)
    → length (record_login_fail now ip s).login_fails ≤ max_lock_entries + 1
unfolding record_login_fail prune_locks
length-record_login_fail now ip s =
    let t = prune_locks now s in
    let n = count_of (lookup ip t.login_fails) + 1 in
    ground (
      arith,
      length-insert ip n (sweep_locks now s).login_fails,
      length-insert ip n ([]),
      length-insert ip n t.login_fails,
    )

-- A good login clears the count and the lock of its address and of no other.
pub reset_login_fails_lem :
    (ip other : Text) (s : AuthState)
    → (lookup other (reset_login_fails ip s).login_fails
        ≡ (if ip =? other then none else lookup other s.login_fails))
      × (lookup other (reset_login_fails ip s).lock_until
          ≡ (if ip =? other then none else lookup other s.lock_until))
unfolding reset_login_fails
reset_login_fails_lem ip other s =
    (lookup-delete other ip s.login_fails, lookup-delete other ip s.lock_until)
