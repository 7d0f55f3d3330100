-- ===== src/Auth/Login/Laws.antt =====
-- Logins one after the other.
use efe_process_monitor.Common.{
  ℕ, ◌+◌, ◌*◌, ◌/◌, ◌≡◌, ◌≢◌, ◌⊎◌, Bool, true, none, some, [], list_eq, nat_eq, arith, list_beq_iff,
  leb,
}
use efe_process_monitor.Common.Texts.{Text, codes}
use efe_process_monitor.Common.Maps.{lookup}
use efe_process_monitor.Auth.{AuthState, second}
use efe_process_monitor.Auth.Backoff.{login_locked, record_login_fail, reset_login_fails}
use efe_process_monitor.Auth.Sessions.{
  session_ttl, auth_enabled, check_password, is_authed, new_session,
}
use efe_process_monitor.Auth.Sessions.Laws.{valid_session-new_session}
use efe_process_monitor.Auth.Backoff.Counted.{
  IsCounted, IsCounted-fresh, lookup-record_login_fail, record_login_fail-IsCounted,
  reset_login_fails-IsCounted,
}
use efe_process_monitor.Auth.Login.{to_panel, locked, login_post, handle_login}

module _ (hash_matches : Text → Text → Bool) where
  -- While an address is locked out, no password gets in, not even the right one, and a login
  -- attempt changes nothing.
  pub handle_login-locked :
      (now ip_lock : ℕ) (ip pw tok : Text) (s : AuthState)
      → login_locked now ip s ≡ some ip_lock
      → auth_enabled s ≡ true
      → handle_login hash_matches (codes "POST") now ip pw tok s
        ≡ (s, locked (ip_lock / second + 1))
  unfolding handle_login login_post
  handle_login-locked now ip_lock ip pw tok s l on = rw on (rw (l, login_post))

  -- A POST starts a session only where its address is not locked out and its password matches; the
  -- session is then accepted for twelve hours.
  pub handle_login-session :
      (now later : ℕ) (ip pw tok : Text) (s s' : AuthState) (sid : Text)
      → handle_login hash_matches (codes "POST") now ip pw tok s ≡ (s', to_panel (some sid))
      → sid ≢ []
      → (login_locked now ip s ≡ none)
        × (check_password hash_matches pw s ≡ true)
        × ((is_authed later (some sid) s').1 ≡ leb later (now + session_ttl))
  unfolding handle_login login_post new_session is_authed
  handle_login-session now later ip pw tok s s' sid e ne = ground (
    arith,
    valid_session-new_session now session_ttl later tok (reset_login_fails ip s),
    list_beq_iff tok [],
  )

  -- States that logins lead to, one after the other, none at the very instant at which the lock of
  -- its address ends.
  pub data Reaches (s : AuthState) : AuthState → Type 0 where
    here : Reaches s s
    attempt :
        {t : AuthState}
        → Reaches s t
        → (now : ℕ) (ip pw tok : Text) → lookup ip t.lock_until ≢ some now
        → Reaches s (handle_login hash_matches (codes "POST") now ip pw tok t).0

  handle_login-IsCounted :
      (now : ℕ) (ip pw tok other : Text) (s : AuthState)
      → lookup ip s.lock_until ≢ some now
      → IsCounted other s
      → IsCounted other (handle_login hash_matches (codes "POST") now ip pw tok s).0
  unfolding handle_login login_post new_session
  handle_login-IsCounted now ip pw tok other s instant h =
      ground
        (arith, record_login_fail-IsCounted now ip other s, reset_login_fails-IsCounted ip other s)

  Reaches-IsCounted : {s t : AuthState} (ip : Text) → IsCounted ip s → Reaches s t → IsCounted ip t
  Reaches-IsCounted ip h here = h
  Reaches-IsCounted ip h (attempt {t} r now from pw tok instant) =
      handle_login-IsCounted now from pw tok ip t instant (Reaches-IsCounted ip h r)

  -- From a start with no failure on record, and by logins one after the other, none at the very
  -- instant at which the lock of its address ends, no failure ever sets a lock of more than the
  -- first 30 seconds: the doubling for later failures is never reached.
  pub Reaches-lockout :
      {s t : AuthState} (now : ℕ) (ip : Text)
      → s.login_fails ≡ []
      → Reaches s t
      → login_locked now ip t ≡ none
      → lookup ip t.lock_until ≢ some now
      → let lock = lookup ip (record_login_fail now ip t).lock_until in
        (lock ≡ none) ⊎ (lock ≡ some (now + 30 * second))
  Reaches-lockout {s} {t} now ip fresh r free instant =
      lookup-record_login_fail now ip t free instant
        (Reaches-IsCounted ip (IsCounted-fresh ip s fresh) r)
