-- ===== src/Auth/Login.antt =====
-- auth.go: handleLogin and handleLogout, without the pages that they render.
pub mod Laws
use efe_process_monitor.Common.{
  ℕ, ◌+◌, ◌/◌, Bool, true, false, not, Option, none, some, [], list_eq, nat_eq, ◌=?◌, if◌then◌else◌,
}
use efe_process_monitor.Common.Texts.{Text, codes}
use efe_process_monitor.Auth.{AuthState, second}
use efe_process_monitor.Auth.Backoff.{login_locked, record_login_fail, reset_login_fails}
use efe_process_monitor.Auth.Sessions.{
  session_ttl, auth_enabled, check_password, new_session, drop_session,
}

-- What handleLogin answers: a redirect to the panel, with the cookie that it sets, or the form,
-- plain, with the error, or with the seconds left of a lockout.
pub data LoginPage : Type 0 where
  to_panel : Option Text → LoginPage
  form failed : LoginPage
  locked : ℕ → LoginPage

module _ (hash_matches : Text → Text → Bool) where
  -- The POST: the address, the password given, and the random token of a session that may start.
  -- The half second of sleep after a failure is left out.
  unfoldable pub login_post : ℕ → Text → Text → Text → AuthState → AuthState × LoginPage
  login_post now ip pw tok s = elim (login_locked now ip s) [
    | some remain ↦ (s, locked (remain / second + 1))
    | none ↦
        if check_password hash_matches pw s
        then (let (s', sid) = new_session now session_ttl tok (reset_login_fails ip s) in
            (s', to_panel (some sid)))
        else (record_login_fail now ip s, failed)
  ]

  unfoldable pub handle_login : Text → ℕ → Text → Text → Text → AuthState → AuthState × LoginPage
  handle_login method now ip pw tok s =
      if not (auth_enabled s)
      then (s, to_panel none)
      else if method =? codes "POST"
      then login_post now ip pw tok s
      else (s, form)

-- The state after handleLogout.
pub handle_logout : Option Text → AuthState → AuthState
handle_logout cookie s = if not (auth_enabled s) then s else drop_session cookie s
