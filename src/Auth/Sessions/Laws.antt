-- ===== src/Auth/Sessions/Laws.antt =====
-- What a session is good for, and for how long.
use efe_process_monitor.Common.{
  ℕ, ◌+◌, ◌≤◌, ◌≡◌, ◌≢◌, ◌⊎◌, true, false, not, Option, none, some, [], list_eq, nat_eq, length,
  ltb, leb, ◌=?◌, if◌then◌else◌, arith, list_beq_iff,
}
use efe_process_monitor.Common.Maps.{lookup, keep, lookup-insert, lookup-keep, lookup-delete}
use efe_process_monitor.Common.Texts.{Text}
use efe_process_monitor.Auth.{AuthState}
use efe_process_monitor.Auth.Sessions.{
  new_session, valid_session, is_authed, valid_local_token, set_auth_password, load_auth,
  drop_session, min_password_len,
}

-- A new session is accepted up to its end and refused after it.
pub valid_session-new_session :
    (now ttl later : ℕ) (tok : Text) (s : AuthState)
    → tok ≢ []
    → (valid_session later tok (new_session now ttl tok s).0).1 ≡ leb later (now + ttl)
unfolding valid_session new_session
valid_session-new_session now ttl later tok s ne = ground (
  arith,
  list_beq_iff tok [],
  list_beq_iff tok tok,
  lookup-insert tok tok (now + ttl) (keep (λ t exp. not (ltb exp now)) s.sessions),
)

-- A new session leaves every other session as good as it was, from then on.
pub valid_session-new_session_ne :
    (now ttl later : ℕ) (tok other : Text) (s : AuthState)
    → tok ≢ other
    → now ≤ later
    → (valid_session later other (new_session now ttl tok s).0).1 ≡ (valid_session later other s).1
unfolding valid_session new_session
valid_session-new_session_ne now ttl later tok other s ne after = ground (
  arith,
  list_beq_iff tok other,
  lookup-keep other (λ (t : Text) (exp : ℕ). not (ltb exp now)) s.sessions,
  lookup-insert other tok (now + ttl) (keep (λ t exp. not (ltb exp now)) s.sessions),
)

-- Setting, changing or clearing the password, and also a password that is refused, ends every
-- session.
pub valid_session-set_auth_password :
    (encode : Text → Text) (generate_hash : Text → Option Text) (pw tok : Text) (now : ℕ)
    (s : AuthState)
    → (valid_session now tok (set_auth_password encode generate_hash pw s).0).1 ≡ false
unfolding valid_session set_auth_password lookup
valid_session-set_auth_password encode generate_hash pw tok now s = ground arith

-- The password changes only where setAuthPassword returns no error: to the hash of a password of at
-- least eight bytes, or to none for the empty one. Otherwise the old one stands.
pub set_auth_password_hash :
    (encode : Text → Text) (generate_hash : Text → Option Text) (pw : Text) (s : AuthState)
    → let (s', e) = set_auth_password encode generate_hash pw s in
      ((e ≡ none) × (pw ≡ []) × (s'.auth_hash ≡ []))
      ⊎ ((e ≡ none) × (min_password_len ≤ length pw) × (generate_hash pw ≡ some s'.auth_hash))
      ⊎ ((e ≢ none) × (s'.auth_hash ≡ s.auth_hash))
unfolding set_auth_password
set_auth_password_hash encode generate_hash pw s = ground (arith, list_beq_iff pw [])

-- A session that was dropped is not accepted any more, and the others are as good as before.
pub valid_session-drop_session :
    (now : ℕ) (tok other : Text) (s : AuthState)
    → (valid_session now other (drop_session (some tok) s)).1
      ≡ (if tok =? other then false else (valid_session now other s).1)
unfolding valid_session drop_session
valid_session-drop_session now tok other s =
    ground (arith, list_beq_iff tok other, lookup-delete other tok s.sessions)

-- What setAuthPassword writes to .env is read back at the next start: a password that was set or
-- cleared is the one in force, if base64 decodes what it encoded and a hash is not empty.
pub load_auth-set_auth_password :
    (encode : Text → Text) (decode : Text → Option Text) (generate_hash : Text → Option Text)
    (pw : Text) (s fresh : AuthState)
    → ((h : Text) → decode (encode h) ≡ some h)
    → ((h : Text) → encode h ≡ [] → h ≡ [])
    → (set_auth_password encode generate_hash pw s).1 ≡ none
    → let s' = (set_auth_password encode generate_hash pw s).0 in
      (load_auth decode s'.env_hash fresh).auth_hash ≡ s'.auth_hash
unfolding load_auth set_auth_password
load_auth-set_auth_password encode decode generate_hash pw s fresh inverse nonempty e =
    grind (arith, list_beq_iff, inverse, nonempty)

-- Looking at a cookie changes neither the password nor the local token.
pub is_authed_keeps :
    (now : ℕ) (c : Option Text) (s : AuthState)
    → ((is_authed now c s).0.auth_hash ≡ s.auth_hash)
      × ((is_authed now c s).0.local_token ≡ s.local_token)
unfolding is_authed valid_session
is_authed_keeps now none s = ground arith
is_authed_keeps now (some tok) s = ground arith

pub valid_local_token_lem :
    (tok : Text) (s : AuthState)
    → valid_local_token tok s ≡ true
    → (tok ≡ s.local_token) × (s.local_token ≢ [])
unfolding valid_local_token
valid_local_token_lem tok s e =
    ground (arith, list_beq_iff s.local_token [], list_beq_iff tok s.local_token)
