-- ===== src/Auth/Sessions.antt =====
-- auth.go: sessions, the password and the local token. The random token of a session is an argument;
-- it is empty where the random source fails. `hash_matches` and `generate_hash` are bcrypt's
-- CompareHashAndPassword and GenerateFromPassword.
pub mod Laws
use efe_process_monitor.Common.{
  ℕ, ◌+◌, ◌*◌, Bool, true, false, not, ◌&&◌, ◌||◌, Option, none, some, [], List, list_eq, nat_eq,
  length, ltb, ◌=?◌, if◌then◌else◌,
}
use efe_process_monitor.Common.Maps.{Map, lookup, insert, delete, keep}
use efe_process_monitor.Common.Texts.{Text}
use efe_process_monitor.Auth.{AuthState, hour, day}

abbrev pub session_ttl : ℕ
session_ttl = 12 * hour

abbrev pub local_session_ttl : ℕ
local_session_ttl = 30 * day

abbrev pub min_password_len : ℕ
min_password_len = 8

abbrev pub auth_enabled : AuthState → Bool
auth_enabled s = not (s.auth_hash =? [])

-- The state with the session, and the token; "" where no token could be drawn.
unfoldable pub new_session : ℕ → ℕ → Text → AuthState → AuthState × Text
new_session now ttl tok s = if tok =? [] then (s, []) else (
  record s { sessions = insert tok (now + ttl) (keep (λ t exp. not (ltb exp now)) s.sessions) },
  tok,
)

-- An expired session is deleted when it is presented.
unfoldable pub valid_session : ℕ → Text → AuthState → AuthState × Bool
valid_session now tok s = if tok =? [] then (s, false) else elim (lookup tok s.sessions) [
  | none ↦ (s, false)
  | some exp ↦
      if ltb exp now then (record s { sessions = delete tok s.sessions }, false) else (s, true)
]

-- r.Cookie("sid") is `none` where the request has no such cookie.
unfoldable pub is_authed : ℕ → Option Text → AuthState → AuthState × Bool
is_authed now none s = (s, false)
is_authed now (some tok) s = valid_session now tok s

unfoldable pub valid_local_token : Text → AuthState → Bool
valid_local_token tok s =
    if (tok =? []) || (s.local_token =? []) then false else tok =? s.local_token

unfoldable pub check_password : (Text → Text → Bool) → Text → AuthState → Bool
check_password hash_matches pw s = auth_enabled s && hash_matches s.auth_hash pw

-- What setAuthPassword returns.
pub data PasswordError : Type 0 where
  too_short hash_failed : PasswordError

-- The state, and the error or nil. `encode` is base64's EncodeToString.
unfoldable pub set_auth_password :
    (Text → Text) → (Text → Option Text) → Text → AuthState → AuthState × Option PasswordError
set_auth_password encode generate_hash pw s =
    let s' = record s { sessions = [] } in
    if pw =? []
    then (record s' { auth_hash = []; env_hash = [] }, none)
    else if ltb (length pw) min_password_len
    then (s', some too_short)
    else elim (generate_hash pw) [
      | none ↦ (s', some hash_failed)
      | some h ↦ (record s' { auth_hash = h; env_hash = encode h }, none)
    ]

-- loadAuth with the value of AUTH_HASH. `decode` is base64's DecodeString.
pub load_auth : (Text → Option Text) → Text → AuthState → AuthState
load_auth decode env s =
    if env =? []
    then record s { auth_hash = [] }
    else elim (decode env) [ none ↦ s | some h ↦ record s { auth_hash = h } ]

-- The part of handleLogout that changes the state, for the cookie of the request.
pub drop_session : Option Text → AuthState → AuthState
drop_session none s = s
drop_session (some tok) s = record s { sessions = delete tok s.sessions }
