-- ===== src/Tests/Auth.antt =====
-- The login of one address, 192.0.2.9, and the settings file.
use efe_process_monitor.Common.{
  ◌+◌, ◌-◌, ◌*◌, ◌≡◌, ◌⊎◌, refl, Bool, true, false, Option, none, some, [], ◌∷◌, ◌++◌, list_eq,
  nat_eq, ◌=?◌, leb, arith,
}
use efe_process_monitor.Common.Maps.{lookup}
use efe_process_monitor.Common.Texts.{Text, codes}
use efe_process_monitor.Auth.{AuthState, second}
use efe_process_monitor.Auth.Backoff.{
  login_locked, record_login_fail, lock_duration, reset_login_fails,
}
use efe_process_monitor.Auth.Backoff.Laws.{lock_duration_bounds, login_locked-record_login_fail}
use efe_process_monitor.Auth.Sessions.{
  valid_local_token, session_ttl, local_session_ttl, check_password, is_authed, valid_session,
  new_session, set_auth_password,
}
use efe_process_monitor.Auth.Sessions.Laws.{valid_session-set_auth_password}
use efe_process_monitor.Auth.Hosts.{
  host_allowed, split_host_port, is_loopback_name, loopback_host, is_public_path,
}
use efe_process_monitor.Auth.Listen.{resolve_listen, IsSafe, resolve_listen-IsSafe}
use efe_process_monitor.Auth.Gate.{
  Request, session_gate, local_gate, security_middleware, is_cross_origin,
}
use efe_process_monitor.Auth.Gate.Laws.{MayPass, security_middleware-served}
use efe_process_monitor.Auth.Login.{login_post, handle_login}
use efe_process_monitor.Auth.Login.Laws.{here, handle_login-session, Reaches-lockout}
use efe_process_monitor.Tests.Samples.{sample_net, same_text}

abbrev ip : Text
ip = codes "192.0.2.9"

abbrev other_ip : Text
other_ip = codes "192.0.2.8"

abbrev tok : Text
tok = codes "f00d"

-- A password is set, the address has failed four times.
abbrev state : AuthState
state = record {
  auth_hash = codes "hash";
  sessions = [];
  login_fails = (ip, 4) ∷ [];
  lock_until = [];
  local_token = codes "local";
  env_hash = [];
}

-- The address is locked until 60 s.
abbrev locked_state : AuthState
locked_state = record state { lock_until = (ip, 60 * second) ∷ [] }

-- No password and no failure.
abbrev fresh : AuthState
fresh = record state { auth_hash = []; login_fails = [] }

abbrev matches : Text → Text → Bool
matches hash pw = hash =? pw

login_locked-record_login_fail_example :
    login_locked 9 ip (record_login_fail 5 ip state) ≡ some (5 + lock_duration (4 + 1) - 9)
unfolding lookup
login_locked-record_login_fail_example =
    login_locked-record_login_fail 5 9 4 ip state refl (omega arith) (omega arith)
      (omega (arith, lock_duration_bounds 5))

valid_session-set_auth_password_example :
    (valid_session 8 tok (set_auth_password same_text some (codes "12345678") state).0).1 ≡ false
valid_session-set_auth_password_example =
    valid_session-set_auth_password same_text some (codes "12345678") tok 8 state

abbrev split_none : Text → Option (Text × Text)
split_none addr = none

abbrev join_port : Text → Text → Text
join_port host port = host ++ (b':' ∷ port)

resolve_listen-IsSafe_example :
    IsSafe sample_net split_none join_port true
      (resolve_listen sample_net split_none join_port true (codes "0.0.0.0"))
resolve_listen-IsSafe_example =
    resolve_listen-IsSafe sample_net split_none join_port true (codes "0.0.0.0")

-- The first request of a run without a password.
abbrev request : Request
request = record {
  host = codes "localhost:5000";
  method = codes "GET";
  origin = [];
  path = codes "/";
  cookie = none;
  token = codes "local";
}

security_middleware-served_example :
    (host_allowed sample_net false request.host ≡ true)
    × (is_cross_origin sample_net some request ≡ false)
    × MayPass 5 request fresh
unfolding security_middleware host_allowed split_host_port is_loopback_name loopback_host
    is_cross_origin session_gate is_public_path is_authed valid_session local_gate valid_local_token
    new_session lookup
security_middleware-served_example =
    security_middleware-served sample_net some false 5 tok request fresh
      (new_session 5 local_session_ttl tok fresh).0 (some tok) refl

handle_login-session_example :
    (login_locked 5 ip state ≡ none)
    × (check_password matches (codes "hash") state ≡ true)
    × ((is_authed 8 (some tok) (new_session 5 session_ttl tok (reset_login_fails ip state)).0).1
        ≡ leb 8 (5 + session_ttl))
unfolding handle_login login_post login_locked check_password lookup new_session
handle_login-session_example =
    handle_login-session matches 5 8 ip (codes "hash") tok state
      (new_session 5 session_ttl tok (reset_login_fails ip state)).0 tok refl (ground arith)

Reaches-lockout_example :
    let lock = lookup ip (record_login_fail 5 ip fresh).lock_until in
    (lock ≡ none) ⊎ (lock ≡ some (5 + 30 * second))
unfolding login_locked lookup
Reaches-lockout_example = Reaches-lockout matches 5 ip refl here refl (ground arith)
