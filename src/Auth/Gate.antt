-- ===== src/Auth/Gate.antt =====
-- auth.go: securityMiddleware. The fixed response headers are left out.
pub mod Laws
use efe_process_monitor.Common.{
  ℕ, Bool, true, false, not, ◌&&◌, ◌||◌, Option, none, some, [], list_eq, nat_eq, ◌=?◌,
  if◌then◌else◌,
}
use efe_process_monitor.Common.Texts.{Text, codes, starts_with}
use efe_process_monitor.Auth.{AuthState}
use efe_process_monitor.Network.{Net}
use efe_process_monitor.Auth.Hosts.{host_allowed, same_origin, is_public_path}
use efe_process_monitor.Auth.Sessions.{
  local_session_ttl, auth_enabled, is_authed, new_session, valid_local_token,
}

pub record Request : Type 0 where
  pub host : Text
  pub method : Text
  pub origin : Text  -- empty where there is no such header
  pub path : Text
  pub cookie : Option Text  -- the value of "sid"
  pub token : Text  -- the query's "t", empty where there is none

-- What the middleware answers. `served` hands the request on, with the cookie that it sets.
pub data Response : Type 0 where
  bad_host bad_origin unauthorized to_login denied : Response
  served : Option Text → Response

abbrev pub is_read : Request → Bool
is_read r = (r.method =? codes "GET") || (r.method =? codes "HEAD")

abbrev pub is_api : Request → Bool
is_api r = starts_with r.path (codes "/api/")

-- A request with no session for a path that is not public: the password where one is set, and
-- otherwise the local token, which is exchanged for a session.
unfoldable pub local_gate : ℕ → Text → Request → AuthState → AuthState × Response
local_gate now tok r s =
    if auth_enabled s
    then (s, if is_api r || not (r.method =? codes "GET") then unauthorized else to_login)
    else if not (valid_local_token r.token s)
    then (s, denied)
    else let (s', sid) = new_session now local_session_ttl tok s in (s', served (some sid))

-- The session gate, behind the two checks on the headers.
unfoldable pub session_gate : ℕ → Text → Request → AuthState → AuthState × Response
session_gate now tok r s =
    if is_public_path r.path
    then (s, served none)
    else let (s', authed) = is_authed now r.cookie s in
      if authed then (s', served none) else local_gate now tok r s'

module _ (net : Net) (url_host : Text → Option Text) where
  -- A request other than GET and HEAD whose Origin is of another host.
  unfoldable pub is_cross_origin : Request → Bool
  is_cross_origin r =
      not (is_read r) && (not (r.origin =? []) && not (same_origin url_host r.origin r.host))

  -- `tok` is the random token of a session that the request may start.
  unfoldable pub security_middleware : Bool → ℕ → Text → Request → AuthState → AuthState × Response
  security_middleware exposed now tok r s =
      if not (host_allowed net exposed r.host)
      then (s, bad_host)
      else if is_cross_origin r
      then (s, bad_origin)
      else session_gate now tok r s
