-- ===== src/Auth/Gate/Laws.antt =====
-- Which requests the middleware hands on.
use efe_process_monitor.Common.{
  ℕ, Bool, true, false, Option, some, [], list_eq, nat_eq, ◌≡◌, ◌≢◌, ◌⊎◌, leb, ◌+◌, arith,
  list_beq_iff,
}
use efe_process_monitor.Common.Texts.{Text}
use efe_process_monitor.Auth.{AuthState}
use efe_process_monitor.Network.{Net}
use efe_process_monitor.Auth.Hosts.{host_allowed, is_public_path}
use efe_process_monitor.Auth.Sessions.{local_session_ttl, is_authed, new_session}
use efe_process_monitor.Auth.Sessions.Laws.{
  is_authed_keeps, valid_local_token_lem, valid_session-new_session,
}
use efe_process_monitor.Auth.Gate.{
  Request, served, local_gate, session_gate, is_cross_origin, security_middleware,
}

-- What a request must show to pass the session gate: a public path, a live session, or, where no
-- password is set, the local token of this run.
abbrev pub MayPass : ℕ → Request → AuthState → Type 0
MayPass now r s =
    (is_public_path r.path ≡ true)
    ⊎ ((is_authed now r.cookie s).1 ≡ true)
    ⊎ ((s.auth_hash ≡ []) × (r.token ≡ s.local_token) × (s.local_token ≢ []))

local_gate-served :
    (now : ℕ) (tok : Text) (r : Request) (s s' : AuthState) (sid : Option Text)
    → local_gate now tok r s ≡ (s', served sid)
    → (s.auth_hash ≡ []) × (r.token ≡ s.local_token) × (s.local_token ≢ [])
unfolding local_gate
local_gate-served now tok r s s' sid e =
    ground (arith, list_beq_iff s.auth_hash [], valid_local_token_lem r.token s)

session_gate-served :
    (now : ℕ) (tok : Text) (r : Request) (s s' : AuthState) (sid : Option Text)
    → session_gate now tok r s ≡ (s', served sid)
    → MayPass now r s
unfolding session_gate
session_gate-served now tok r s s' sid e = ground (
  arith,
  local_gate-served now tok r (is_authed now r.cookie s).0 s' sid,
  is_authed_keeps now r.cookie s,
)

local_gate-exchange :
    (now later : ℕ) (tok : Text) (r : Request) (s s' : AuthState) (sid : Text)
    → local_gate now tok r s ≡ (s', served (some sid))
    → sid ≢ []
    → (is_authed later (some sid) s').1 ≡ leb later (now + local_session_ttl)
unfolding local_gate new_session is_authed
local_gate-exchange now later tok r s s' sid e ne =
    ground (arith, valid_session-new_session now local_session_ttl later tok s, list_beq_iff tok [])

module _ (net : Net) (url_host : Text → Option Text) where
  -- A request is handed on only if its Host is allowed, it is not a cross-origin write, and it has
  -- a public path or a live session, or the local token of this run where no password is set.
  pub security_middleware-served :
      (exposed : Bool) (now : ℕ) (tok : Text) (r : Request) (s s' : AuthState) (sid : Option Text)
      → security_middleware net url_host exposed now tok r s ≡ (s', served sid)
      → (host_allowed net exposed r.host ≡ true)
        × (is_cross_origin net url_host r ≡ false)
        × MayPass now r s
  unfolding security_middleware
  security_middleware-served exposed now tok r s s' sid e =
      ground (arith, session_gate-served now tok r s s' sid)

  -- The token exchange: the cookie that the middleware sets, if the random source did not fail, is
  -- accepted in its place for 30 days.
  pub security_middleware-exchange :
      (exposed : Bool) (now later : ℕ) (tok : Text) (r : Request) (s s' : AuthState) (sid : Text)
      → security_middleware net url_host exposed now tok r s ≡ (s', served (some sid))
      → sid ≢ []
      → (is_authed later (some sid) s').1 ≡ leb later (now + local_session_ttl)
  unfolding security_middleware session_gate
  security_middleware-exchange exposed now later tok r s s' sid e ne =
      ground (arith, local_gate-exchange now later tok r (is_authed now r.cookie s).0 s' sid)
