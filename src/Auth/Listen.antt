-- ===== src/Auth/Listen.antt =====
-- listen.go: resolveListen. `split` and `join` are net.SplitHostPort and net.JoinHostPort.
use efe_process_monitor.Common.{
  Bool, true, false, not, ◌&&◌, ◌||◌, Option, none, some, [], ◌++◌, list_eq, nat_eq, ◌=?◌,
  if◌then◌else◌, ◌≡◌, ◌⊎◌, refl, Bool-cases, inl, inr,
}
use efe_process_monitor.Common.Texts.{Text, codes}
use efe_process_monitor.Network.{Net}
use efe_process_monitor.Auth.Hosts.{loopback_host, trim_brackets}

-- The address to listen on, the URL to open, listenExposed and listenTLS.
pub record Listen : Type 0 where
  pub addr : Text
  pub url : Text
  pub exposed : Bool
  pub tls : Bool

abbrev pub or_default : Text → Text → Text
or_default d s = if s =? [] then d else s

module _ (net : Net) (split : Text → Option (Text × Text)) (join : Text → Text → Text) where
  abbrev pub host_and_port : Text → Text × Text
  host_and_port addr = elim (split addr) [ none ↦ (trim_brackets addr, codes "5000") | some p ↦ p ]

  -- From the point where host and port are known.
  pub listen_on : Bool → Text → Text → Listen
  listen_on auth_enabled host port =
      let exposed = not (loopback_host net host) && auth_enabled in
      let bound =
        if not (loopback_host net host) && not auth_enabled then codes "127.0.0.1" else host in
      let browser =
        if (bound =? codes "0.0.0.0") || (bound =? codes "::") then codes "127.0.0.1" else bound in
      record {
        addr = join bound port;
        url = (if exposed then codes "https" else codes "http") ++ codes "://" ++ join browser port;
        exposed = exposed;
        tls = exposed;
      }

  pub resolve_listen : Bool → Text → Listen
  resolve_listen auth_enabled configured =
      let (host, port) = host_and_port (or_default (codes "127.0.0.1:5000") configured) in
      listen_on auth_enabled (or_default (codes "0.0.0.0") host) (or_default (codes "5000") port)

  -- Exposed with a login and over TLS, or bound to a loopback host or to 127.0.0.1.
  abbrev pub IsSafe : Bool → Listen → Type 0
  IsSafe auth_enabled l =
      ((l.exposed ≡ true) × (l.tls ≡ true) × (auth_enabled ≡ true))
      ⊎ ((l.exposed ≡ false)
          × (l.tls ≡ false)
          × ((host : Text) × (port : Text) × (l.addr ≡ join host port)
              × ((loopback_host net host ≡ true) ⊎ (host ≡ codes "127.0.0.1"))))

  listen_on-IsSafe :
      (auth_enabled : Bool) (host port : Text)
      → IsSafe auth_enabled (listen_on auth_enabled host port)
  unfolding listen_on
  listen_on-IsSafe auth_enabled host port = elim (Bool-cases (loopback_host net host)) [
    | inl e ↦ inr (rw e, rw e, (host, port, rw e, inl e))
    | inr e ↦ elim (Bool-cases auth_enabled) [
      | inl a ↦ inl (rw (e, a), rw (e, a), a)
      | inr a ↦ inr (rw (e, a), rw (e, a), (codes "127.0.0.1", port, rw (e, a), inr refl))
    ]
  ]

  -- However LISTEN_ADDR is configured, the server is exposed only with a login and over TLS. If it
  -- is not exposed, it listens on a loopback host, or on 127.0.0.1 in place of what was configured.
  pub resolve_listen-IsSafe :
      (auth_enabled : Bool) (configured : Text)
      → IsSafe auth_enabled (resolve_listen auth_enabled configured)
  unfolding resolve_listen
  resolve_listen-IsSafe auth_enabled configured = listen_on-IsSafe auth_enabled _ _
