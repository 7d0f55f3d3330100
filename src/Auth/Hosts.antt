-- ===== src/Auth/Hosts.antt =====
-- auth.go: splitHostPort, loopbackHost, hostAllowed, sameOrigin and isPublicPath.
pub mod Laws
use efe_process_monitor.Common.{
  ℕ, ◌+◌, ◌-◌, Bool, true, false, not, ◌&&◌, ◌||◌, Option, none, some, [], ◌∷◌, ◌++◌, List, list_eq,
  nat_eq, length, ltb, ◌=?◌, ◌==◌, if◌then◌else◌, reverse, take, drop,
}
use efe_process_monitor.Network.{Net}
use efe_process_monitor.Common.Texts.{Text, codes, contains, to_lower, starts_with}

abbrev pub count_byte : ℕ → Text → ℕ
count_byte c [] = 0
count_byte c (x ∷ s) = (if x == c then 1 else 0) + count_byte c s

-- strings.LastIndex of one byte: what stands before it and after it.
abbrev pub last_split : ℕ → Text → Option (Text × Text)
last_split c [] = none
last_split c (x ∷ s) = elim (last_split c s) [
  | some p ↦ some (x ∷ p.0, p.1)
  | none ↦ if x == c then some ([], s) else none
]

abbrev pub has_byte : ℕ → Text → Bool
has_byte c s = ltb 0 (count_byte c s)

-- The error of splitHostPort is always nil, so the pair alone is returned.
unfoldable pub split_host_port : Text → Text × Text
split_host_port hp =
    if not (has_byte b':' hp) || (ltb 1 (count_byte b':' hp) && not (has_byte b']' hp))
    then (hp, [])
    else elim (last_split b':' hp) [ some p ↦ p | none ↦ (hp, []) ]

abbrev pub is_bracket : ℕ → Bool
is_bracket c = c == b'[' || c == b']'

abbrev pub trim_left : (ℕ → Bool) → Text → Text
trim_left p [] = []
trim_left p (c ∷ s) = if p c then trim_left p s else c ∷ s

-- strings.Trim(host, "[]")
abbrev pub trim_brackets : Text → Text
trim_brackets s = reverse (trim_left is_bracket (reverse (trim_left is_bracket s)))

abbrev pub equal_fold : Text → Text → Bool
equal_fold s t = to_lower s =? to_lower t

abbrev pub host_of : Text → Text
host_of hostport = trim_brackets (split_host_port hostport).0

module _ (net : Net) where
  open net use {parse_ip, is_loopback}

  -- The test on the host, its port and brackets gone.
  unfoldable pub is_loopback_name : Text → Bool
  is_loopback_name host = elim (parse_ip host) [
    | some ip ↦ is_loopback ip
    | none ↦ equal_fold host (codes "localhost")
  ]

  unfoldable pub loopback_host : Text → Bool
  loopback_host hostport = is_loopback_name (host_of hostport)

  abbrev pub is_ip : Text → Bool
  is_ip h = elim (parse_ip h) [ some ip ↦ true | none ↦ false ]

  -- The flag is listenExposed.
  unfoldable pub host_allowed : Bool → Text → Bool
  host_allowed exposed hostport =
      if loopback_host hostport
      then true
      else if not exposed
      then false
      else is_ip (host_of hostport)

-- `url_host` is url.Parse with the Host of its result; `none` is an error.
pub same_origin : (Text → Option Text) → Text → Text → Bool
same_origin url_host origin host = elim (url_host origin) [
  | none ↦ false
  | some h ↦ if h =? [] then false else equal_fold h host
]

unfoldable pub is_public_path : Text → Bool
is_public_path p =
    (p =? codes "/login") || (p =? codes "/favicon.ico") || starts_with p (codes "/static/")
