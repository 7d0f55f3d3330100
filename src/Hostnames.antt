-- ===== src/Hostnames.antt =====
-- hostnames.go and dns.go: the names that addresses were asked for by. A packet is a function from
-- the names of its fields, with the empty text for a field that it lacks.
pub mod Clean
use efe_process_monitor.Common.{
  ℕ, Bool, true, false, not, ◌&&◌, ◌||◌, Option, none, some, [], ◌∷◌, ◌++◌, List, list_eq, nat_eq,
  length, ltb, leb, ◌==◌, ◌=?◌, if◌then◌else◌, all, reverse,
}
use efe_process_monitor.Common.Maps.{Map, lookup, insert}
use efe_process_monitor.Common.Texts.{Text, codes, to_lower, trim_space, contains, one_of}
use efe_process_monitor.Network.{Net, valid_ip}
use efe_process_monitor.Common.Cuts.{split}

abbrev pub max_hostnames_per_ip : ℕ
max_hostnames_per_ip = 8

abbrev pub max_host_ip : ℕ
max_host_ip = 4096

abbrev pub is_host_byte : ℕ → Bool
is_host_byte c =
    leb b'a' c && leb c b'z'
    || leb b'0' c && leb c b'9'
    || (c == b'.')
    || (c == b'-')
    || (c == b'_')

-- strings.TrimSuffix(s, ".")
abbrev pub drop_dot : Text → Text
drop_dot [] = []
drop_dot (c ∷ []) = if c == b'.' then [] else c ∷ []
drop_dot (c ∷ (d ∷ s)) = c ∷ drop_dot (d ∷ s)

pub clean_hostname : Text → Text
clean_hostname text =
    let s = drop_dot (to_lower (trim_space text)) in
    if (s =? []) || ltb 253 (length s) || not (contains s (codes "."))
    then []
    else if all is_host_byte s
    then s
    else []

-- hostSeen, and what was handed to the database: the address, the name and the source.
pub record HostStore : Type 0 where
  pub seen : Map Text (List Text)
  pub saved : List (Text × (Text × Text))

abbrev pub names_of : Option (List Text) → List Text
names_of none = []
names_of (some ns) = ns

-- From the point where the set of the address is there.
pub record_name : Text → Text → Text → List Text → HostStore → HostStore
record_name ip name src names s =
    if one_of name names then s else if leb max_hostnames_per_ip (length names) then s else record {
      seen = insert ip (name ∷ names) s.seen;
      saved = s.saved ++ (ip, (name, src)) ∷ [];
    }

pub record_hostname : Text → Text → Text → HostStore → HostStore
record_hostname ip name src s =
    let seen = if leb max_host_ip (length s.seen) then [] else s.seen in
    let names = names_of (lookup ip seen) in
    record_name ip name src names (record s { seen = insert ip names seen })

module _ (net : Net) where
  abbrev pub record_all : (Text → Text) → Text → Text → List Text → HostStore → HostStore
  record_all trim name src [] s = s
  record_all trim name src (ip ∷ ips) s =
      record_all trim name src ips
        (if valid_ip net (trim ip) then record_hostname (trim ip) name src s else s)

  pub observe_dns_answer : Text → List Text → HostStore → HostStore
  observe_dns_answer qname ips s =
      let name = clean_hostname qname in
      if name =? [] then s else record_all (λ ip. ip) name (codes "dns") ips s

  pub observe_sni : (Text → Text) → HostStore → HostStore
  observe_sni pkt s =
      let sni = clean_hostname (pkt (codes "tls_sni")) in
      let ip = pkt (codes "ip_dst") in
      if not (sni =? []) && valid_ip net ip then record_hostname ip sni (codes "sni") s else s

  pub observe_hostnames : (Text → Text) → HostStore → HostStore
  observe_hostnames pkt s =
      let s1 = observe_sni pkt s in
      let name = clean_hostname (pkt (codes "dns")) in
      if name =? []
      then s1
      else record_all trim_space name (codes "dns") (split b',' (pkt (codes "dns_aaaa")))
          (record_all trim_space name (codes "dns") (split b',' (pkt (codes "dns_a"))) s1)
