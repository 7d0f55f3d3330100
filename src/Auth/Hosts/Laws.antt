-- ===== src/Auth/Hosts/Laws.antt =====
-- What a Host header must be to pass.
use efe_process_monitor.Common.{
  ℕ, ◌+◌, ◌<◌, ◌≡◌, ◌⊎◌, refl, Bool, false, none, some, [], ◌∷◌, ◌++◌, list_eq, nat_eq, arith,
}
use efe_process_monitor.Common.Texts.{Text, codes}
use efe_process_monitor.Network.{Net}
use efe_process_monitor.Auth.Hosts.{
  count_byte, last_split, split_host_port, equal_fold, is_loopback_name, host_of, loopback_host,
  host_allowed, is_ip,
}

last_split-none : (c : ℕ) (s : Text) → count_byte c s ≡ 0 → last_split c s ≡ none
last_split-none c [] h = refl
last_split-none c (x ∷ s) h = ground (arith, last_split-none c s)

last_split-append :
    (c : ℕ) (s t : Text) → count_byte c t ≡ 0 → last_split c (s ++ c ∷ t) ≡ some (s, t)
last_split-append c [] t h = ground (arith, last_split-none c t)
last_split-append c (x ∷ s) t h = rw (last_split-append c s t h)

count_byte-append : (c : ℕ) (s t : Text) → count_byte c (s ++ t) ≡ count_byte c s + count_byte c t
count_byte-append c [] t = omega arith
count_byte-append c (x ∷ s) t = omega (arith, count_byte-append c s t)

-- A host without a colon, or one in brackets, is split from its port again.
pub split_host_port-join :
    (host port : Text)
    → count_byte b':' port ≡ 0
    → (count_byte b':' host ≡ 0) ⊎ (0 < count_byte b']' host)
    → split_host_port (host ++ b':' ∷ port) ≡ (host, port)
unfolding split_host_port
split_host_port-join host port h k = ground (
  arith,
  last_split-append b':' host port h,
  count_byte-append b':' host (b':' ∷ port),
  count_byte-append b']' host (b':' ∷ port),
)

is_loopback_name-false :
    (net : Net) (host : Text)
    → is_ip net host ≡ false
    → equal_fold host (codes "localhost") ≡ false
    → is_loopback_name net host ≡ false
unfolding is_loopback_name
is_loopback_name-false net host literal name = ground arith

-- The DNS rebinding gate: a Host that names neither an address nor localhost is refused, exposed or
-- not, whatever the name resolves to.
pub host_allowed_name :
    (net : Net) (exposed : Bool) (hostport : Text)
    → is_ip net (host_of hostport) ≡ false
    → equal_fold (host_of hostport) (codes "localhost") ≡ false
    → host_allowed net exposed hostport ≡ false
unfolding host_allowed loopback_host
host_allowed_name net exposed hostport literal name =
    ground (arith, is_loopback_name-false net (host_of hostport) literal name)
