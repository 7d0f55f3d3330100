-- ===== src/Intel/Cache.antt =====
-- intel.go: the cache of what was found out about an address, in cachedIP and storeIP. `now` is the
-- clock of a call in nanoseconds.
pub mod Fresh
use efe_process_monitor.Common.{
  ℕ, ◌-◌, ◌*◌, Bool, true, false, not, Option, none, some, [], ◌∷◌, List, list_eq, nat_eq, length,
  leb, if◌then◌else◌,
}
use efe_process_monitor.Common.Texts.{Text}
use efe_process_monitor.Common.Maps.{Map, lookup, insert, delete, keep}
use efe_process_monitor.Intel.Feeds.{second}

pub record CacheEntry (D : Type 0) : Type 0 where
  pub at : ℕ
  pub found : D
  pub partial : Bool

abbrev pub ip_ttl : ℕ
ip_ttl = 3600 * second

abbrev pub partial_ip_ttl : ℕ
partial_ip_ttl = 5 * 60 * second

abbrev pub max_ip_cache : ℕ
max_ip_cache = 4096

-- The lifetime of an entry, the shorter one where the place could not be looked up.
abbrev pub lifetime : Bool → ℕ
lifetime partial = if partial then partial_ip_ttl else ip_ttl

abbrev pub is_stale : {D : Type 0} → ℕ → CacheEntry D → Bool
is_stale now e = leb (lifetime e.partial) (now - e.at)

-- The entry, if it is not stale, and the map without it, if it is.
abbrev pub answer :
    {D : Type 0}
    → ℕ
    → Text
    → Option (CacheEntry D)
    → Map Text (CacheEntry D)
    → Option D × Map Text (CacheEntry D)
answer now ip none cache = (none, cache)
answer now ip (some e) cache =
    if is_stale now e then (none, delete ip cache) else (some e.found, cache)

unfoldable pub cached_ip :
    {D : Type 0} → ℕ → Text → Map Text (CacheEntry D) → Option D × Map Text (CacheEntry D)
cached_ip now ip cache = answer now ip (lookup ip cache) cache

-- At the limit, what is stale goes, and all of it where that is not enough.
abbrev pub make_room : {D : Type 0} → ℕ → Map Text (CacheEntry D) → Map Text (CacheEntry D)
make_room now cache =
    let kept = keep (λ k e. not (is_stale now e)) cache in
    if leb max_ip_cache (length cache)
    then if leb max_ip_cache (length kept) then [] else kept
    else cache

unfoldable pub store_ip :
    {D : Type 0} → ℕ → Text → D → Bool → Map Text (CacheEntry D) → Map Text (CacheEntry D)
store_ip now ip d partial cache =
    insert ip (record { at = now; found = d; partial = partial }) (make_room now cache)
