-- ===== src/Tests/Feeds.antt =====
-- The feeds, the cache and the throttles on a few calls.
use efe_process_monitor.Common.{
  ℕ, ◌-◌, ◌*◌, ◌≡◌, ◌≤◌, ◌<◌, refl, Bool, true, none, some, [], ◌∷◌, List, list_eq, nat_eq, arith,
  In,
}
use efe_process_monitor.Common.Texts.{Text, codes, trim_space}
use efe_process_monitor.Common.Cuts.{lines, split}
use efe_process_monitor.Intel.Feeds.{second, set_of_lines, Feed}
use efe_process_monitor.Intel.Feeds.Quiet.{
  Call, downloads, downloads_bound, set_downloads, set_downloads-Blank,
}
use efe_process_monitor.Intel.Cache.{cached_ip, store_ip, lifetime}
use efe_process_monitor.Intel.Cache.Fresh.{
  Call as AddressCall, ask, store, cache_after, cached_ip-stored,
}
use efe_process_monitor.Notify.Throttle.{sent, remembered, sent-remembered}
use efe_process_monitor.Common.Maps.{lookup, insert, delete}

-- A feed without entries and without a download.
abbrev never : Feed Text
never = record { at = none; tried_at = none; entries = none }

abbrev calls : List Call
calls = (100, 101, none) ∷ (5 * second, 6 * second, some (codes "198.51.100.7")) ∷ []

downloads_bound_example : downloads lines calls never ≤ 1
downloads_bound_example = downloads_bound lines 100 calls never (omega arith)

-- A list that holds its comment only, asked for three times in a second.
set_downloads-Blank_example :
    set_downloads true
      ((100, 101, some (codes "# none"))
        ∷ (200, 201, some (codes "# none"))
        ∷ (300, 301, some (codes "# none"))
        ∷ [])
      (record { at = none; tried_at = none; entries = none })
    ≡ 3
unfolding set_of_lines split trim_space
set_downloads-Blank_example =
    set_downloads-Blank true
      ((100, 101, some (codes "# none"))
        ∷ (200, 201, some (codes "# none"))
        ∷ (300, 301, some (codes "# none"))
        ∷ [])
      none none (refl, (refl, (refl, tt)))

cached_ip-stored_example :
    (at : ℕ) × (partial : Bool) × In {A = AddressCall ℕ}
      (store at (codes "198.51.100.7") 42 partial)
      (ask 9 (codes "203.0.113.9") ∷ store 5 (codes "198.51.100.7") 42 true ∷ [])
    × (10 - at < lifetime partial)
unfolding cached_ip store_ip cache_after lookup insert delete
cached_ip-stored_example =
    cached_ip-stored (ask 9 (codes "203.0.113.9") ∷ store 5 (codes "198.51.100.7") 42 true ∷ []) 10
      (codes "198.51.100.7") 42 refl

sent-remembered_example :
    sent
      ((10, codes "new", codes "a")
        ∷ (20, codes "new", codes "a")
        ∷ (70 * second, codes "new", codes "a")
        ∷ [])
      []
    ≡ remembered
        ((10, codes "new", codes "a")
          ∷ (20, codes "new", codes "a")
          ∷ (70 * second, codes "new", codes "a")
          ∷ [])
        []
sent-remembered_example =
    sent-remembered
      ((10, codes "new", codes "a")
        ∷ (20, codes "new", codes "a")
        ∷ (70 * second, codes "new", codes "a")
        ∷ [])
      (omega arith)
