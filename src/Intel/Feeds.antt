-- ===== src/Intel/Feeds.antt =====
-- intel.go: when ipSet.get, tfFeed.refresh and cidrFeed.refresh download, and what they keep. A time
-- is a number of nanoseconds; a feed's `none` is Go's zero time, which lies centuries back. `reply` is
-- what the download would return, `none` being an error, and `now` and `later` are the clock before
-- and after it.
pub mod Quiet
pub mod Entries
use efe_process_monitor.Common.{
  ℕ, ◌+◌, ◌-◌, ◌*◌, Bool, true, false, not, ◌&&◌, ◌||◌, Option, none, some, [], ◌∷◌, List, list_eq,
  nat_eq, ltb, if◌then◌else◌, ◌=?◌,
}
use efe_process_monitor.Common.Texts.{Text, codes, trim_space, starts_with}
use efe_process_monitor.Common.Cuts.{lines}
use efe_process_monitor.Common.Maps.{Map, insert}

abbrev pub second : ℕ
second = 1000000000

abbrev pub feed_ttl : ℕ
feed_ttl = 24 * 3600 * second

abbrev pub feed_fail_ttl : ℕ
feed_fail_ttl = 10 * 60 * second

pub record Feed (A : Type 0) : Type 0 where
  pub at : Option ℕ
  pub tried_at : Option ℕ
  pub entries : Option (List A)

-- time.Since(t) < ttl
abbrev pub within : ℕ → ℕ → Option ℕ → Bool
within ttl now none = false
within ttl now (some t) = ltb (now - t) ttl

abbrev pub is_some : {A : Type 0} → Option A → Bool
is_some none = false
is_some (some a) = true

abbrev pub is_nil : {A : Type 0} → List A → Bool
is_nil [] = true
is_nil (x ∷ xs) = false

-- The guard with which the three functions start, negated.
unfoldable pub is_due : {A : Type 0} → Bool → ℕ → Feed A → Bool
is_due force now f =
    force
    || not (is_some f.entries && (within feed_ttl now f.at || within feed_fail_ttl now f.tried_at))

-- `if f.m == nil { f.m = map[string]string{} }`
abbrev pub at_least_empty : {A : Type 0} → Option (List A) → Option (List A)
at_least_empty none = some []
at_least_empty (some es) = some es

-- tfFeed.refresh and cidrFeed.refresh after the download.
abbrev pub take_reply : {A : Type 0} → (Text → List A) → ℕ → Option Text → Feed A → Feed A
take_reply parse later none f = record f { entries = at_least_empty f.entries }
take_reply parse later (some body) f =
    let es = parse body in
    if is_nil es
    then record f { entries = at_least_empty f.entries }
    else record f { entries = some es; at = some later }

unfoldable pub refresh :
    {A : Type 0} → (Text → List A) → Bool → ℕ → ℕ → Option Text → Feed A → Feed A
unfolding is_due
refresh parse force now later reply f =
    if is_due force now f
    then take_reply parse later reply (record f { tried_at = some now })
    else f

-- The lines that ipSet.get keeps, as the keys of a map.
unfoldable pub set_of_lines : Bool → List Text → Map Text Bool → Map Text Bool
set_of_lines skip_comments [] set = set
set_of_lines skip_comments (raw ∷ lns) set =
    let ln = trim_space raw in
    set_of_lines skip_comments lns (
      if (ln =? []) || skip_comments && starts_with ln (codes "#") then set else insert ln true set)

-- ipSet.get after the download: an empty set is not taken over.
abbrev pub take_lines : Bool → ℕ → Option Text → Feed (Text × Bool) → Feed (Text × Bool)
take_lines skip_comments later none s = record s { entries = at_least_empty s.entries }
take_lines skip_comments later (some body) s =
    let set = set_of_lines skip_comments (lines body) [] in
    if is_nil set then s else record s { entries = some set; at = some later }

unfoldable pub get : Bool → ℕ → ℕ → Option Text → Feed (Text × Bool) → Feed (Text × Bool)
unfolding is_due
get skip_comments now later reply s =
    if is_due false now s
    then take_lines skip_comments later reply (record s { tried_at = some now })
    else s
