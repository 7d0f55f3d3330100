-- ===== src/Baseline.antt =====
-- db.go: baselineSeen, over the tables baseline_hash (keyed by path and hash) and baseline (keyed
-- by path). A row holds the time at which it was written.
pub mod Laws
use efe_process_monitor.Common.{
  ℕ, Bool, true, false, not, ◌&&◌, ◌||◌, Option, none, some, List, [], ◌∷◌, ◌=?◌, list_eq, nat_eq,
  pair_eq, any, if◌then◌else◌,
}
use efe_process_monitor.Common.Texts.{Text, codes}
use efe_process_monitor.Common.Maps.{Map, lookup, insert}

pub record Baseline : Type 0 where
  pub hashes : Map (Text × Text) ℕ
  pub paths : Map Text ℕ

-- What baselineSeen returns.
pub record Verdict : Type 0 where
  pub seen : Bool
  pub changed : Bool

abbrev pub verdict : Bool → Bool → Verdict
verdict s c = record { seen = s; changed = c }

-- exe == "" || exe == "N/A" || exe == "ACCESS_DENIED"
abbrev pub is_no_path : Text → Bool
is_no_path exe = (exe =? []) || (exe =? codes "N/A") || (exe =? codes "ACCESS_DENIED")

-- SELECT 1 FROM baseline_hash WHERE exe=?
abbrev pub has_path : Text → Map (Text × Text) ℕ → Bool
has_path exe = any (λ row. row.0.0 =? exe)

abbrev pub is_some {ℓ} : {A : Type ℓ} → Option A → Bool
is_some none = false
is_some (some a) = true

-- INSERT OR IGNORE
abbrev pub insert_or_ignore {ℓ κ} : {K : Type ℓ} {V : Type κ} → Bool → Map K V → Map K V → Map K V
insert_or_ignore present old new = if present then old else new

abbrev pub unread : Text
unread = b'?' ∷ []

-- The hash under which the content is filed: "?" where it could not be read.
abbrev pub content_key : Text → Text
content_key hash = if hash =? [] then unread else hash

-- The two INSERTs.
pub record_baseline : Text → Text → ℕ → Baseline → Baseline
record_baseline exe hash now b = record {
  hashes =
      insert_or_ignore (is_some (lookup (exe, hash) b.hashes)) b.hashes
        (insert (exe, hash) now b.hashes);
  paths = insert_or_ignore (is_some (lookup exe b.paths)) b.paths (insert exe now b.paths);
}

-- From the first query on, with `hash` the content key.
unfoldable pub judge : Text → Text → ℕ → Baseline → Baseline × Verdict
judge exe hash now b =
    let path_known = has_path exe b.hashes in
    let legacy = not path_known && is_some (lookup exe b.paths) in
    let b' = record_baseline exe hash now b in
    if is_some (lookup (exe, hash) b.hashes)
    then (b, verdict true false)
    else if path_known && (hash =? unread)
    then (b, verdict true false)
    else if path_known
    then (b', verdict false true)
    else if legacy
    then (b', verdict true false)
    else (b', verdict false false)

unfoldable pub baseline_seen : Text → Text → ℕ → Baseline → Baseline × Verdict
baseline_seen exe hash now b =
    if is_no_path exe then (b, verdict true false) else judge exe (content_key hash) now b
