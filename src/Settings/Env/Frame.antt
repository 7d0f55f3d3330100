-- ===== src/Settings/Env/Frame.antt =====
-- What a write leaves alone: the lines of the keys that it does not name.
use efe_process_monitor.Common.{
  ◌≡◌, Bool, true, false, none, some, [], ◌∷◌, List, list_eq, nat_eq, ◌=?◌, if◌then◌else◌, All,
}
use efe_process_monitor.Common.Maps.{Map, lookup}
use efe_process_monitor.Common.Texts.{Text}
use efe_process_monitor.Settings.Env.{
  env_key, scan_lines, assignment, updated_line, merge_lines, clean_updates,
}
use efe_process_monitor.Settings.Env.Keys.{is_key}
use efe_process_monitor.Settings.Env.Lines.{IsPlain}

abbrev has_key : Text → Text → Bool
has_key k line = elim (env_key line) [ none ↦ false | some j ↦ j =? k ]

-- The lines that set a key, in their order.
pub lines_of : Text → List Text → List Text
lines_of k [] = []
lines_of k (l ∷ ls) = let rest = lines_of k ls in if has_key k l then l ∷ rest else rest

-- Every update is of a key that envKeyRe reads.
abbrev pub HasKeys : Map Text Text → Type 0
HasKeys updates = All (λ p. is_key p.0 ≡ true) updates

abbrev Sound : Map Text Text → Type 0
Sound updates = All (λ p. (is_key p.0 ≡ true) × IsPlain p.1) updates

-- A line that is replaced is replaced by an assignment to the same key.
abbrev Replaced : Map Text Text → Text → Type 0
Replaced m l =
    (k : Text) × (v : Text) × (env_key l ≡ some k)
    × (lookup k m ≡ some v)
    × (updated_line m l ≡ (assignment k v, k ∷ []))

module _ (updates : Map Text Text) (file : Text) (v : HasKeys updates) where
  abbrev cleaned : Map Text Text
  cleaned = clean_updates updates

  abbrev merged : List Text × List Text
  merged = merge_lines cleaned (scan_lines file)
