-- ===== src/Audit/Accounts.antt =====
-- audit_parse.go: userHomesFrom.
pub mod Real
use efe_process_monitor.Common.{
  ℕ, Bool, true, false, not, ◌&&◌, ◌||◌, Option, none, some, [], ◌∷◌, List, list_eq, nat_eq, length,
  get_elem?, ltb, ◌==◌, ◌=?◌, if◌then◌else◌,
}
use efe_process_monitor.Common.Ints.{ℤ, pos, negsuc, atoi}
use efe_process_monitor.Common.Texts.{Text, codes, one_of}
use efe_process_monitor.Common.Cuts.{split, lines}

pub record UserHome : Type 0 where
  pub name : Text
  pub home : Text

abbrev pub or_empty : Option Text → Text
or_empty none = []
or_empty (some t) = t

-- f[i], for an index that a test has shown to be there
abbrev pub field_at : List Text → ℕ → Text
field_at f i = or_empty (get_elem? f i)

-- Root, or an account from 1000 on that is not nobody.
abbrev pub is_real_uid : Option ℤ → Bool
is_real_uid none = false
is_real_uid (some (negsuc n)) = false
is_real_uid (some (pos n)) = not (not (n == 0) && ltb n 1000) && not (n == 65534)

-- The line that names an account with a home of its own, given the homes seen so far.
pub is_account : (Text → Bool) → List Text → List Text → Bool
is_account exists seen f =
    let home = field_at f 5 in
    not (ltb (length f) 7)
    && is_real_uid (atoi (field_at f 2))
    && not (home =? [])
    && not (home =? codes "/")
    && not (one_of home seen)
    && exists home

pub homes_of : (Text → Bool) → List Text → List Text → List UserHome
homes_of exists seen [] = []
homes_of exists seen (ln ∷ lns) =
    let f = split b':' ln in
    let home = field_at f 5 in
    let kept = record { name = field_at f 0; home = home } ∷ homes_of exists (home ∷ seen) lns in
    let skipped = homes_of exists seen lns in if is_account exists seen f then kept else skipped

-- `exists` tells whether a path is a directory.
pub user_homes_from : Text → (Text → Bool) → List UserHome
user_homes_from passwd exists = homes_of exists [] (lines passwd)
