-- ===== src/Audit/Accounts/Real.antt =====
-- Which homes the audit looks into.
use efe_process_monitor.Common.{
  ◌≡◌, ◌≢◌, Bool, true, false, [], ◌∷◌, List, list_eq, nat_eq, arith, if-elim, list_beq_iff,
}
use efe_process_monitor.Common.Texts.{Text, codes, one_of}
use efe_process_monitor.Common.Cuts.{split, lines}
use efe_process_monitor.Audit.Accounts.{UserHome, field_at, is_account, homes_of, user_homes_from}

-- Every home is a directory other than the root, and none comes twice or is one of these.
pub AreHomes : (Text → Bool) → List Text → List UserHome → Type 0
AreHomes exists seen [] = Unit
AreHomes exists seen (u ∷ us) =
    (exists u.home ≡ true)
    × (u.home ≢ [])
    × (u.home ≢ codes "/")
    × (one_of u.home seen ≡ false)
    × AreHomes exists (u.home ∷ seen) us

is_account-Home :
    (exists : Text → Bool) (seen f : List Text)
    → is_account exists seen f ≡ true
    → (exists (field_at f 5) ≡ true)
      × (field_at f 5 ≢ [])
      × (field_at f 5 ≢ codes "/")
      × (one_of (field_at f 5) seen ≡ false)
unfolding is_account
is_account-Home exists seen f h =
    let home = field_at f 5 in ground (arith, list_beq_iff home [], list_beq_iff home (codes "/"))

homes_of-AreHomes :
    (exists : Text → Bool) (seen lns : List Text) → AreHomes exists seen (homes_of exists seen lns)
unfolding homes_of AreHomes
homes_of-AreHomes exists seen [] = tt
homes_of-AreHomes exists seen (ln ∷ lns) =
    if-elim (AreHomes exists seen) (is_account exists seen (split b':' ln))
      (λ h.
        let (p, q, r, o) = is_account-Home exists seen (split b':' ln) h in
        (p, q, r, o, homes_of-AreHomes exists (field_at (split b':' ln) 5 ∷ seen) lns))
      (λ _. homes_of-AreHomes exists seen lns)

-- Whatever the account file holds, each home that is inspected is an existing directory other than
-- the root, and no home is inspected twice.
pub user_homes_from-AreHomes :
    (passwd : Text) (exists : Text → Bool) → AreHomes exists [] (user_homes_from passwd exists)
unfolding user_homes_from
user_homes_from-AreHomes passwd exists = homes_of-AreHomes exists [] (lines passwd)
