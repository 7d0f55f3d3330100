-- ===== src/Ancestry/Label.antt =====
-- The label of a chain: the unresolved links at its end are left out, those between are kept.
use efe_process_monitor.Common.{
  ◌≡◌, refl, false, [], ◌∷◌, ◌++◌, List, ◌=?◌, All, map, list_eq, nat_eq,
}
use efe_process_monitor.Common.Texts.{Text, join}
use efe_process_monitor.Ancestry.{Ancestor, unknown, drop_unknown, ancestry_label, left_arrow}

drop_unknown-nil : (us : List Ancestor) → All (λ u. u.name ≡ unknown) us → drop_unknown us ≡ []
unfolding drop_unknown
drop_unknown-nil [] h = refl
drop_unknown-nil (u ∷ us) (e, h) = simp (drop_unknown-nil us h, e)

drop_unknown-known :
    (chain : List Ancestor) (a : Ancestor) (us : List Ancestor)
    → (a.name =? unknown) ≡ false
    → All (λ u. u.name ≡ unknown) us
    → drop_unknown (chain ++ a ∷ us) ≡ chain ++ a ∷ []
unfolding drop_unknown
drop_unknown-known [] a us k h = simp (drop_unknown-nil us h, k)
drop_unknown-known (b ∷ []) a us k h = simp (drop_unknown-nil us h, k)
drop_unknown-known (b ∷ c ∷ chain) a us k h = simp (drop_unknown-known (c ∷ chain) a us k h)

-- The label of a chain whose last resolved link is `a`: the process and all names up to that of
-- `a`, unresolved ones included, with an arrow between two of them, and none of what follows.
pub ancestry_label_lem :
    (proc_name : Text) (chain : List Ancestor) (a : Ancestor) (us : List Ancestor)
    → (a.name =? unknown) ≡ false
    → All (λ u. u.name ≡ unknown) us
    → ancestry_label proc_name (chain ++ a ∷ us)
      ≡ join left_arrow (proc_name ∷ map (λ b. b.name) (chain ++ a ∷ []))
unfolding ancestry_label
ancestry_label_lem proc_name chain a us k h = simp (drop_unknown-known chain a us k h)
