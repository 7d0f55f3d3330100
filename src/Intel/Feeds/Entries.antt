-- ===== src/Intel/Feeds/Entries.antt =====
-- The entries that ipSet.get takes of a text.
use efe_process_monitor.Common.{
  ◌≡◌, ◌≢◌, ◌↔◌, ◌⊎◌, inl, inr, refl, sym, ap, ◌∙◌, subst, Bool, true, false, ◌&&◌, ◌||◌, some, [],
  ◌∷◌, List, list_eq, nat_eq, ◌=?◌, list_beq_iff, In, arith, Bool-cases,
}
use efe_process_monitor.Common.Texts.{Text, codes, trim_space, starts_with}
use efe_process_monitor.Common.Cuts.{lines}
use efe_process_monitor.Common.Maps.{Map, lookup, insert, lookup-insert}
use efe_process_monitor.Intel.Feeds.{set_of_lines}

-- The line is an entry: it is not empty, and no comment where comments are skipped.
abbrev pub Counts : Bool → Text → Type 0
Counts skip ln = (ln ≢ []) × (skip ≡ true → starts_with ln (codes "#") ≡ false)

abbrev skips : Bool → Text → Bool
skips skip ln = (ln =? []) || skip && starts_with ln (codes "#")

skips-Counts : (skip : Bool) (ln : Text) → skips skip ln ≡ false → Counts skip ln
skips-Counts skip ln h =
    (λ e. absurd (ground (arith, list_beq_iff ln [])), λ e. ground (arith, list_beq_iff ln []))

Counts-skips : (skip : Bool) (ln : Text) → Counts skip ln → skips skip ln ≡ false
Counts-skips true ln (n, c) = ground (arith, list_beq_iff ln [], c refl)
Counts-skips false ln (n, c) = ground (arith, list_beq_iff ln [])

-- Some line, without the space around it, is k.
abbrev pub Stands : Text → List Text → Type 0
Stands k lns = (raw : Text) × In raw lns × (k ≡ trim_space raw)

later :
    (skip : Bool) (raw k : Text) (lns : List Text) (set : Map Text Bool)
    → (lookup k set ≡ some true) ⊎ (Counts skip k × Stands k lns)
    → (lookup k set ≡ some true) ⊎ (Counts skip k × Stands k (raw ∷ lns))
later skip raw k lns set (inl h) = inl h
later skip raw k lns set (inr (c, (r, at, p))) = inr (c, (r, inr at, p))

set_of_lines_sound :
    (skip : Bool) (lns : List Text) (set : Map Text Bool) (k : Text)
    → lookup k (set_of_lines skip lns set) ≡ some true
    → (lookup k set ≡ some true) ⊎ (Counts skip k × Stands k lns)
unfolding set_of_lines
set_of_lines_sound skip [] set k h = inl h
set_of_lines_sound skip (raw ∷ lns) set k h = elim (Bool-cases (skips skip (trim_space raw))) [
  | inl b ↦ later skip raw k lns set (set_of_lines_sound skip lns set k (rw b at h))
  | inr b ↦ elim (set_of_lines_sound skip lns (insert (trim_space raw) true set) k (rw b at h)) [
    | inl g ↦ elim (Bool-cases (trim_space raw =? k)) [
      | inl e ↦
          let p = (list_beq_iff (trim_space raw) k).0 e in
          inr (subst (Counts skip) p (skips-Counts skip (trim_space raw) b), (raw, inl refl, sym p))
      | inr e ↦ inl (ground (arith, lookup-insert k (trim_space raw) true set))
    ]
    | inr (c, (r, at, p)) ↦ inr (c, (r, inr at, p))
  ]
]

set_of_lines-older :
    (skip : Bool) (lns : List Text) (set : Map Text Bool) (k : Text)
    → lookup k set ≡ some true
    → lookup k (set_of_lines skip lns set) ≡ some true
unfolding set_of_lines
set_of_lines-older skip [] set k h = h
set_of_lines-older skip (raw ∷ lns) set k h = elim (Bool-cases (skips skip (trim_space raw))) [
  | inl b ↦ rw b (set_of_lines-older skip lns set k h)
  | inr b ↦ rw b (
      set_of_lines-older skip lns (insert (trim_space raw) true set) k
        (ground (arith, lookup-insert k (trim_space raw) true set)))
]

set_of_lines_complete :
    (skip : Bool) (raw : Text) (lns : List Text) (set : Map Text Bool)
    → Counts skip (trim_space raw)
    → In raw lns
    → lookup (trim_space raw) (set_of_lines skip lns set) ≡ some true
unfolding set_of_lines
set_of_lines_complete skip raw [] set c at = absurd at
set_of_lines_complete skip raw (r ∷ lns) set c (inl p) =
    let b = Counts-skips skip (trim_space r) (subst (λ t. Counts skip (trim_space t)) p c) in
    rw b (
      set_of_lines-older skip lns (insert (trim_space r) true set) (trim_space raw) (
        lookup-insert (trim_space raw) (trim_space r) true set
        ∙ rw ((list_beq_iff (trim_space r) (trim_space raw)).1 (ap trim_space (sym p))) refl))
set_of_lines_complete skip raw (r ∷ lns) set c (inr at) = set_of_lines_complete skip raw lns _ c at

-- A text is an entry of the set exactly when it is no empty text and, where comments are skipped, none
-- that starts with a number sign, and some line holds it between its spaces.
pub set_of_lines_iff :
    (skip : Bool) (body k : Text)
    → (lookup k (set_of_lines skip (lines body) []) ≡ some true)
      ↔ (Counts skip k × Stands k (lines body))
unfolding lookup
set_of_lines_iff skip body k = (
  λ h. elim (set_of_lines_sound skip (lines body) [] k h) [
    | inl e ↦ absurd (ground arith)
    | inr r ↦ r
  ],
  λ (c, (raw, at, p)).
      subst (λ t. lookup t (set_of_lines skip (lines body) []) ≡ some true) (sym p)
        (set_of_lines_complete skip raw (lines body) [] (subst (Counts skip) p c) at),
)
