-- ===== src/Common/Cuts/Laws.antt =====
-- Laws of the functions that take text apart.
use mathlib.Core.Path.{◌≡◌, refl}
use mathlib.Core.Logic.{inl, inr}
use mathlib.Core.Bool.{true}
use mathlib.Core.Option.{some}
use mathlib.Core.List.{[], ◌∷◌, ◌++◌, reverse, reverse-append}
use native.Mathlib.Omega.{arith}
use efe_process_monitor.Common.Tests.{Bool-cases, Option-cases}
use efe_process_monitor.Common.Texts.{Text, starts_with}
use efe_process_monitor.Common.Cuts.{find_text, cut_prefix, ends_with}

pub starts_with-append : (s post : Text) → starts_with (s ++ post) s ≡ true
starts_with-append [] post = refl
starts_with-append (c ∷ s) post = ground (arith, starts_with-append s post)

pub ends_with-append : (pre s : Text) → ends_with (pre ++ s) s ≡ true
unfolding ends_with
ends_with-append pre s = rw (reverse-append pre s) (starts_with-append (reverse s) (reverse pre))

pub cut_prefix-append : (k v : Text) → cut_prefix (k ++ v) k ≡ some v
unfolding cut_prefix
cut_prefix-append [] v = refl
cut_prefix-append (c ∷ k) v = ground (arith, cut_prefix-append k v)

pub cut_prefix-some : (s k : Text) (v : Text) → cut_prefix s k ≡ some v → s ≡ k ++ v
unfolding cut_prefix
cut_prefix-some s [] v h = ground arith
cut_prefix-some [] (c ∷ k) v h = ground arith
cut_prefix-some (d ∷ s) (c ∷ k) v h = ground (arith, cut_prefix-some s k v)

-- What is found is a way to take the text apart at an occurrence.
pub find_text-some :
    (s p before from : Text)
    → find_text s p ≡ some (before, from)
    → (s ≡ before ++ from) × (starts_with from p ≡ true)
unfolding find_text
find_text-some [] p before from h = ground arith
find_text-some (c ∷ s) p before from h = elim (Bool-cases (starts_with (c ∷ s) p)) [
  | inl e ↦ ground arith
  | inr e ↦ elim (Option-cases (find_text s p)) [
    | inl e' ↦ ground arith
    | inr ((b, f), e') ↦ ground (arith, find_text-some s p b f e')
  ]
]
