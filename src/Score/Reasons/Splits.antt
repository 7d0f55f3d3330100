-- ===== src/Score/Reasons/Splits.antt =====
-- Splitting a text that was joined.
use efe_process_monitor.Common.{
  ℕ, ◌≡◌, ◌≢◌, refl, ap, ◌∙◌, none, some, [], ◌∷◌, ◌++◌, List, arith, All,
}
use efe_process_monitor.Common.Texts.{Text, join}
use efe_process_monitor.Common.Cuts.{cut, split}

-- The byte c does not stand in the text.
abbrev pub Lacks : ℕ → Text → Type 0
Lacks c s = All (λ x. x ≢ c) s

pub cut-Lacks : (c : ℕ) (s : Text) → Lacks c s → cut c s ≡ (s, none)
unfolding cut
cut-Lacks c [] h = refl
cut-Lacks c (x ∷ s) h = ground (arith, cut-Lacks c s h.1)

pub cut-append : (c : ℕ) (s t : Text) → Lacks c s → cut c (s ++ c ∷ t) ≡ (s, some t)
unfolding cut
cut-append c [] t h = ground arith
cut-append c (x ∷ s) t h = ground (arith, cut-append c s t h.1)

split-Lacks : (c : ℕ) (s : Text) → Lacks c s → split c s ≡ s ∷ []
unfolding split
split-Lacks c [] h = refl
split-Lacks c (x ∷ s) h = ground (arith, split-Lacks c s h.1)

split-append : (c : ℕ) (s t : Text) → Lacks c s → split c (s ++ c ∷ t) ≡ s ∷ split c t
unfolding split
split-append c [] t h = ground arith
split-append c (x ∷ s) t h = ground (arith, split-append c s t h.1)

-- Splitting undoes joining, where no text holds the separator.
pub split-join :
    (c : ℕ) (t : Text) (ts : List Text)
    → All (Lacks c) (t ∷ ts)
    → split c (join (c ∷ []) (t ∷ ts)) ≡ t ∷ ts
split-join c t [] h = split-Lacks c t h.0
split-join c t (u ∷ ts) h =
    split-append c t (join (c ∷ []) (u ∷ ts)) h.0 ∙ ap (◌∷◌ t) (split-join c u ts h.1)
