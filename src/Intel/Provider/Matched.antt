-- ===== src/Intel/Provider/Matched.antt =====
-- What detectProvider answers, in whatever order the map is visited.
use efe_process_monitor.Common.{
  ◌≡◌, ◌↔◌, ◌≢◌, refl, true, false, [], ◌∷◌, List, In, All, inl, inr, subst, sym, arith, Bool-cases,
}
use efe_process_monitor.Common.Texts.{Text, contains}
use efe_process_monitor.Intel.Provider.{
  NetworkTexts, known_providers, haystack, first_match, detect_provider,
}

module _ (hay : Text) where
  first_match-In :
      (ps : List (Text × Text)) (r : Text)
      → first_match hay ps ≡ r
      → r ≢ []
      → (k : Text) × In (k, r) ps × (contains hay k ≡ true)
  unfolding first_match
  first_match-In [] r e h = absurd (h (sym e))
  first_match-In ((k, name) ∷ ps) r e h = elim (Bool-cases (contains hay k)) [
    | inl b ↦ let e' : name ≡ r = rw b at e in (k, inl (λ i. (k, sym e' i)), b)
    | inr b ↦ let (j, at, c) = first_match-In ps r (rw b at e) h in (j, inr at, c)
  ]

  first_match-missed :
      (ps : List (Text × Text)) (k name : Text)
      → All (λ p. p.1 ≢ []) ps
      → first_match hay ps ≡ []
      → In (k, name) ps
      → contains hay k ≡ false
  unfolding first_match
  first_match-missed [] k name n e at = absurd at
  first_match-missed ((j, label) ∷ ps) k name n e at = elim (Bool-cases (contains hay j)) [
    | inl b ↦ absurd (n.0 (rw b at e))
    | inr b ↦ elim at [
      | inl p ↦ ground arith
      | inr at' ↦ first_match-missed ps k name n.1 (rw b at e) at'
    ]
  ]

pick :
    (P : Text × Text → Type 0) (ps : List (Text × Text)) (q : Text × Text)
    → In q ps
    → All P ps
    → P q
pick P [] q at a = absurd at
pick P (p ∷ ps) q (inl e) a = subst P (sym e) a.0
pick P (p ∷ ps) q (inr at) a = pick P ps q at a.1

All-In :
    (P : Text × Text → Type 0) (ps qs : List (Text × Text))
    → ((p : Text × Text) → In p qs → In p ps)
    → All P ps
    → All P qs
All-In P ps [] h a = tt
All-In P ps (q ∷ qs) h a = (pick P ps q (h q (inl refl)) a, All-In P ps qs (λ p at. h p (inr at)) a)

abbrev IsNamed : Text × Text → Type 0
IsNamed p = p.1 ≢ []

known_providers-IsNamed : All IsNamed known_providers
known_providers-IsNamed = ground arith

-- The order is one of the map of providers.
abbrev pub Visits : List (Text × Text) → Type 0
Visits order = (p : Text × Text) → In p order ↔ In p known_providers

-- Whatever the order in which the map of providers is visited: where the answer is empty, the texts
-- about the address hold none of the map's keys.
pub detect_provider-none :
    (order : List (Text × Text)) (e : NetworkTexts) (k name : Text)
    → Visits order
    → detect_provider order e ≡ []
    → In (k, name) known_providers
    → contains (haystack e) k ≡ false
unfolding detect_provider
detect_provider-none order e k name h n at =
    first_match-missed (haystack e) order k name
      (All-In IsNamed known_providers order (λ p. (h p).0) known_providers-IsNamed) n
      ((h (k, name)).1 at)

-- Whatever the order in which the map of providers is visited: an answer that is not empty is the name
-- of a key of the map that the texts about the address hold.
pub detect_provider-some :
    (order : List (Text × Text)) (e : NetworkTexts) (name : Text)
    → Visits order
    → detect_provider order e ≡ name
    → name ≢ []
    → (k : Text) × In (k, name) known_providers × (contains (haystack e) k ≡ true)
unfolding detect_provider
detect_provider-some order e name h n ne =
    let (k, at, c) = first_match-In (haystack e) order name n ne in (k, (h (k, name)).0 at, c)
