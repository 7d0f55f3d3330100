-- ===== src/Ports/Signals.antt =====
-- Which ports and paths count against a connection.
use efe_process_monitor.Common.{
  ℕ, ◌≡◌, refl, Bool, true, false, ◌||◌, Option, none, some, [], ◌∷◌, List, list_eq, nat_eq, ◌==◌,
  arith, ap, ◌∙◌, ◌++◌, ◌↔◌, Bool-cases, inl, inr, In, sym,
}
use efe_process_monitor.Common.Maps.{lookup}
use efe_process_monitor.Common.Texts.{Text, to_lower, contains, starts_with}
use efe_process_monitor.Ports.Known.{known_ports}
use efe_process_monitor.Ports.{
  entry, or_else, legacy_or_known, scoring_or, port_label, scoring_malware_ports,
  legacy_malware_ports, path_known, contains_any, is_suspicious_path, staging_paths,
}

abbrev pub is_live : ℕ → Bool
is_live p = (p == 4444) || (p == 4445)

abbrev is_there : Option Text → Bool
is_there none = false
is_there (some a) = true

scoring_or-susp :
    (o p : Option Text) (l k : Option Text)
    → (scoring_or (or_else o p) (legacy_or_known l k)).susp ≡ (is_there o || is_there p)
scoring_or-susp (some a) p l k = refl
scoring_or-susp none (some a) l k = refl
scoring_or-susp none none (some a) k = refl
scoring_or-susp none none none (some a) = refl
scoring_or-susp none none none none = refl

scoring_entry : (p : ℕ) → is_there (entry scoring_malware_ports p) ≡ is_live p
unfolding lookup
scoring_entry p = ground arith

both :
    (p q : ℕ)
    → (is_there (entry scoring_malware_ports p) || is_there (entry scoring_malware_ports q))
      ≡ (is_live p || is_live q)
both p q =
    ap (λ b. b || is_there (entry scoring_malware_ports q)) (scoring_entry p)
    ∙ ap (λ b. is_live p || b) (scoring_entry q)

-- A port counts against a connection exactly when its local or its remote port is 4444 or 4445;
-- the ports of extinct malware never do.
pub port_label-susp :
    (lport rport : ℕ) → (port_label lport rport).susp ≡ (is_live lport || is_live rport)
unfolding port_label
port_label-susp lport rport =
    scoring_or-susp (entry scoring_malware_ports lport) (entry scoring_malware_ports rport)
      (or_else (entry legacy_malware_ports lport) (entry legacy_malware_ports rport))
      (or_else (lookup lport known_ports) (entry known_ports rport))
    ∙ both lport rport

abbrev pub Contains : Text → Text → Type 0
Contains p s = (pre : Text) × (post : Text) × (p ≡ pre ++ (s ++ post))

starts_with-append : (s post : Text) → starts_with (s ++ post) s ≡ true
starts_with-append [] post = refl
starts_with-append (c ∷ s) post = ground (arith, starts_with-append s post)

starts_with-rest : (p s : Text) → starts_with p s ≡ true → (post : Text) × (p ≡ s ++ post)
starts_with-rest p [] h = (p, refl)
starts_with-rest [] (d ∷ s) h = ground arith
starts_with-rest (c ∷ p) (d ∷ s) h =
    let (post, e) = starts_with-rest p s (ground arith) in (post, ground arith)

contains-starts_with : (t s : Text) → starts_with t s ≡ true → contains t s ≡ true
contains-starts_with [] s h = h
contains-starts_with (c ∷ t) s h = simp (h)

contains-append : (pre s post : Text) → contains (pre ++ (s ++ post)) s ≡ true
contains-append [] s post = contains-starts_with (s ++ post) s (starts_with-append s post)
contains-append (c ∷ pre) s post = ground (arith, contains-append pre s post)

contains-Contains : (p s : Text) → contains p s ≡ true → Contains p s
contains-Contains [] s h = let (post, e) = starts_with-rest [] s h in ([], post, e)
contains-Contains (c ∷ p) s h = elim (Bool-cases (starts_with (c ∷ p) s)) [
  | inl e ↦ let (post, q) = starts_with-rest (c ∷ p) s e in ([], post, q)
  | inr e ↦
      let (pre, post, q) = contains-Contains p s (ground arith) in
      (c ∷ pre, post, ap (λ t. c ∷ t) q)
]

abbrev pub StagedIn : Text → List Text → Type 0
StagedIn p ss = (s : Text) × In s ss × Contains p s

contains_any-StagedIn : (p : Text) (ss : List Text) → contains_any p ss ≡ true → StagedIn p ss
unfolding contains_any
contains_any-StagedIn p [] h = ground arith
contains_any-StagedIn p (s ∷ ss) h = elim (Bool-cases (contains p s)) [
  | inl e ↦ (s, inl refl, contains-Contains p s e)
  | inr e ↦ let (t, i, c) = contains_any-StagedIn p ss (ground arith) in (t, inr i, c)
]

StagedIn-contains_any :
    (p pre post s : Text) (ss : List Text)
    → In s ss
    → p ≡ pre ++ (s ++ post)
    → contains_any p ss ≡ true
unfolding contains_any
StagedIn-contains_any p pre post s [] i e = elim i [ ]
StagedIn-contains_any p pre post s (t ∷ ss) (inl q) e =
    let found : contains p t ≡ true = (simp (e, sym q) (contains-append pre s post)) in simp (found)
StagedIn-contains_any p pre post s (t ∷ ss) (inr i) e =
    ground (arith, StagedIn-contains_any p pre post s ss i e)

known_path :
    (p : Text)
    → path_known p ≡ true
    → is_suspicious_path p ≡ contains_any (to_lower p) staging_paths
unfolding is_suspicious_path
known_path p h = simp (h)

-- A known path is suspicious exactly when, in any case of its letters, one of the staging
-- directories stands somewhere in it.
pub is_suspicious_path-StagedIn :
    (p : Text)
    → path_known p ≡ true
    → (is_suspicious_path p ≡ true) ↔ StagedIn (to_lower p) staging_paths
is_suspicious_path-StagedIn p h =
    let same = known_path p h in
    (
      λ k. contains_any-StagedIn (to_lower p) staging_paths (sym same ∙ k),
      λ (s, i, (pre, post, e)).
          same ∙ StagedIn-contains_any (to_lower p) pre post s staging_paths i e,
    )
