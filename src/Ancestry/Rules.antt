-- ===== src/Ancestry/Rules.antt =====
-- When a chain is reported, and what the report names.
use efe_process_monitor.Common.{
  ℕ, ◌≡◌, refl, Bool, true, false, Option, none, some, [], ◌∷◌, ◌++◌, List, if◌then◌else◌, arith,
  Bool-cases, inl, inr, ◌≢◌, ◌⊎◌, ◌↔◌, In,
}
use efe_process_monitor.Common.Texts.{Text, one_of}
use efe_process_monitor.Ancestry.{
  Ancestor, first_of, proc_base, report, suspicious_ancestry, document_apps, browsers, unix_shells,
  server_procs, script_hosts,
}

-- A process of the chain has one of these names.
abbrev pub Launcher : List Text → List Ancestor → Type 0
Launcher names chain = (a : Ancestor) × In a chain × (one_of (proc_base a.name) names ≡ true)

-- A rule applies: a script host under a document program or a browser, or a shell under a server.
abbrev pub IsSuspect : Text → List Ancestor → Type 0
IsSuspect self chain =
    ((one_of self script_hosts ≡ true) × Launcher (document_apps ++ browsers) chain)
    ⊎ ((one_of self unix_shells ≡ true) × Launcher server_procs chain)

first_of-none :
    (names : List Text) (chain : List Ancestor) (a : Ancestor)
    → In a chain
    → one_of (proc_base a.name) names ≡ true
    → first_of names chain ≢ none
unfolding first_of
first_of-none names [] a m h = elim m [ ]
first_of-none names (b ∷ chain) a (inl e) h = ground arith
first_of-none names (b ∷ chain) a (inr m) h = ground (arith, first_of-none names chain a m h)

first_of-some :
    (names : List Text) (chain : List Ancestor) (t : Text)
    → first_of names chain ≡ some t
    → (a : Ancestor) × In a chain
      × (one_of (proc_base a.name) names ≡ true)
      × (t ≡ proc_base a.name)
unfolding first_of
first_of-some names [] t h = ground arith
first_of-some names (b ∷ chain) t h = elim (Bool-cases (one_of (proc_base b.name) names)) [
  | inl p ↦ (b, inl refl, p, ground arith)
  | inr p ↦ let (a, m, q, e) = first_of-some names chain t (ground arith) in (a, inr m, q, e)
]

append_not_nil : (s t : Text) (c : ℕ) → s ++ (c ∷ t) ≢ []
append_not_nil [] t c = ground arith
append_not_nil (d ∷ s) t c = ground arith

report-nil :
    (self : Text) (o : Option Text) (otherwise : Text)
    → report self o otherwise ≡ []
    → (o ≡ none) × (otherwise ≡ [])
report-nil self none otherwise h = (refl, h)
report-nil self (some t) otherwise h =
    elim (append_not_nil t (226 ∷ 134 ∷ 146 ∷ 32 ∷ self) 32 h) [ ]

report-some : (self t otherwise : Text) → report self (some t) otherwise ≢ []
report-some self t otherwise h = elim (append_not_nil t (226 ∷ 134 ∷ 146 ∷ 32 ∷ self) 32 h) [ ]

-- The code's choice between the two rules, for any answers of the two searches.
abbrev verdict : Text → Bool → Bool → Option Text → Option Text → Text
verdict self script shell o1 o2 =
    let rest = if shell then report self o2 [] else [] in
    if script then report self o1 rest else rest

verdict-some :
    (self : Text) (script shell : Bool) (o1 o2 : Option Text)
    → verdict self script shell o1 o2 ≢ []
    → ((script ≡ true) × ((t : Text) × (o1 ≡ some t)))
      ⊎ ((shell ≡ true) × ((t : Text) × (o2 ≡ some t)))
verdict-some self true shell (some t) o2 h = inl (refl, (t, refl))
verdict-some self true true none (some t) h = inr (refl, (t, refl))
verdict-some self true true none none h = elim (h refl) [ ]
verdict-some self true false none o2 h = elim (h refl) [ ]
verdict-some self false true o1 (some t) h = inr (refl, (t, refl))
verdict-some self false true o1 none h = elim (h refl) [ ]
verdict-some self false false o1 o2 h = elim (h refl) [ ]

verdict-nil :
    (self : Text) (script shell : Bool) (o1 o2 : Option Text)
    → verdict self script shell o1 o2 ≡ []
    → (script ≡ true → o1 ≡ none) × (shell ≡ true → o2 ≡ none)
verdict-nil self true shell (some t) o2 h =
    elim (report-some self t (if shell then report self o2 [] else []) h) [ ]
verdict-nil self true true none o2 h = (λ _. refl, λ _. (report-nil self o2 [] h).0)
verdict-nil self true false none o2 h = (λ _. refl, λ e. ground arith)
verdict-nil self false true o1 o2 h = (λ e. ground arith, λ _. (report-nil self o2 [] h).0)
verdict-nil self false false o1 o2 h = (λ e. ground arith, λ e. ground arith)

Launcher-of_first :
    (names : List Text) (chain : List Ancestor) (t : Text)
    → first_of names chain ≡ some t
    → Launcher names chain
Launcher-of_first names chain t h = let (a, m, q, e) = first_of-some names chain t h in (a, m, q)

module _ (proc_name : Text) (chain : List Ancestor) where
  abbrev self : Text
  self = proc_base proc_name

  abbrev lured : Option Text
  lured = first_of (document_apps ++ browsers) chain

  abbrev served : Option Text
  served = first_of server_procs chain

  reported-IsSuspect : suspicious_ancestry proc_name chain ≢ [] → IsSuspect self chain
  unfolding suspicious_ancestry
  reported-IsSuspect h =
      elim (verdict-some self (one_of self script_hosts) (one_of self unix_shells) lured served h) [
        | inl (p, (t, e)) ↦ inl (p, Launcher-of_first (document_apps ++ browsers) chain t e)
        | inr (p, (t, e)) ↦ inr (p, Launcher-of_first server_procs chain t e)
      ]

  IsSuspect-reported : IsSuspect self chain → suspicious_ancestry proc_name chain ≢ []
  unfolding suspicious_ancestry
  IsSuspect-reported (inl (p, (a, m, q))) h =
      first_of-none (document_apps ++ browsers) chain a m q
        ((verdict-nil self (one_of self script_hosts) (one_of self unix_shells) lured served h).0 p)
  IsSuspect-reported (inr (p, (a, m, q))) h =
      first_of-none server_procs chain a m q
        ((verdict-nil self (one_of self script_hosts) (one_of self unix_shells) lured served h).1 p)

  -- A process is reported exactly when one of the two rules applies to its chain: a script host
  -- under a document program or a browser, or a shell under a server, at any distance.
  pub suspicious_ancestry-IsSuspect :
      (suspicious_ancestry proc_name chain ≢ []) ↔ IsSuspect (proc_base proc_name) chain
  suspicious_ancestry-IsSuspect = (reported-IsSuspect, IsSuspect-reported)
