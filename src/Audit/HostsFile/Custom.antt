-- ===== src/Audit/HostsFile/Custom.antt =====
-- What customHostsLines reports, and what an ordinary hosts file leaves unreported.
use efe_process_monitor.Common.{
  ◌≡◌, refl, Bool, true, false, [], ◌∷◌, List, In, inl, inr, arith, Bool-cases, if-elim, sym, ap,
  subst, ◌↔◌,
}
use efe_process_monitor.Common.Texts.{Text, trim_space}
use efe_process_monitor.Common.Cuts.{lines, fields, cut}
use efe_process_monitor.Audit.HostsFile.{
  uncomment, is_standard_name, all_standard, is_custom_line, custom_lines, custom_hosts_lines,
}

-- What a line says: its text before a comment.
abbrev pub entry : Text → Text
entry ln = uncomment (cut b'#' (trim_space ln))

module _ (is_ip : Text → Bool) (base : Text → Text) (self_name : Text) where
  -- The words are an address and names, and this name among them is not standard.
  abbrev pub Redirects : Text → List Text → Type 0
  Redirects name [] = ⊥
  Redirects name (addr ∷ names) =
      (is_ip addr ≡ true) × In name names × (is_standard_name is_ip base self_name name ≡ false)

  all_standard-found :
      (names : List Text)
      → all_standard is_ip base self_name names ≡ false
      → (name : Text) × In name names × (is_standard_name is_ip base self_name name ≡ false)
  unfolding all_standard
  all_standard-found [] h = absurd (cc)
  all_standard-found (n ∷ ns) h = elim (Bool-cases (is_standard_name is_ip base self_name n)) [
    | inl e ↦ let (m, at, r) = all_standard-found ns (ground arith) in (m, inr at, r)
    | inr e ↦ (n, inl refl, e)
  ]

  all_standard-missed :
      (names : List Text) (name : Text)
      → In name names
      → is_standard_name is_ip base self_name name ≡ false
      → all_standard is_ip base self_name names ≡ false
  unfolding all_standard
  all_standard-missed [] name at e = absurd at
  all_standard-missed (n ∷ ns) name (inl p) e = rw (sym p, e) refl
  all_standard-missed (n ∷ ns) name (inr at) e = ground (arith, all_standard-missed ns name at e)

  is_custom_line-Redirects :
      (ws : List Text)
      → is_custom_line is_ip base self_name ws ≡ true
      → (name : Text) × Redirects name ws
  unfolding is_custom_line
  is_custom_line-Redirects [] h = absurd (cc)
  is_custom_line-Redirects (a ∷ []) h = absurd (cc)
  is_custom_line-Redirects (a ∷ (n ∷ ns)) h =
      let (m, at, e) = all_standard-found (n ∷ ns) (ground arith) in (m, (ground arith, at, e))

  Redirects-is_custom_line :
      (ws : List Text) (name : Text)
      → Redirects name ws
      → is_custom_line is_ip base self_name ws ≡ true
  unfolding is_custom_line
  Redirects-is_custom_line [] name h = absurd h
  Redirects-is_custom_line (a ∷ []) name (h, at, e) = absurd at
  Redirects-is_custom_line (a ∷ (n ∷ ns)) name (h, at, e) =
      ground (arith, all_standard-missed (n ∷ ns) name at e)

  further :
      (t ln : Text) (lns : List Text)
      → ((m : Text) × (name : Text) × In m lns × (t ≡ entry m) × Redirects name (fields t))
      → (m : Text) × (name : Text) × In m (ln ∷ lns) × (t ≡ entry m) × Redirects name (fields t)
  further t ln lns (m, name, at, e, r) = (m, name, inr at, e, r)

  custom_lines_sound :
      (t : Text) (lns : List Text)
      → In t (custom_lines is_ip base self_name lns)
      → (ln : Text) × (name : Text) × In ln lns × (t ≡ entry ln) × Redirects name (fields t)
  unfolding custom_lines
  custom_lines_sound t [] h = absurd h
  custom_lines_sound t (ln ∷ lns) h =
      elim (Bool-cases (is_custom_line is_ip base self_name (fields (entry ln)))) [
        | inl b ↦ elim (rw b at h) [
          | inl e ↦
              let (name, r) = is_custom_line-Redirects (fields (entry ln)) b in
              (ln, name, inl refl, e, subst (λ u. Redirects name (fields u)) (sym e) r)
          | inr g ↦ further t ln lns (custom_lines_sound t lns g)
        ]
        | inr b ↦ further t ln lns (custom_lines_sound t lns (rw b at h))
      ]

  custom_lines_complete :
      (ln name : Text) (lns : List Text)
      → In ln lns
      → Redirects name (fields (entry ln))
      → In (entry ln) (custom_lines is_ip base self_name lns)
  unfolding custom_lines
  custom_lines_complete ln name [] at r = absurd at
  custom_lines_complete ln name (m ∷ lns) (inl p) r =
      let b =
        Redirects-is_custom_line (fields (entry m)) name
          (subst (λ l. Redirects name (fields (entry l))) p r) in
      rw b (inl (ap entry p))
  custom_lines_complete ln name (m ∷ lns) (inr at) r =
      let later = custom_lines_complete ln name lns at r in
      if-elim (In (entry ln)) (is_custom_line is_ip base self_name (fields (entry m)))
        (λ b. inr later) (λ b. later)

  -- A text is reported exactly when it is what some line of the file says before its comment, and its
  -- words are an address that net.ParseIP takes and names of which at least one is not standard.
  pub custom_hosts_lines_iff :
      (t content : Text)
      → In t (custom_hosts_lines is_ip base content self_name) ↔ (
          (ln : Text) × (name : Text) × In ln (lines content)
          × (t ≡ entry ln)
          × Redirects name (fields t))
  unfolding custom_hosts_lines
  custom_hosts_lines_iff t content = (
    custom_lines_sound t (lines content),
    λ (ln, name, at, e, r).
        subst (λ u. In u (custom_lines is_ip base self_name (lines content))) (sym e)
          (custom_lines_complete ln name (lines content) at
            (subst (λ u. Redirects name (fields u)) e r)),
  )
