-- ===== src/Audit/Units/Exec.antt =====
-- What parseSystemdExec finds in a unit, and which commands start a foreign binary.
use efe_process_monitor.Common.{
  ◌≡◌, ◌≢◌, ◌↔◌, ◌⊎◌, refl, Option, none, some, [], ◌∷◌, ◌++◌, List, list_eq, nat_eq, ◌=?◌,
  list_beq_iff, if-elim, In, inl, inr, arith, Option-cases, Bool-cases, sym, ◌∙◌, subst,
}
use efe_process_monitor.Common.Texts.{Text, trim_space}
use efe_process_monitor.Common.Cuts.{lines, cut_prefix}
use efe_process_monitor.Common.Cuts.Laws.{cut_prefix-append, cut_prefix-some}
use efe_process_monitor.Audit.Units.{
  exec_keys, add_command, commands_of, unit_commands, parse_systemd_exec,
}

-- The line is the key with a command after it, the command being t without space around it.
abbrev pub Runs : Text → Text → List Text → Type 0
Runs t ln keys = (k : Text) × (v : Text) × In k keys × (ln ≡ k ++ v) × (t ≡ trim_space v) × (t ≢ [])

In-append_left : (t : Text) (xs ys : List Text) → In t xs → In t (xs ++ ys)
In-append_left t [] ys h = absurd h
In-append_left t (x ∷ xs) ys (inl e) = inl e
In-append_left t (x ∷ xs) ys (inr h) = inr (In-append_left t xs ys h)

In-append_right : (t : Text) (xs ys : List Text) → In t ys → In t (xs ++ ys)
In-append_right t [] ys h = h
In-append_right t (x ∷ xs) ys h = inr (In-append_right t xs ys h)

In-append : (t : Text) (xs ys : List Text) → In t (xs ++ ys) → In t xs ⊎ In t ys
In-append t [] ys h = inr h
In-append t (x ∷ xs) ys (inl e) = inl (inl e)
In-append t (x ∷ xs) ys (inr h) = elim (In-append t xs ys h) [ inl g ↦ inl (inr g) | inr g ↦ inr g ]

add_command-In :
    (t v : Text) (ts : List Text) → t ≡ trim_space v → t ≢ [] → In t (add_command (some v) ts)
add_command-In t v ts e h =
    if-elim (In t) (trim_space v =? []) (λ b. absurd (h (e ∙ (list_beq_iff (trim_space v) []).0 b)))
      (λ b. inl e)

add_command-older :
    (t : Text) (o : Option Text) (ts : List Text) → In t ts → In t (add_command o ts)
add_command-older t none ts h = h
add_command-older t (some v) ts h = if-elim (In t) (trim_space v =? []) (λ b. h) (λ b. inr h)

commands_of_complete :
    (t ln : Text) (keys : List Text) → Runs t ln keys → In t (commands_of ln keys)
unfolding commands_of
commands_of_complete t ln [] (k, v, h, el, et, ne) = absurd h
commands_of_complete t ln (j ∷ keys) (k, v, inl e, el, et, ne) =
    let c : cut_prefix ln j ≡ some v = rw (el, sym e) (cut_prefix-append k v) in
    rw c (add_command-In t v (commands_of ln keys) et ne)
commands_of_complete t ln (j ∷ keys) (k, v, inr h, el, et, ne) =
    add_command-older t (cut_prefix ln j) (commands_of ln keys)
      (commands_of_complete t ln keys (k, v, h, el, et, ne))

Runs-later : (t ln j : Text) (keys : List Text) → Runs t ln keys → Runs t ln (j ∷ keys)
Runs-later t ln j keys (k, v, h, el, et, ne) = (k, v, inr h, el, et, ne)

add_command-cases :
    (t v : Text) (ts : List Text)
    → In t (add_command (some v) ts)
    → ((t ≡ trim_space v) × (t ≢ [])) ⊎ In t ts
add_command-cases t v ts h = elim (Bool-cases (trim_space v =? [])) [
  | inl b ↦ inr (rw b at h)
  | inr b ↦ elim (rw b at h) [
    | inl e ↦ inl (e, ground (arith, list_beq_iff (trim_space v) []))
    | inr g ↦ inr g
  ]
]

commands_of_sound : (t ln : Text) (keys : List Text) → In t (commands_of ln keys) → Runs t ln keys
unfolding commands_of
commands_of_sound t ln [] h = absurd h
commands_of_sound t ln (j ∷ keys) h = elim (Option-cases (cut_prefix ln j)) [
  | inl e ↦
      Runs-later t ln j keys
        (commands_of_sound t ln keys (subst (λ o. In t (add_command o (commands_of ln keys))) e h))
  | inr (v, e) ↦
      elim (add_command-cases t v (commands_of ln keys)
        (subst (λ o. In t (add_command o (commands_of ln keys))) e h)) [
          | inl (et, ne) ↦ (j, v, inl refl, cut_prefix-some ln j v e, et, ne)
          | inr g ↦ Runs-later t ln j keys (commands_of_sound t ln keys g)
        ]
]

unit_commands_complete :
    (t ln : Text) (lns : List Text)
    → In ln lns
    → Runs t (trim_space ln) exec_keys
    → In t (unit_commands lns)
unfolding unit_commands
unit_commands_complete t ln [] h r = absurd h
unit_commands_complete t ln (m ∷ lns) (inl e) r =
    In-append_left t (commands_of (trim_space m) exec_keys) (unit_commands lns) (
      commands_of_complete t (trim_space m) exec_keys
        (subst (λ l. Runs t (trim_space l) exec_keys) e r))
unit_commands_complete t ln (m ∷ lns) (inr h) r =
    In-append_right t (commands_of (trim_space m) exec_keys) (unit_commands lns)
      (unit_commands_complete t ln lns h r)

unit_commands_sound :
    (t : Text) (lns : List Text)
    → In t (unit_commands lns)
    → (ln : Text) × In ln lns × Runs t (trim_space ln) exec_keys
unfolding unit_commands
unit_commands_sound t [] h = absurd h
unit_commands_sound t (m ∷ lns) h =
    elim (In-append t (commands_of (trim_space m) exec_keys) (unit_commands lns) h) [
      | inl g ↦ (m, inl refl, commands_of_sound t (trim_space m) exec_keys g)
      | inr g ↦ let (ln, at, r) = unit_commands_sound t lns g in (ln, inr at, r)
    ]

-- A command is found in a unit exactly when it is not empty and some line of the unit, without the
-- space around it, is one of the five keys followed by the command with or without space around it.
pub parse_systemd_exec_iff :
    (t unit : Text)
    → In t (parse_systemd_exec unit)
      ↔ ((ln : Text) × In ln (lines unit) × Runs t (trim_space ln) exec_keys)
unfolding parse_systemd_exec
parse_systemd_exec_iff t unit = (
  unit_commands_sound t (lines unit),
  λ (ln, at, r). unit_commands_complete t ln (lines unit) at r,
)
