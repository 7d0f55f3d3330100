-- ===== src/Audit/Services.antt =====
-- audit_parse.go: parseSchtasksSuspicious, parseWinServices, unquotedServicePath and
-- parseDriverQueryUnsigned.
use efe_process_monitor.Common.{
  ℕ, zero, suc, Bool, false, ◌||◌, Option, none, some, [], ◌∷◌, ◌++◌, List, list_eq, nat_eq, length,
  ◌-◌, ◌==◌, ◌=?◌, if◌then◌else◌,
}
use efe_process_monitor.Common.Texts.{Text, codes, to_lower, trim_space, starts_with, contains}
use efe_process_monitor.Common.Cuts.{split, lines, find_text, trim_of}
use efe_process_monitor.Ports.{contains_any}
use efe_process_monitor.Audit.Registry.{arrow}

-- strings.Split for a separator of several bytes. The count is of the separator's bytes that are
-- still to be skipped.
unfoldable pub split_skip : Text → ℕ → Text → Text × List Text
split_skip sep skip [] = ([], [])
split_skip sep zero (c ∷ s) =
    let (first, rest) = split_skip sep (length sep - 1) s in
    let (first', rest') = split_skip sep 0 s in
    if starts_with (c ∷ s) sep then ([], first ∷ rest) else (c ∷ first', rest')
split_skip sep (suc k) (c ∷ s) = split_skip sep k s

-- A non-empty separator.
unfoldable pub split_text : Text → Text → List Text
unfolding split_skip
split_text sep s = let (first, rest) = split_skip sep 0 s in first ∷ rest

-- `","`
abbrev pub quoted_comma : Text
quoted_comma = 34 ∷ 44 ∷ 34 ∷ []

abbrev pub is_quote : ℕ → Bool
is_quote c = c == 34

abbrev pub is_suspicious_task : Text → Bool
is_suspicious_task ln =
    let l = to_lower ln in
    contains l (codes "\\temp\\")
    || contains l (codes "\\appdata\\")
    || contains l (codes "powershell -enc")
    || contains l (codes "mshta")

-- The second column, without its quotes.
abbrev pub second_column : List Text → Option Text
second_column [] = none
second_column (a ∷ []) = none
second_column (a ∷ (b ∷ f)) = some (trim_of is_quote b)

abbrev pub or_cons : Option Text → List Text → List Text
or_cons none ts = ts
or_cons (some t) ts = t ∷ ts

pub tasks_of : List Text → List Text
tasks_of [] = []
tasks_of (ln ∷ lns) =
    let rest = tasks_of lns in
    if is_suspicious_task ln
    then or_cons (second_column (split_text quoted_comma ln)) rest
    else rest

pub parse_schtasks_suspicious : Text → List Text
parse_schtasks_suspicious out = tasks_of (lines out)

pub unquoted_service_path : Text → Bool
unquoted_service_path text =
    let p = trim_space text in
    if (p =? []) || starts_with p (34 ∷ [])
    then false
    else elim (find_text (to_lower p) (codes ".exe")) [
      | none ↦ false
      | some (before, from) ↦ contains before (codes " ")
    ]

abbrev pub service_signs : List Text
service_signs =
    codes "\\temp\\" ∷ codes "\\appdata\\" ∷ codes "\\users\\public\\" ∷ codes "\\downloads\\" ∷ []

-- The name and the path of a line, if it has three fields and a path.
abbrev pub service_fields : List Text → Option (Text × Text)
service_fields (name ∷ (state ∷ (path ∷ f))) = if path =? [] then none else some (name, path)
service_fields _ = none

abbrev pub add_service : Option (Text × Text) → List Text × List Text → List Text × List Text
add_service none rest = rest
add_service (some (name, path)) (susp, unquoted) =
    let entry = name ++ (arrow ++ path) in
    (
      if contains_any (to_lower path) service_signs then entry ∷ susp else susp,
      if unquoted_service_path path then entry ∷ unquoted else unquoted,
    )

pub services_of : List Text → List Text × List Text
services_of [] = ([], [])
services_of (ln ∷ lns) = add_service (service_fields (split 9 (trim_space ln))) (services_of lns)

pub parse_win_services : Text → List Text × List Text
parse_win_services out = services_of (lines out)

abbrev pub unsigned_driver : List Text → Option Text
unsigned_driver (name ∷ (inf ∷ (signed ∷ f))) =
    if to_lower (trim_of is_quote signed) =? codes "false"
    then some (trim_of is_quote name)
    else none
unsigned_driver _ = none

pub drivers_of : List Text → List Text
drivers_of [] = []
drivers_of (ln ∷ lns) = or_cons (unsigned_driver (split_text quoted_comma ln)) (drivers_of lns)

pub parse_driver_query_unsigned : Text → List Text
parse_driver_query_unsigned out = drivers_of (lines out)
