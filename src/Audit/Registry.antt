-- ===== src/Audit/Registry.antt =====
-- audit_parse.go: parseRegRunLines, regValue and parseIFEO, over the output of `reg query`.
use efe_process_monitor.Common.{
  not, ◌&&◌, ◌||◌, Option, none, some, [], ◌∷◌, ◌++◌, List, list_eq, nat_eq, ◌=?◌, if◌then◌else◌,
}
use efe_process_monitor.Common.Texts.{Text, codes, to_lower, trim_space, starts_with, contains}
use efe_process_monitor.Common.Cuts.{find_text, cut_last, lines}
use efe_process_monitor.Ports.{contains_any}

abbrev pub four_spaces : Text
four_spaces = codes "    "

-- What follows the first run of four spaces, trimmed.
abbrev pub after_spaces : Option (Text × Text) → Text
after_spaces none = []
after_spaces (some (before, from)) = trim_space from

-- The right arrow with its spaces, in UTF-8.
abbrev pub arrow : Text
arrow = 32 ∷ 226 ∷ 134 ∷ 146 ∷ 32 ∷ []

abbrev pub run_signs : List Text
run_signs =
    codes "\\temp\\"
    ∷ codes "\\downloads\\"
    ∷ codes "-enc"
    ∷ codes "-encodedcommand"
    ∷ codes "mshta"
    ∷ codes "frombase64string"
    ∷ codes "downloadstring"
    ∷ codes "-w hidden"
    ∷ codes "-windowstyle hidden"
    ∷ codes "iex("
    ∷ codes "javascript:"
    ∷ codes "regsvr32 /s /n /u /i"
    ∷ []

-- The name and the data of an entry, from where "REG_" stands; none at the start of the line.
abbrev pub run_entry : Option (Text × Text) → Option (Text × Text)
run_entry none = none
run_entry (some ([], from)) = none
run_entry (some (c ∷ before, from)) =
    some (trim_space (c ∷ before), after_spaces (find_text from four_spaces))

pub run_line : Text → Option (Text × Text)
run_line text =
    let ln = trim_space text in
    if (ln =? []) || starts_with ln (codes "HKEY")
    then none
    else run_entry (find_text ln (codes "REG_"))

abbrev pub add_entry : Option (Text × Text) → List Text × List Text → List Text × List Text
add_entry none rest = rest
add_entry (some (name, val)) (entries, susp) =
    let entry = name ++ (arrow ++ val) in
    (entry ∷ entries, if contains_any (to_lower val) run_signs then entry ∷ susp else susp)

pub run_lines : List Text → List Text × List Text
run_lines [] = ([], [])
run_lines (ln ∷ lns) = add_entry (run_line ln) (run_lines lns)

pub parse_reg_run_lines : Text → List Text × List Text
parse_reg_run_lines out = run_lines (lines out)

abbrev pub data_of : Option (Text × Text) → Option Text
data_of none = none
data_of (some ([], from)) = none
data_of (some (c ∷ before, from)) = elim (find_text from four_spaces) [
  | none ↦ none
  | some (name, rest) ↦ some (trim_space rest)
]

abbrev pub first_data : List Text → Text
first_data [] = []
first_data (ln ∷ lns) = elim (data_of (find_text ln (codes "REG_"))) [
  | some t ↦ t
  | none ↦ first_data lns
]

pub reg_value : Text → Text
reg_value out = first_data (lines out)

abbrev pub after_last : Text → Option (Text × Text) → Text
after_last ln none = ln
after_last ln (some (before, after)) = after

-- The loop of parseIFEO, with the program of the last key line.
pub ifeo_lines : Text → List Text → List Text
ifeo_lines current [] = []
ifeo_lines current (text ∷ lns) =
    let ln = trim_space text in
    let is_key = starts_with ln (codes "HKEY") in
    let rest = ifeo_lines (if is_key then after_last ln (cut_last 92 ln) else current) lns in
    let v = reg_value ln in
    if is_key
    then rest
    else if starts_with ln (codes "Debugger") && contains ln (codes "REG_") && not (v =? [])
    then (current ++ (arrow ++ v)) ∷ rest
    else rest

pub parse_ifeo : Text → List Text
parse_ifeo out = ifeo_lines [] (lines out)
