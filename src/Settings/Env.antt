-- ===== src/Settings/Env.antt =====
-- config.go: cleanEnvValue, envKeyRe and writeEnv, up to the text that is handed to the file system.
-- bufio.Scanner is modelled for lines within its buffer of 64 KB.
pub mod Lines
pub mod Keys
pub mod Frame
use efe_process_monitor.Common.{
  ℕ, ◌+◌, Bool, true, false, not, ◌&&◌, ◌||◌, Option, none, some, [], ◌∷◌, ◌++◌, List, list_eq,
  nat_eq, length, ltb, leb, ◌==◌, ◌=?◌, if◌then◌else◌, map,
}
use efe_process_monitor.Common.Maps.{Map, lookup}
use efe_process_monitor.Common.Texts.{Text, join, codes, trim_space, one_of}

-- strings.Map with the function that drops line ends and NUL.
abbrev pub is_line_end : ℕ → Bool
is_line_end c = (c == 10) || (c == 13) || (c == 0)

pub drop_line_ends : Text → Text
drop_line_ends [] = []
drop_line_ends (c ∷ s) = let rest = drop_line_ends s in if is_line_end c then rest else c ∷ rest

-- For text that is valid UTF-8: of other text, Go replaces the bytes that are not.
pub clean_env_value : Text → Text
clean_env_value v = drop_line_ends (trim_space v)

-- \s, [A-Z_] and [A-Z0-9_] of envKeyRe
abbrev pub is_blank : ℕ → Bool
is_blank c = (c == 32) || leb 9 c && leb c 13 && not (c == 11)

abbrev pub is_key_head : ℕ → Bool
is_key_head c = leb b'A' c && leb c b'Z' || (c == b'_')

abbrev pub is_key_char : ℕ → Bool
is_key_char c = is_key_head c || leb b'0' c && leb c b'9'

pub drop_blanks : Text → Text
drop_blanks [] = []
drop_blanks (c ∷ s) = if is_blank c then drop_blanks s else c ∷ s

-- The longest run of key characters, and what follows it.
pub span_key : Text → Text × Text
span_key [] = ([], [])
span_key (c ∷ s) =
    let (name, rest) = span_key s in if is_key_char c then (c ∷ name, rest) else ([], c ∷ s)

abbrev pub if_equals : Text → Text → Option Text
if_equals name [] = none
if_equals name (c ∷ s) = if c == b'=' then some name else none

abbrev pub key_of : Text → Option Text
key_of [] = none
key_of (c ∷ s) =
    let (name, rest) = span_key s in
    if is_key_head c then if_equals (c ∷ name) (drop_blanks rest) else none

-- The first group of envKeyRe's match.
pub env_key : Text → Option Text
env_key line = key_of (drop_blanks line)

-- bufio.ScanLines
abbrev pub drop_cr : Text → Text
drop_cr [] = []
drop_cr (c ∷ []) = if c == 13 then [] else c ∷ []
drop_cr (c ∷ (d ∷ s)) = c ∷ drop_cr (d ∷ s)

abbrev pub onto_line : ℕ → List Text → List Text
onto_line c [] = (c ∷ []) ∷ []
onto_line c (l ∷ ls) = (c ∷ l) ∷ ls

pub raw_lines : Text → List Text
raw_lines [] = []
raw_lines (c ∷ s) = let rest = raw_lines s in if c == 10 then [] ∷ rest else onto_line c rest

pub scan_lines : Text → List Text
scan_lines s = map drop_cr (raw_lines s)

pub assignment : Text → Text → Text
assignment k v = k ++ (b'=' ∷ v)

-- A line of the file, with the key under which it was replaced.
pub updated_line : Map Text Text → Text → Text × List Text
updated_line updates line = elim (env_key line) [
  | none ↦ (line, [])
  | some k ↦ elim (lookup k updates) [ none ↦ (line, []) | some v ↦ (assignment k v, k ∷ []) ]
]

-- The loop over the file: lines and seen.
pub merge_lines : Map Text Text → List Text → List Text × List Text
merge_lines updates [] = ([], [])
merge_lines updates (l ∷ ls) =
    let (line, key) = updated_line updates l in
    let (lines, seen) = merge_lines updates ls in (line ∷ lines, key ++ seen)

-- The loop over the updates, in any order that the map is given in.
pub missing_lines : List Text → Map Text Text → List Text
missing_lines seen [] = []
missing_lines seen ((k, v) ∷ updates) =
    let rest = missing_lines seen updates in if one_of k seen then rest else assignment k v ∷ rest

abbrev pub clean_updates : Map Text Text → Map Text Text
clean_updates [] = []
clean_updates ((k, v) ∷ updates) = (k, clean_env_value v) ∷ clean_updates updates

pub new_lines : Map Text Text → Text → List Text
new_lines updates file =
    let cleaned = clean_updates updates in
    let (lines, seen) = merge_lines cleaned (scan_lines file) in lines ++ missing_lines seen cleaned

-- The content of the file after the call; an absent file is the empty text.
pub write_env : Map Text Text → Text → Text
write_env updates file = join (10 ∷ []) (new_lines updates file) ++ 10 ∷ []
