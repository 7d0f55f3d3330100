-- ===== src/Common/Cuts.antt =====
-- Functions of package strings that take text apart: Cut, Split, Index, Fields and the trimming ones.
pub mod Laws
use Prim.Native.Nat.{ℕ, zero, suc, ◌+◌, ◌-◌, ◌≤◌}
use mathlib.Core.Bool.{Bool, true, false, not, ◌&&◌, ◌||◌}
use mathlib.Core.Option.{Option, none, some}
use mathlib.Core.List.{List, [], ◌∷◌, ◌++◌, map, reverse}
use efe_process_monitor.Common.Tests.{◌==◌, ltb, leb, if◌then◌else◌}
use efe_process_monitor.Common.Lists.{length, drop}
use efe_process_monitor.Common.Texts.{Text, starts_with, is_space, trim_space}

-- strings.Cut: what stands before the first c, and what stands after it.
unfoldable pub cut : ℕ → Text → Text × Option Text
cut c [] = ([], none)
cut c (x ∷ s) = let p = cut c s in if x == c then ([], some s) else (x ∷ p.0, p.1)

abbrev pub prepend : ℕ → List Text → List Text
prepend x [] = (x ∷ []) ∷ []
prepend x (t ∷ ts) = (x ∷ t) ∷ ts

-- strings.Split
unfoldable pub split : ℕ → Text → List Text
split c [] = [] ∷ []
split c (x ∷ s) = let ts = split c s in if x == c then [] ∷ ts else prepend x ts

-- strings.Index: what stands before the first occurrence, and from it on.
unfoldable pub find_text : Text → Text → Option (Text × Text)
find_text [] p = if starts_with [] p then some ([], []) else none
find_text (c ∷ s) p =
    let rest = find_text s p in
    if starts_with (c ∷ s) p
    then some ([], c ∷ s)
    else elim rest [ none ↦ none | some (before, from) ↦ some (c ∷ before, from) ]

-- strings.LastIndexByte: what stands before the last occurrence, and after it.
unfoldable pub cut_last : ℕ → Text → Option (Text × Text)
cut_last b [] = none
cut_last b (c ∷ s) = elim (cut_last b s) [
  | some (before, after) ↦ some (c ∷ before, after)
  | none ↦ if c == b then some ([], s) else none
]

-- strings.CutPrefix, none where it fails.
unfoldable pub cut_prefix : Text → Text → Option Text
cut_prefix s [] = some s
cut_prefix [] (p ∷ ps) = none
cut_prefix (c ∷ s) (p ∷ ps) = if c == p then cut_prefix s ps else none

unfoldable pub ends_with : Text → Text → Bool
ends_with s p = starts_with (reverse s) (reverse p)

-- strings.Trim and TrimLeft for a set of bytes.
unfoldable pub trim_left_of : (ℕ → Bool) → Text → Text
trim_left_of p [] = []
trim_left_of p (c ∷ s) = if p c then trim_left_of p s else c ∷ s

unfoldable pub trim_of : (ℕ → Bool) → Text → Text
unfolding trim_left_of
trim_of p s = reverse (trim_left_of p (reverse (trim_left_of p s)))

-- strings.Fields: the first word of a text that may start in a word, and the words after it.
abbrev pub push_word : Text → List Text → List Text
push_word [] ws = ws
push_word (c ∷ w) ws = (c ∷ w) ∷ ws

unfoldable pub words_from : Text → Text × List Text
words_from [] = ([], [])
words_from (c ∷ s) =
    let (word, rest) = words_from s in
    if is_space c then ([], push_word word rest) else (c ∷ word, rest)

unfoldable pub fields : Text → List Text
unfolding words_from
fields s = let (word, rest) = words_from s in push_word word rest

-- strings.Split(s, "\n")
abbrev pub lines : Text → List Text
lines s = split 10 s
