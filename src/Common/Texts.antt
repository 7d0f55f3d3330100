-- ===== src/Common/Texts.antt =====
-- Go's strings as lists of bytes, with the functions of package strings that the program calls.
-- Case is folded for ASCII letters.
use Prim.Native.Char.{code}
use Prim.Native.String.{String}
use Prim.Native.Nat.{ℕ, ◌+◌, ◌-◌}
use mathlib.Core.Bool.{Bool, true, false, ◌&&◌, ◌||◌}
use mathlib.Core.List.{List, [], ◌∷◌, ◌++◌, map, reverse}
use efe_process_monitor.Common.Tests.{◌==◌, leb, if◌then◌else◌}
use efe_process_monitor.Common.Equality.{◌=?◌, list_eq, nat_eq}

abbrev pub Text : Type 0
Text = List ℕ

-- The bytes of an ASCII literal.
abbrev pub codes : String → Text
codes String.[] = []
codes (String.◌∷◌ c s) = code c ∷ codes s

abbrev pub lower_byte : ℕ → ℕ
lower_byte c = if leb b'A' c && leb c b'Z' then c + 32 else c

abbrev pub to_lower : Text → Text
to_lower = map lower_byte

abbrev pub upper_byte : ℕ → ℕ
upper_byte c = if leb b'a' c && leb c b'z' then c - 32 else c

abbrev pub to_upper : Text → Text
to_upper = map upper_byte

abbrev pub starts_with : Text → Text → Bool
starts_with s [] = true
starts_with [] (p ∷ ps) = false
starts_with (c ∷ s) (p ∷ ps) = (c == p) && starts_with s ps

abbrev pub contains : Text → Text → Bool
contains [] p = starts_with [] p
contains (c ∷ s) p = starts_with (c ∷ s) p || contains s p

-- strings.Join
abbrev pub join : Text → List Text → Text
join sep [] = []
join sep (t ∷ []) = t
join sep (t ∷ (u ∷ ts)) = t ++ (sep ++ join sep (u ∷ ts))

-- strings.TrimSpace, for ASCII white space.
abbrev pub is_space : ℕ → Bool
is_space c = (c == b' ') || leb 9 c && leb c 13

abbrev pub drop_space : Text → Text
drop_space [] = []
drop_space (c ∷ s) = if is_space c then drop_space s else c ∷ s

unfoldable pub trim_space : Text → Text
trim_space s = reverse (drop_space (reverse (drop_space s)))

abbrev pub one_of : Text → List Text → Bool
one_of t [] = false
one_of t (u ∷ us) = (t =? u) || one_of t us
