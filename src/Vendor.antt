-- ===== src/Vendor.antt =====
-- oui.go: the vendor of a network card. `table` is the embedded registry, from prefixes to names.
pub mod Longest
use efe_process_monitor.Common.{
  ℕ, ◌+◌, ◌-◌, ◌/◌, ◌%◌, Bool, true, false, ◌&&◌, ◌||◌, Option, none, some, [], ◌∷◌, List, list_eq,
  nat_eq, length, take, ltb, leb, ◌==◌, ◌=?◌, if◌then◌else◌,
}
use efe_process_monitor.Common.Texts.{Text, to_upper}
use efe_process_monitor.Common.Maps.{Map, lookup}
use efe_process_monitor.Common.Outcome.{byte}

abbrev pub is_separator : ℕ → Bool
is_separator c = (c == b':') || (c == b'-') || (c == b'.')

pub drop_separators : Text → Text
drop_separators [] = []
drop_separators (c ∷ s) = let rest = drop_separators s in if is_separator c then rest else c ∷ rest

abbrev pub hex_of : Text → Text
hex_of mac = to_upper (drop_separators mac)

unfoldable pub from_hex : ℕ → Option ℕ
from_hex c =
    if leb b'0' c && leb c b'9'
    then some (c - b'0')
    else if leb b'A' c && leb c b'F'
    then some (c - b'A' + 10)
    else if leb b'a' c && leb c b'f'
    then some (c - b'a' + 10)
    else none

-- The second lowest bit of the first octet is set.
abbrev pub is_local_digit : Option ℕ → Bool
is_local_digit none = false
is_local_digit (some b) = b / 2 % 2 == 1

-- The name under the first of the lengths that the text has and the table knows.
pub first_known : Map Text Text → Text → List ℕ → Text
first_known table hex [] = []
first_known table hex (n ∷ ns) =
    let shorter = first_known table hex ns in
    if leb n (length hex)
    then elim (lookup (take n hex) table) [ some v ↦ v | none ↦ shorter ]
    else shorter

abbrev pub prefix_lengths : List ℕ
prefix_lengths = 9 ∷ 7 ∷ 6 ∷ []

pub oui_vendor : Map Text Text → Text → Text
oui_vendor table mac =
    let hex = hex_of mac in
    if mac =? []
    then []
    else if ltb (length hex) 6
    then []
    else if is_local_digit (from_hex (byte hex 1))
    then []
    else first_known table hex prefix_lengths
