-- ===== src/Vendor/Longest.antt =====
-- The longest known prefix decides, however the address is written.
use efe_process_monitor.Common.{
  ℕ, ◌≤◌, ◌<◌, ◌≡◌, ◌≢◌, refl, subst, leb→le, ◌∙◌, false, none, some, [], ◌∷◌, List, list_eq,
  nat_eq, list_beq_iff, length, take, ltb, leb, In, inl, inr, arith, Bool-cases,
}
use efe_process_monitor.Common.Texts.{Text}
use efe_process_monitor.Common.Maps.{Map, lookup}
use efe_process_monitor.Common.Outcome.{byte}
use efe_process_monitor.Vendor.{
  drop_separators, hex_of, from_hex, is_local_digit, first_known, prefix_lengths, oui_vendor,
}

-- The name is the table's for a prefix of this length, and no longer prefix is known.
abbrev pub IsLongest : Map Text Text → Text → ℕ → Text → Type 0
IsLongest table hex n v =
    In n prefix_lengths
    × (n ≤ length hex)
    × (lookup (take n hex) table ≡ some v)
    × ((m : ℕ) → In m prefix_lengths → n < m → m ≤ length hex → lookup (take m hex) table ≡ none)

first_known-skip :
    (table : Map Text Text) (hex : Text) (n : ℕ) (ns : List ℕ)
    → (n ≤ length hex → lookup (take n hex) table ≡ none)
    → first_known table hex (n ∷ ns) ≡ first_known table hex ns
unfolding first_known
first_known-skip table hex n ns h = elim (Bool-cases (leb n (length hex))) [
  | inl e ↦ let o = h (leb→le n (length hex) e) in ground arith
  | inr e ↦ ground arith
]

first_known-hit :
    (table : Map Text Text) (hex : Text) (n : ℕ) (ns : List ℕ) (v : Text)
    → n ≤ length hex
    → lookup (take n hex) table ≡ some v
    → first_known table hex (n ∷ ns) ≡ v
unfolding first_known
first_known-hit table hex n ns v l f = ground arith

-- What is known of a length is known of an equal one.
known_at :
    (table : Map Text Text) (hex : Text) (v : Text) {n m : ℕ}
    → n ≡ m
    → lookup (take n hex) table ≡ some v
    → lookup (take m hex) table ≡ some v
known_at table hex v e f = subst (λ k. lookup (take k hex) table ≡ some v) e f

first_known-IsLongest :
    (table : Map Text Text) (hex : Text) (n : ℕ) (v : Text)
    → IsLongest table hex n v
    → first_known table hex prefix_lengths ≡ v
first_known-IsLongest table hex n v (inl e, l, f, g) =
    first_known-hit table hex 9 (7 ∷ 6 ∷ []) v (omega arith) (known_at table hex v e f)
first_known-IsLongest table hex n v (inr (inl e), l, f, g) =
    first_known-skip table hex 9 (7 ∷ 6 ∷ []) (g 9 (inl refl) (omega arith))
    ∙ first_known-hit table hex 7 (6 ∷ []) v (omega arith) (known_at table hex v e f)
first_known-IsLongest table hex n v (inr (inr (inl e)), l, f, g) =
    first_known-skip table hex 9 (7 ∷ 6 ∷ []) (g 9 (inl refl) (omega arith))
    ∙ first_known-skip table hex 7 (6 ∷ []) (g 7 (inr (inl refl)) (omega arith))
    ∙ first_known-hit table hex 6 [] v (omega arith) (known_at table hex v e f)
first_known-IsLongest table hex n v (inr (inr (inr e)), l, f, g) = absurd e

not_ltb : (l : ℕ) → 6 ≤ l → ltb l 6 ≡ false
not_ltb l h = ground arith

prefix_lengths-le : (n : ℕ) → In n prefix_lengths → 6 ≤ n
prefix_lengths-le n (inl e) = omega arith
prefix_lengths-le n (inr (inl e)) = omega arith
prefix_lengths-le n (inr (inr (inl e))) = omega arith
prefix_lengths-le n (inr (inr (inr e))) = absurd e

-- An address of a vendor's own, not one that is set locally, has the name of the longest of its
-- prefixes of nine, seven and six digits that the registry knows.
pub oui_vendor-IsLongest :
    (table : Map Text Text) (mac : Text) (n : ℕ) (v : Text)
    → is_local_digit (from_hex (byte (hex_of mac) 1)) ≡ false
    → IsLongest table (hex_of mac) n v
    → oui_vendor table mac ≡ v
unfolding oui_vendor drop_separators
oui_vendor-IsLongest table [] n v u h = absurd (omega (arith, prefix_lengths-le n h.0, h.1))
oui_vendor-IsLongest table (c ∷ mac) n v u h =
    let six : ltb (length (hex_of (c ∷ mac))) 6 ≡ false =
      not_ltb (length (hex_of (c ∷ mac))) (omega (arith, prefix_lengths-le n h.0, h.1)) in
    let k = first_known-IsLongest table (hex_of (c ∷ mac)) n v h in rw (six, u) k

hex_of-hex_of : (mac : Text) → hex_of (hex_of mac) ≡ hex_of mac
unfolding drop_separators
hex_of-hex_of [] = refl
hex_of-hex_of (c ∷ mac) = ground (arith, hex_of-hex_of mac)

-- How an address is written, in which case and with which separators, does not change its vendor.
pub oui_vendor-hex_of :
    (table : Map Text Text) (mac mac' : Text)
    → hex_of mac ≡ hex_of mac'
    → mac ≢ []
    → mac' ≢ []
    → oui_vendor table mac ≡ oui_vendor table mac'
unfolding oui_vendor
oui_vendor-hex_of table mac mac' e n n' =
    ground (arith, list_beq_iff mac [], list_beq_iff mac' [], e)
