-- ===== src/Context/Unescaped.antt =====
-- unescapeUnit undoes an escaping that writes a backslash, an x and two digits for a byte.
use efe_process_monitor.Common.{
  ℕ, ◌+◌, ◌-◌, ◌*◌, ◌/◌, ◌%◌, ◌<◌, ◌≡◌, refl, ap, sym, ◌∙◌, Bool, true, false, none, some, [], ◌∷◌,
  All, ltb, ◌==◌, if◌then◌else◌, arith, Bool-cases, ==_iff, inl, inr,
}
use efe_process_monitor.Common.Texts.{Text, codes, contains}
use efe_process_monitor.Vendor.{from_hex}
use efe_process_monitor.Context.{hex_escape, unescape_from, unescape_unit}

abbrev pub hex_digit : ℕ → ℕ
hex_digit n = if ltb n 10 then b'0' + n else b'a' + (n - 10)

-- systemd's escaping of the bytes that `p` picks.
pub escape_unit : (ℕ → Bool) → Text → Text
escape_unit p [] = []
escape_unit p (c ∷ s) =
    let rest = escape_unit p s in
    if p c then b'\\' ∷ (b'x' ∷ (hex_digit (c / 16) ∷ (hex_digit (c % 16) ∷ rest))) else c ∷ rest

from_hex-hex_digit : (n : ℕ) → n < 16 → from_hex (hex_digit n) ≡ some n
unfolding from_hex
from_hex-hex_digit n h = ground arith

whole : (c : ℕ) → 16 * (c / 16) + c % 16 ≡ c
whole c = omega arith

not_escape : (p : ℕ → Bool) (c : ℕ) → p b'\\' ≡ true → p c ≡ false → (c == b'\\') ≡ false
not_escape p c h e = elim (Bool-cases (c == b'\\')) [
  | inl t ↦ absurd (let q = ap p ((==_iff c b'\\').0 t) in cc)
  | inr t ↦ t
]

unescape_from-escape_unit :
    (p : ℕ → Bool) (s : Text)
    → p b'\\' ≡ true
    → All (λ c. c < 256) s
    → unescape_from 0 (escape_unit p s) ≡ s
unfolding escape_unit unescape_from
unescape_from-escape_unit p [] h b = refl
unescape_from-escape_unit p (c ∷ s) h b =
    let ih = unescape_from-escape_unit p s h b.1 in
    elim (Bool-cases (p c)) [
      | inl e ↦
          let hi = from_hex-hex_digit (c / 16) (omega arith) in
          let lo = from_hex-hex_digit (c % 16) (omega arith) in
          rw (e, hi, lo) (λ i. whole c i ∷ ih i)
      | inr e ↦ rw (e, not_escape p c h e) (ap (◌∷◌ c) ih)
    ]

hex_escape-none : (x : ℕ) (s : Text) → (x == b'x') ≡ false → hex_escape (x ∷ s) ≡ none
hex_escape-none x [] h = refl
hex_escape-none x (a ∷ []) h = refl
hex_escape-none x (a ∷ (b ∷ s)) h = rw h refl

contains-none : (u : Text) → contains u (codes "\\x") ≡ false → unescape_from 0 u ≡ u
unfolding unescape_from
contains-none [] h = refl
contains-none (c ∷ []) h = ground arith
contains-none (c ∷ (x ∷ s)) h =
    let ih = contains-none (x ∷ s) (ground arith) in
    elim (Bool-cases (c == b'\\')) [
      | inl e ↦ let n = hex_escape-none x s (ground arith) in rw (e, n) (ap (◌∷◌ c) ih)
      | inr e ↦ rw e (ap (◌∷◌ c) ih)
    ]

-- Whatever bytes are escaped, the backslash among them: a name is read as it was before its escaping.
pub unescape_unit-escape_unit :
    (p : ℕ → Bool) (s : Text)
    → p b'\\' ≡ true
    → All (λ c. c < 256) s
    → unescape_unit (escape_unit p s) ≡ s
unfolding unescape_unit
unescape_unit-escape_unit p s h b =
    let u = escape_unit p s in
    let r = unescape_from-escape_unit p s h b in
    elim (Bool-cases (contains u (codes "\\x"))) [
      | inl e ↦ rw e r
      | inr e ↦ rw e (sym (contains-none u e) ∙ r)
    ]
