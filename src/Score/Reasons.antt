-- ===== src/Score/Reasons.antt =====
-- connections.go: the encoding of the reasons behind a score, `key/pts/arg|arg;key/pts;key`.
-- `template` is the entry bd_<key> of the language, and `sprintf` is fmt.Sprintf.
pub mod Escape
pub mod Splits
pub mod RoundTrip
use efe_process_monitor.Common.{
  ℕ, zero, suc, ◌+◌, Bool, true, false, not, ◌&&◌, ◌||◌, Option, none, some, [], ◌∷◌, ◌++◌, List,
  map, list_eq, nat_eq, length, ltb, leb, ◌=?◌, ◌==◌, if◌then◌else◌, all,
}
use efe_process_monitor.Common.Ints.{itoa, is_digit}
use efe_process_monitor.Common.Cuts.{cut, split}
use efe_process_monitor.Common.Texts.{Text, codes, join}

pub record Reason : Type 0 where
  pub key : Text
  pub pts : ℕ
  pub args : List Text

-- reasonEscaper
abbrev pub escape_byte : ℕ → Text
escape_byte c =
    if c == b'%'
    then codes "%25"
    else if c == b';'
    then codes "%3B"
    else if c == b'/'
    then codes "%2F"
    else if c == b'|'
    then codes "%7C"
    else c ∷ []

pub escape : Text → Text
escape [] = []
escape (c ∷ s) = escape_byte c ++ escape s

-- The byte that three bytes stand for, in reasonUnescaper.
abbrev pub escaped_byte : ℕ → ℕ → ℕ → Option ℕ
escaped_byte a b c =
    if not (a == b'%')
    then none
    else if b == b'3' && c == b'B'
    then some b';'
    else if b == b'2' && c == b'F'
    then some b'/'
    else if b == b'7' && c == b'C'
    then some b'|'
    else if b == b'2' && c == b'5'
    then some b'%'
    else none

pub unescape : Text → Text
unescape (a ∷ (b ∷ (c ∷ s))) = elim (escaped_byte a b c) [
  | some x ↦ x ∷ unescape s
  | none ↦ a ∷ unescape (b ∷ (c ∷ s))
]
unescape s = s

abbrev pub is_nil {ℓ} : {A : Type ℓ} → List A → Bool
is_nil [] = true
is_nil (x ∷ xs) = false

abbrev pub slash : Text → Text
slash s = b'/' ∷ s

pub encode_args : List Text → Text
encode_args args = join (b'|' ∷ []) (map escape args)

pub encode_reason : Reason → Text
encode_reason r =
    r.key
    ++ ((if not (r.pts == 0) || not (is_nil r.args) then slash (itoa r.pts) else [])
        ++ (if not (is_nil r.args) then slash (encode_args r.args) else []))

pub encode_reasons : List Reason → Text
encode_reasons rs = join (b';' ∷ []) (map encode_reason rs)

-- One part of the code: the key, the points and the arguments, split as SplitN(p, "/", 3) does.
pub record Part : Type 0 where
  pub key : Text
  pub pts : Option Text
  pub args : Option Text

abbrev pub second_cut : Text → Option Text → Part
second_cut key none = record { key = key; pts = none; args = none }
second_cut key (some rest) =
    let p = cut b'/' rest in record { key = key; pts = some p.0; args = p.1 }

pub read_part : Text → Part
read_part p = let (key, rest) = cut b'/' p in second_cut key rest

pub read_args : Option Text → List Text
read_args none = []
read_args (some s) = map unescape (split b'|' s)

-- breakdownCodeRe, which matches where each part between semicolons does.
abbrev pub is_key_byte : ℕ → Bool
is_key_byte c = (leb b'a' c && leb c b'z') || is_digit c || c == b'_'

abbrev pub is_key : Text → Bool
is_key k = not (is_nil k) && all is_key_byte k

abbrev pub unsigned : Text → Text
unsigned [] = []
unsigned (c ∷ s) = if c == b'-' then s else c ∷ s

abbrev pub is_points : Option Text → Bool
is_points none = true
is_points (some s) = not (is_nil (unsigned s)) && all is_digit (unsigned s)

abbrev pub is_part : Part → Bool
is_part p = is_key p.key && is_points p.pts

pub is_breakdown_code : Text → Bool
is_breakdown_code code = all (λ p. is_part (read_part p)) (split b';' code)

module _ (template : Text → Option Text) (sprintf : Text → List Text → Text) where
  abbrev pub with_points : Option Text → Text → Text
  with_points none s = s
  with_points (some pts) s = s ++ (codes " (+" ++ (pts ++ codes ")"))

  -- The text of one part, if its key is known.
  pub localize_part : Part → Option Text
  localize_part p = elim (template p.key) [
    | none ↦ none
    | some t ↦ some (with_points p.pts (sprintf t (read_args p.args)))
  ]

  abbrev pub both : Option Text → Option (List Text) → Option (List Text)
  both none ts = none
  both (some t) none = none
  both (some t) (some ts) = some (t ∷ ts)

  pub localize_parts : List Text → Option (List Text)
  localize_parts [] = some []
  localize_parts (p ∷ ps) = both (localize_part (read_part p)) (localize_parts ps)

  -- " · " in UTF-8
  abbrev pub dot_between : Text
  dot_between = 32 ∷ 194 ∷ 183 ∷ 32 ∷ []

  pub localize_breakdown : Text → Text
  localize_breakdown code =
      if is_nil code || not (is_breakdown_code code)
      then code
      else elim (localize_parts (split b';' code)) [ none ↦ code | some ts ↦ join dot_between ts ]
