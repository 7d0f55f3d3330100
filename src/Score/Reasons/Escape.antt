-- ===== src/Score/Reasons/Escape.antt =====
-- Escaped arguments come back, and hold none of the separators.
use efe_process_monitor.Common.{ℕ, ◌≡◌, ◌≢◌, refl, [], ◌∷◌, arith, All, All-append}
use efe_process_monitor.Common.Texts.{Text}
use efe_process_monitor.Score.Reasons.{escape_byte, escape, unescape}

unescape-plain : (c : ℕ) (s : Text) → c ≢ b'%' → unescape (c ∷ s) ≡ c ∷ unescape s
unfolding unescape
unescape-plain c [] ne = refl
unescape-plain c (x ∷ []) ne = refl
unescape-plain c (x ∷ (y ∷ s)) ne = ground arith

-- Unescaping undoes escaping, for any bytes.
pub unescape-escape : (s : Text) → unescape (escape s) ≡ s
unfolding escape unescape
unescape-escape [] = refl
unescape-escape (c ∷ s) = ground (arith, unescape-plain c (escape s), unescape-escape s)

-- No separator of the encoding.
abbrev pub IsPlain : ℕ → Type 0
IsPlain c = (c ≢ b';') × (c ≢ b'/') × (c ≢ b'|')

escape_byte-IsPlain : (c : ℕ) → All IsPlain (escape_byte c)
escape_byte-IsPlain c = ground arith

pub escape-IsPlain : (s : Text) → All IsPlain (escape s)
unfolding escape
escape-IsPlain [] = tt
escape-IsPlain (c ∷ s) =
    All-append IsPlain (escape_byte c) (escape s) (escape_byte-IsPlain c) (escape-IsPlain s)
