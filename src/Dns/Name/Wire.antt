-- ===== src/Dns/Name/Wire.antt =====
-- Names in wire format, and the loop of readDNSName over one. `tail` is what follows the labels.
use efe_process_monitor.Common.{
  ℕ, zero, suc, ◌+◌, ◌-◌, ◌/◌, ◌%◌, ◌≤◌, ◌<◌, ◌≡◌, sym, ap, ◌∙◌, some, List, [], ◌∷◌, ◌++◌, length,
  length-append, arith, take, drop, All, append_assoc, append-nil, take-append, drop-append,
  drop_at, drop_add, drop-length,
}
use efe_process_monitor.Common.Outcome.{ret, byte, slice-ret, index-ret, be16-ret, word}
use efe_process_monitor.Common.Texts.{Text, join}
use efe_process_monitor.Dns.Name.{
  NameState, next, found, malformed, end_or, pointer_step, label_step, length_step, name_step,
  name_loop,
}

-- Labels in front of what ends the name.
unfoldable pub encode_labels : List Text → Text → Text
encode_labels [] tail = tail
encode_labels (t ∷ ts) tail = length t ∷ (t ++ encode_labels ts tail)

unfoldable pub encoded_size : List Text → ℕ
encoded_size [] = 0
encoded_size (t ∷ ts) = length t + 1 + encoded_size ts

-- The two bytes of a compression pointer to offset p.
abbrev pub pointer_to : ℕ → Text → Text
pointer_to p rest = (192 + p / 256) ∷ (p % 256) ∷ rest

abbrev pub IsLabel : Text → Type 0
IsLabel t = (0 < length t) × (length t ≤ 63)

abbrev pub dot : Text
dot = b'.' ∷ []

-- What stands at an offset, read off the front of `drop`.
pub drop-cons :
    (b : Text) (i : ℕ) {x : ℕ} {r : Text}
    → drop i b ≡ x ∷ r
    → (i < length b) × (byte b i ≡ x) × (drop (i + 1) b ≡ r)
drop-cons [] zero e = cc
drop-cons [] (suc i) e = cc
drop-cons (y ∷ b) zero e = (omega arith, ground arith, ground arith)
drop-cons (y ∷ b) (suc i) e =
    let (h, f, g) = drop-cons b i e in
    (omega arith, f, drop_at (y ∷ b) {j = suc (i + 1)} (omega arith) ∙ g)

-- A label, its bytes and what follows it.
label_step-next :
    (b : Text) (s : NameState) (t rest : Text)
    → IsLabel t
    → drop s.off b ≡ length t ∷ (t ++ rest)
    → length s.labels ≤ 127
    → name_step b s
      ≡ ret (next (record s { off = s.off + (length t + 1); labels = s.labels ++ t ∷ [] }))
unfolding name_step length_step label_step
label_step-next b s t rest h d few =
    let (lt, first, after) = drop-cons b s.off d in
    let size = drop-length b (s.off + 1) in
    let whole = ap length after ∙ length-append t rest in
    let fits : s.off + 1 + length t ≤ length b = omega arith in
    let cut : take (s.off + 1 + length t - (s.off + 1)) (drop (s.off + 1) b) ≡ t =
      ap (λ n. take n (drop (s.off + 1) b)) {y = length t} (omega arith)
      ∙ ap (take (length t)) after
      ∙ take-append t rest in
    ground (arith, index-ret b s.off, first, slice-ret b (s.off + 1) (s.off + 1 + length t), cut)

pub name_step-end :
    (b : Text) (s : NameState) (rest : Text)
    → drop s.off b ≡ 0 ∷ rest
    → name_step b s ≡ ret (found (join dot s.labels) (end_or s.end (s.off + 1)))
unfolding name_step length_step
name_step-end b s rest d =
    let (lt, first, after) = drop-cons b s.off d in ground (arith, index-ret b s.off, first)

pub name_step-pointer :
    (b : Text) (s : NameState) (p : ℕ) (rest : Text)
    → drop s.off b ≡ pointer_to p rest
    → p < 16384
    → p < length b
    → s.jumps < 16
    → name_step b s
      ≡ ret
          (next (record s { off = p; end = some (end_or s.end (s.off + 2)); jumps = s.jumps + 1 }))
unfolding name_step length_step pointer_step
name_step-pointer b s p rest d small inside few =
    let (lt, first, after) = drop-cons b s.off d in
    let (lt', second, after') = drop-cons b (s.off + 1) after in
    let target : word b s.off % 16384 ≡ p = omega (arith, first, second) in
    ground (arith, index-ret b s.off, first, second, be16-ret b s.off, target)

abbrev pub after_labels : NameState → List Text → NameState
after_labels s ts = record s { off = s.off + encoded_size ts; labels = s.labels ++ ts }

-- The fuel for one round a label, and f for what follows.
abbrev pub rounds : List Text → ℕ → ℕ
rounds [] f = f
rounds (t ∷ ts) f = suc (rounds ts f)

pub rounds_lem : (ts : List Text) (f : ℕ) → rounds ts f ≡ length ts + f
rounds_lem [] f = omega arith
rounds_lem (t ∷ ts) f = omega (arith, rounds_lem ts f)

name_state_path :
    (s : NameState) {i j : ℕ} {us vs : List Text}
    → i ≡ j
    → us ≡ vs
    → ◌≡◌ {A = NameState} (record s { off = i; labels = us }) (record s { off = j; labels = vs })
name_state_path s p q = λ i. record s { off = p i; labels = q i }

pub name_loop-labels :
    (b : Text) (ts : List Text) (tail : Text) (fuel : ℕ) (s : NameState)
    → All IsLabel ts
    → drop s.off b ≡ encode_labels ts tail
    → length s.labels + length ts ≤ 128
    → (name_loop (rounds ts fuel) b s ≡ name_loop fuel b (after_labels s ts))
      × (drop (s.off + encoded_size ts) b ≡ tail)
unfolding name_loop encode_labels encoded_size
name_loop-labels b [] tail fuel s h d few = (
  ap (name_loop fuel b) (name_state_path s (omega arith) (sym (append-nil s.labels))),
  drop_at b {j = s.off} (omega arith) ∙ d,
)
name_loop-labels b (t ∷ ts) tail fuel s h d few =
    let s' = record s { off = s.off + (length t + 1); labels = s.labels ++ t ∷ [] } in
    let (lt, first, after) = drop-cons b s.off d in
    let d' : drop (s.off + (length t + 1)) b ≡ encode_labels ts tail =
      drop_at b {j = s.off + 1 + length t} (omega arith)
      ∙ drop_add b (s.off + 1) (length t)
      ∙ ap (drop (length t)) after
      ∙ drop-append t (encode_labels ts tail) in
    let few' = length-append s.labels (t ∷ []) in
    let (later, left) = name_loop-labels b ts tail fuel s' h.1 d' (omega arith) in
    (
      rw (label_step-next b s t (encode_labels ts tail) h.0 d (omega arith)) (
          later
          ∙ ap (name_loop fuel b)
              (name_state_path s (omega arith) (append_assoc s.labels (t ∷ []) ts))),
      drop_at b {j = s.off + (length t + 1) + encoded_size ts} (omega arith) ∙ left,
    )

-- The seventeenth jump is refused, wherever it points.
pub name_step-jumps_spent :
    (b : Text) (s : NameState) (p : ℕ) (rest : Text)
    → drop s.off b ≡ pointer_to p rest
    → p < 16384
    → s.jumps ≡ 16
    → name_step b s ≡ ret malformed
unfolding name_step length_step pointer_step
name_step-jumps_spent b s p rest d small spent =
    let (lt, first, after) = drop-cons b s.off d in
    let (lt', second, after') = drop-cons b (s.off + 1) after in
    ground (arith, index-ret b s.off, first, second, be16-ret b s.off)

pub drop-encode_labels :
    (b : Text) (ts : List Text) (tail : Text) (off : ℕ)
    → drop off b ≡ encode_labels ts tail
    → drop (off + encoded_size ts) b ≡ tail
unfolding encode_labels encoded_size
drop-encode_labels b [] tail off d = drop_at b {j = off} (omega arith) ∙ d
drop-encode_labels b (t ∷ ts) tail off d =
    let (lt, first, after) = drop-cons b off d in
    let d' : drop (off + 1 + length t) b ≡ encode_labels ts tail =
      drop_add b (off + 1) (length t)
      ∙ ap (drop (length t)) after
      ∙ drop-append t (encode_labels ts tail) in
    drop_at b {j = off + 1 + length t + encoded_size ts} (omega arith)
    ∙ drop-encode_labels b ts tail (off + 1 + length t) d'
