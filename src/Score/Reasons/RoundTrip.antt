-- ===== src/Score/Reasons/RoundTrip.antt =====
-- Reading back the encoded reasons.
use efe_process_monitor.Common.{
  ℕ, ◌≡◌, ◌≢◌, refl, Bool, true, false, not, ◌||◌, ◌&&◌, Option, none, some, [], ◌∷◌, ◌++◌, List,
  map, arith, All, All-append, if◌then◌else◌, ◌==◌, all, append-nil,
}
use efe_process_monitor.Common.Ints.{itoa, itoa-digits, itoa-nonempty, is_digit}
use efe_process_monitor.Common.Texts.{Text, join}
use efe_process_monitor.Common.Cuts.{split}
use efe_process_monitor.Score.Reasons.{
  Reason, Part, encode_args, encode_reason, encode_reasons, is_nil, slash, escape, unescape,
  read_part, read_args, is_key, is_key_byte, is_part, is_points, is_breakdown_code,
}
use efe_process_monitor.Score.Reasons.Escape.{unescape-escape, IsPlain, escape-IsPlain}
use efe_process_monitor.Score.Reasons.Splits.{Lacks, cut-Lacks, cut-append, split-join}

-- What the encoding keeps of a reason.
abbrev pub has_points : Reason → Bool
has_points r = not (r.pts == 0) || not (is_nil r.args)

abbrev pub part_of : Reason → Part
part_of r = record {
  key = r.key;
  pts = if has_points r then some (itoa r.pts) else none;
  args = if not (is_nil r.args) then some (encode_args r.args) else none;
}

digits-Lacks : (c : ℕ) (s : Text) → is_digit c ≡ false → All (λ x. is_digit x ≡ true) s → Lacks c s
digits-Lacks c [] h d = tt
digits-Lacks c (x ∷ s) h d = ((λ e. cc (rw e at d.0)), digits-Lacks c s h d.1)

key-Lacks : (c : ℕ) (s : Text) → is_key_byte c ≡ false → all is_key_byte s ≡ true → Lacks c s
key-Lacks c [] h d = tt
key-Lacks c (x ∷ s) h d = ground (arith, key-Lacks c s h)

plain-Lacks : (c : ℕ) (s : Text) → ((x : ℕ) → IsPlain x → x ≢ c) → All IsPlain s → Lacks c s
plain-Lacks c [] f h = tt
plain-Lacks c (x ∷ s) f h = (f x h.0, plain-Lacks c s f h.1)

map-escape-Lacks :
    (c : ℕ) (args : List Text) → ((x : ℕ) → IsPlain x → x ≢ c) → All (Lacks c) (map escape args)
map-escape-Lacks c [] f = tt
map-escape-Lacks c (a ∷ args) f =
    (plain-Lacks c (escape a) f (escape-IsPlain a), map-escape-Lacks c args f)

map-unescape : (args : List Text) → map unescape (map escape args) ≡ args
map-unescape [] = refl
map-unescape (a ∷ args) = rw (unescape-escape a, map-unescape args)

-- The arguments come back, whatever bytes they hold.
read_args-encode_args :
    (a : Text) (args : List Text) → read_args (some (encode_args (a ∷ args))) ≡ a ∷ args
unfolding read_args encode_args
read_args-encode_args a args =
    rw
      (split-join b'|' (escape a) (map escape args) (map-escape-Lacks b'|' (a ∷ args) (λ x h. h.2)))
      (map-unescape (a ∷ args))

join-Lacks : (c d : ℕ) (ts : List Text) → d ≢ c → All (Lacks c) ts → Lacks c (join (d ∷ []) ts)
join-Lacks c d [] ne h = tt
join-Lacks c d (t ∷ []) ne h = h.0
join-Lacks c d (t ∷ (u ∷ ts)) ne h =
    All-append (λ x. x ≢ c) t _ h.0 (ne, join-Lacks c d (u ∷ ts) ne h.1)

read_part-pieces :
    (key i e : Text) (b a : Bool)
    → Lacks b'/' key
    → Lacks b'/' i
    → (a ≡ true → b ≡ true)
    → read_part (key ++ ((if b then slash i else []) ++ (if a then slash e else [])))
      ≡ record { key = key; pts = if b then some i else none; args = if a then some e else none }
unfolding read_part
read_part-pieces key i e true true k d f =
    rw (cut-append b'/' key (i ++ slash e) k, cut-append b'/' i e d)
read_part-pieces key i e true false k d f =
    rw (append-nil, cut-append b'/' key i k, cut-Lacks b'/' i d)
read_part-pieces key i e false true k d f = cc (f refl)
read_part-pieces key i e false false k d f = rw (append-nil, cut-Lacks b'/' key k)

or-right : (a b : Bool) → b ≡ true → (a || b) ≡ true
or-right true b e = refl
or-right false b e = e

key_bytes : (s : Text) → is_key s ≡ true → all is_key_byte s ≡ true
key_bytes [] e = cc
key_bytes (c ∷ s) e = e

module _ (r : Reason) (k : all is_key_byte r.key ≡ true) where
  encode_reason-Lacks : Lacks b';' (encode_reason r)
  unfolding encode_reason encode_args
  encode_reason-Lacks =
      All-append (λ x. x ≢ b';') r.key _ (key-Lacks b';' r.key refl k)
        (All-append (λ x. x ≢ b';') _ _ (points (has_points r)) (args (not (is_nil r.args))))
    where
      points : (b : Bool) → Lacks b';' (if b then slash (itoa r.pts) else [])
      points true =
          (λ e. absurd (omega arith), digits-Lacks b';' (itoa r.pts) refl (itoa-digits r.pts))
      points false = tt

      args : (b : Bool) → Lacks b';' (if b then slash (encode_args r.args) else [])
      args true = (
        λ e. absurd (omega arith),
        join-Lacks b';' b'|' (map escape r.args) (omega arith)
            (map-escape-Lacks b';' r.args (λ x h. h.0)),
      )
      args false = tt

  read_part-encode_reason : read_part (encode_reason r) ≡ part_of r
  unfolding encode_reason
  read_part-encode_reason =
      read_part-pieces r.key (itoa r.pts) (encode_args r.args) (has_points r) (not (is_nil r.args))
        (key-Lacks b'/' r.key refl k) (digits-Lacks b'/' (itoa r.pts) refl (itoa-digits r.pts))
        (or-right (not (r.pts == 0)) (not (is_nil r.args)))

-- What is shown of a reason: its key, its points if it has points or arguments, and its arguments.
abbrev pub Shown : Type 0
Shown = Text × Option Text × List Text

abbrev pub shown : Reason → Shown
shown r = (r.key, if has_points r then some (itoa r.pts) else none, r.args)

-- The code split up again as localizeBreakdown does.
pub read_reasons : Text → List Shown
read_reasons code = map (λ p. (p.key, p.pts, read_args p.args)) (map read_part (split b';' code))

abbrev pub HasKey : Reason → Type 0
HasKey r = is_key r.key ≡ true

shown-part_of : (r : Reason) → read_args (part_of r).args ≡ r.args
shown-part_of r = go r.args
  where
    go :
        (args : List Text)
        → read_args (if not (is_nil args) then some (encode_args args) else none) ≡ args
    go [] = unfold read_args in refl
    go (a ∷ args) = read_args-encode_args a args

shown_parts :
    (rs : List Reason)
    → All HasKey rs
    → map (λ p. (p.key, p.pts, read_args p.args)) (map read_part (map encode_reason rs))
      ≡ map shown rs
shown_parts [] h = refl
shown_parts (r ∷ rs) h =
    rw (read_part-encode_reason r (key_bytes r.key h.0), shown-part_of r, shown_parts rs h.1)

Lacks-parts : (rs : List Reason) → All HasKey rs → All (Lacks b';') (map encode_reason rs)
Lacks-parts [] h = tt
Lacks-parts (r ∷ rs) h = (encode_reason-Lacks r (key_bytes r.key h.0), Lacks-parts rs h.1)

-- The reasons come back from their encoding in order, with keys, points and arguments, whatever
-- bytes the arguments hold.
pub read_reasons-encode_reasons :
    (r : Reason) (rs : List Reason)
    → All HasKey (r ∷ rs)
    → read_reasons (encode_reasons (r ∷ rs)) ≡ map shown (r ∷ rs)
unfolding read_reasons encode_reasons
read_reasons-encode_reasons r rs h =
    rw (split-join b';' (encode_reason r) (map encode_reason rs) (Lacks-parts (r ∷ rs) h))
      (shown_parts (r ∷ rs) h)

all_digits : (s : Text) → All (λ x. is_digit x ≡ true) s → all is_digit s ≡ true
all_digits [] h = refl
all_digits (c ∷ s) h = rw (h.0, all_digits s h.1)

points_match :
    (b : Bool) (s : Text)
    → All (λ x. is_digit x ≡ true) s
    → s ≢ []
    → is_points (if b then some s else none) ≡ true
points_match false s h ne = refl
points_match true [] h ne = absurd (ne refl)
points_match true (c ∷ s) h ne = ground (arith, all_digits s h.1, h.0)

and_true : {a b : Bool} → a ≡ true → b ≡ true → (a && b) ≡ true
and_true p q = rw (p, q)

parts_match :
    (rs : List Reason)
    → All HasKey rs
    → all (λ p. is_part (read_part p)) (map encode_reason rs) ≡ true
parts_match [] h = refl
parts_match (r ∷ rs) h =
    and_true
      (rw (read_part-encode_reason r (key_bytes r.key h.0)) (
        and_true h.0
          (points_match (has_points r) (itoa r.pts) (itoa-digits r.pts) (itoa-nonempty r.pts))))
      (parts_match rs h.1)

-- Encoded reasons always match the pattern by which the code is told from free text.
pub is_breakdown_code-encode_reasons :
    (r : Reason) (rs : List Reason)
    → All HasKey (r ∷ rs)
    → is_breakdown_code (encode_reasons (r ∷ rs)) ≡ true
unfolding is_breakdown_code encode_reasons
is_breakdown_code-encode_reasons r rs h =
    rw (split-join b';' (encode_reason r) (map encode_reason rs) (Lacks-parts (r ∷ rs) h))
      (parts_match (r ∷ rs) h)
