-- ===== src/Audit/Kernel/Taint.antt =====
-- The taint flags are read back as the number that they show.
use native.Mathlib.Omega.{pow_step}
use efe_process_monitor.Common.{
  ℕ, suc, ◌+◌, ◌*◌, ◌/◌, ◌%◌, ◌^◌, ◌<◌, ◌≡◌, ◌∙◌, ap, ◌≢◌, refl, [], ◌∷◌, List, ◌==◌, if◌then◌else◌,
  All, arith, length, Bool-cases, inl, inr,
}
use efe_process_monitor.Common.Texts.{Text, codes, join}
use efe_process_monitor.Common.Cuts.{split}
use efe_process_monitor.Score.Reasons.Splits.{Lacks, split-join}
use efe_process_monitor.Audit.Kernel.{taint_letters, flags_from, taint_flags}

-- The number whose bits are the letters that stand in the list, in the letters' order.
pub read_flags : Text → List Text → ℕ
read_flags [] ts = 0
read_flags (c ∷ cs) ((d ∷ []) ∷ ts) =
    let rest = read_flags cs ts in
    let other = read_flags cs ((d ∷ []) ∷ ts) in if c == d then 2 * rest + 1 else 2 * other
read_flags (c ∷ cs) ts = 2 * read_flags cs ts

abbrev Distinct : Text → Type 0
Distinct [] = Unit
Distinct (c ∷ cs) = All (λ d. c ≢ d) cs × Distinct cs

-- The flags of letters that c is none of do not start with c.
abbrev Starts : ℕ → List Text → Type 0
Starts c ((d ∷ []) ∷ ts) = c ≢ d
Starts c _ = Unit

flags_from-Starts : (c : ℕ) (cs : Text) (n : ℕ) → All (λ d. c ≢ d) cs → Starts c (flags_from cs n)
unfolding flags_from
flags_from-Starts c [] n h = tt
flags_from-Starts c (d ∷ cs) n h = elim (Bool-cases (n % 2 == 1)) [
  | inl e ↦ rw e h.0
  | inr e ↦ rw e (flags_from-Starts c cs (n / 2) h.1)
]

read_flags-skip :
    (c : ℕ) (cs : Text) (ts : List Text)
    → Starts c ts
    → read_flags (c ∷ cs) ts ≡ 2 * read_flags cs ts
unfolding read_flags
read_flags-skip c cs [] h = refl
read_flags-skip c cs ([] ∷ ts) h = refl
read_flags-skip c cs ((d ∷ []) ∷ ts) h = ground arith
read_flags-skip c cs ((d ∷ (d' ∷ t)) ∷ ts) h = refl

pow-suc_two : (k : ℕ) → 2 ^ suc k ≡ 2 * 2 ^ k
pow-suc_two k = pow_step 2 k

read_flags-blank : (cs : Text) → read_flags cs (split b' ' []) ≡ read_flags cs []
unfolding read_flags split
read_flags-blank [] = refl
read_flags-blank (c ∷ cs) = omega (arith, read_flags-blank cs)

read_flags-flags_from :
    (cs : Text) (n : ℕ) → Distinct cs → n < 2 ^ length cs → read_flags cs (flags_from cs n) ≡ n
unfolding read_flags flags_from
read_flags-flags_from [] n h k = omega arith
read_flags-flags_from (c ∷ cs) n h k =
    let two : 2 ^ suc (length cs) ≡ 2 * 2 ^ length cs = pow-suc_two (length cs) in
    let small : n / 2 < 2 ^ length cs = omega (arith, two) in
    let ih = read_flags-flags_from cs (n / 2) h.1 small in
    elim (Bool-cases (n % 2 == 1)) [
      | inl e ↦ rw e (ground (arith, ih))
      | inr e ↦ rw e (
          read_flags-skip c cs (flags_from cs (n / 2)) (flags_from-Starts c cs (n / 2) h.0)
          ∙ ground (arith, ih))
    ]

flags_from-Lacks : (cs : Text) (n : ℕ) → All (λ d. d ≢ b' ') cs → All (Lacks b' ') (flags_from cs n)
unfolding flags_from
flags_from-Lacks [] n h = tt
flags_from-Lacks (c ∷ cs) n h = elim (Bool-cases (n % 2 == 1)) [
  | inl e ↦ rw e ((h.0, tt), flags_from-Lacks cs (n / 2) h.1)
  | inr e ↦ rw e (flags_from-Lacks cs (n / 2) h.1)
]

split-join_nil :
    (cs : Text) (ts : List Text)
    → All (Lacks b' ') ts
    → read_flags cs (split b' ' (join (codes " ") ts)) ≡ read_flags cs ts
split-join_nil cs [] h = read_flags-blank cs
split-join_nil cs (t ∷ ts) h = ap (read_flags cs) (split-join b' ' t ts h)

-- A kernel's taint number below 2 ^ 18 is read back from the letters that are shown for it, split at
-- the spaces: no two numbers show the same letters.
pub read_flags-taint_flags :
    (n : ℕ) → n < 262144 → read_flags taint_letters (split b' ' (taint_flags n)) ≡ n
unfolding taint_flags
read_flags-taint_flags n h =
    split-join_nil taint_letters (flags_from taint_letters n)
      (flags_from-Lacks taint_letters n (omega arith))
    ∙ read_flags-flags_from taint_letters n (omega arith) h
