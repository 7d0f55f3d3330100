-- ===== src/Dns/Name/Range.antt =====
-- The name and the offset that readDNSName returns are bounded.
use efe_process_monitor.Common.{
  ℕ, zero, suc, ◌+◌, ◌-◌, ◌*◌, ◌≤◌, ◌<◌, ◌≡◌, Option, none, some, List, [], ◌∷◌, ◌++◌, length,
  length-append, length-take, arith, take, drop,
}
use efe_process_monitor.Common.Outcome.{Outcome, ret, crash, byte, index-ret, be16-ret, slice-ret}
use efe_process_monitor.Common.Texts.{Text, join}
use efe_process_monitor.Dns.Name.{
  NameState, NameStep, next, found, malformed, end_or, pointer_step, label_step, length_step,
  name_step, name_loop, then_loop, name_start, read_dns_name, NameResult,
}

abbrev total_length : List Text → ℕ
total_length [] = 0
total_length (t ∷ ts) = length t + total_length ts

total_length-concat :
    (ts : List Text) (t : Text) → total_length (ts ++ t ∷ []) ≡ total_length ts + length t
total_length-concat [] t = omega arith
total_length-concat (u ∷ ts) t = omega (arith, total_length-concat ts t)

length-join : (c : ℕ) (ts : List Text) → length (join (c ∷ []) ts) ≤ total_length ts + length ts
length-join c [] = omega arith
length-join c (t ∷ []) = omega arith
length-join c (t ∷ (u ∷ ts)) =
    omega (arith, length-join c (u ∷ ts), length-append t ((c ∷ []) ++ join (c ∷ []) (u ∷ ts)))

module _ (b : Text) (start : ℕ) where
  -- Where the name ends: at a pointer already followed, or still ahead.
  abbrev EndFits : Option ℕ → ℕ → Type 0
  EndFits none off = start ≤ off
  EndFits (some e) off = (start < e) × (e ≤ length b)

  record Inside (s : NameState) : Type 0 where
    end_fits : EndFits s.end s.off
    few : length s.labels ≤ 128
    short : total_length s.labels ≤ 63 * length s.labels

  -- A name of at most 8192 bytes, and an end past the start and within the message.
  abbrev NameFits : Text → ℕ → Type 0
  NameFits n e = (length n ≤ 8192) × (start < e) × (e ≤ length b)

  abbrev StepFits : Outcome NameStep → Type 0
  StepFits crash = Unit
  StepFits (ret malformed) = Unit
  StepFits (ret (found n e)) = NameFits n e
  StepFits (ret (next t)) = Inside t

  abbrev pub ResultFits : Outcome NameResult → Type 0
  ResultFits (ret (some (n, e))) = NameFits n e
  ResultFits (ret none) = Unit
  ResultFits crash = Unit

  end_or-fits :
      (o : Option ℕ) (off k : ℕ)
      → EndFits o off
      → off + k ≤ length b
      → 0 < k
      → (start < end_or o (off + k)) × (end_or o (off + k) ≤ length b)
  end_or-fits none off k f h p = (omega arith, omega arith)
  end_or-fits (some e) off k f h p = f

  module _ (s : NameState) (i : Inside s) where
    pointer_step-fits : StepFits (pointer_step b s)
    unfolding pointer_step
    pointer_step-fits =
        ground (arith, be16-ret b s.off, end_or-fits s.end s.off 2 i.end_fits, i.few, i.short)

    label_step-fits : (l : ℕ) → l ≤ 63 → StepFits (label_step b s l)
    unfolding label_step
    label_step-fits l h =
        let t = take (s.off + 1 + l - (s.off + 1)) (drop (s.off + 1) b) in
        ground (
          arith,
          slice-ret b (s.off + 1) (s.off + 1 + l),
          length-append s.labels (t ∷ []),
          total_length-concat s.labels t,
          length-take (s.off + 1 + l - (s.off + 1)) (drop (s.off + 1) b),
          i.few,
          i.short,
        )

    length_step-fits : (l : ℕ) → s.off < length b → StepFits (length_step b s l)
    unfolding length_step
    length_step-fits l h = ground (
      arith,
      pointer_step-fits,
      label_step-fits l,
      length-join b'.' s.labels,
      end_or-fits s.end s.off 1 i.end_fits,
      i.few,
      i.short,
    )

    name_step-fits : StepFits (name_step b s)
    unfolding name_step
    name_step-fits = ground (arith, index-ret b s.off, length_step-fits (byte b s.off))

  then_loop-fits :
      (again : NameState → Outcome NameResult) (r : Outcome NameStep)
      → ((t : NameState) → Inside t → ResultFits (again t))
      → StepFits r
      → ResultFits (then_loop again r)
  then_loop-fits again crash ih f = tt
  then_loop-fits again (ret malformed) ih f = tt
  then_loop-fits again (ret (found n e)) ih f = f
  then_loop-fits again (ret (next t)) ih f = ih t f

  name_loop-fits : (fuel : ℕ) (s : NameState) → Inside s → ResultFits (name_loop fuel b s)
  unfolding name_loop
  name_loop-fits zero s i = tt
  name_loop-fits (suc fuel) s i =
      then_loop-fits (name_loop fuel b) (name_step b s) (name_loop-fits fuel) (name_step-fits s i)

-- A name that readDNSName returns has at most 8192 bytes; the offset returned with it lies
-- past the offset that was asked for and within the message.
pub read_dns_name_fits : (b : Text) (off : ℕ) → ResultFits b off (read_dns_name b off)
unfolding read_dns_name
read_dns_name_fits b off = name_loop-fits b off 145 (name_start off) (omega arith)
