-- ===== src/Dns/Name/Total.antt =====
-- readDNSName on any bytes: it returns, and what it returns is in range.
use efe_process_monitor.Common.{
  ℕ, zero, suc, ◌+◌, ◌-◌, ◌≤◌, ◌<◌, ◌≡◌, refl, none, some, [], ◌∷◌, length, length-append, arith,
  take, drop,
}
use efe_process_monitor.Common.Outcome.{Outcome, ret, crash, byte, index-ret, be16-ret, slice-ret}
use efe_process_monitor.Common.Texts.{Text}
use efe_process_monitor.Dns.Name.{
  NameState, NameStep, next, found, malformed, end_or, pointer_step, label_step, length_step,
  name_step, name_loop, then_loop, name_start, read_dns_name, NameResult,
}

-- The bounds that the guards keep on the loop's state.
record IsBounded (s : NameState) : Type 0 where
  few_jumps : s.jumps ≤ 16
  few_labels : length s.labels ≤ 128

-- Rounds that a bounded state has spent.
abbrev spent : NameState → ℕ
spent s = s.jumps + length s.labels

-- A round never crashes; it keeps the bounds and spends a jump or a label.
abbrev Advances : NameState → Outcome NameStep → Type 0
Advances s crash = ⊥
Advances s (ret malformed) = Unit
Advances s (ret (found n e)) = e ≡ end_or s.end (s.off + 1)
Advances s (ret (next t)) = IsBounded t × (spent t ≡ spent s + 1)

module _ (b : Text) (s : NameState) (bounded : IsBounded s) where
  pointer_step-Advances : Advances s (pointer_step b s)
  unfolding pointer_step
  pointer_step-Advances = ground (arith, be16-ret b s.off)

  label_step-Advances : (l : ℕ) → Advances s (label_step b s l)
  unfolding label_step
  label_step-Advances l =
      let t = take (s.off + 1 + l - (s.off + 1)) (drop (s.off + 1) b) in
      ground (arith, slice-ret b (s.off + 1) (s.off + 1 + l), length-append s.labels (t ∷ []))

  length_step-Advances : (l : ℕ) → Advances s (length_step b s l)
  unfolding length_step
  length_step-Advances l = ground (arith, pointer_step-Advances, label_step-Advances l)

  name_step-Advances : Advances s (name_step b s)
  unfolding name_step
  name_step-Advances = ground (arith, index-ret b s.off, length_step-Advances (byte b s.off))

then_loop-ret :
    (again : NameState → Outcome NameResult) (s : NameState) (r : Outcome NameStep)
    → ((t : NameState) → IsBounded t → spent t ≡ spent s + 1 → (x : NameResult) × (again t ≡ ret x))
    → Advances s r
    → (x : NameResult) × (then_loop again r ≡ ret x)
then_loop-ret again s crash ih a = absurd a
then_loop-ret again s (ret malformed) ih a = (none, refl)
then_loop-ret again s (ret (found n e)) ih a = (some (n, e), refl)
then_loop-ret again s (ret (next t)) ih a = ih t a.0 a.1

name_loop-ret :
    (fuel : ℕ) (b : Text) (s : NameState)
    → IsBounded s
    → 144 < fuel + spent s
    → (r : NameResult) × (name_loop fuel b s ≡ ret r)
unfolding name_loop
name_loop-ret zero b s h room = absurd (omega arith)
name_loop-ret (suc fuel) b s h room =
    then_loop-ret (name_loop fuel b) s (name_step b s)
      (λ t bounded e. name_loop-ret fuel b t bounded (omega arith)) (name_step-Advances b s h)

-- On every message and at every offset readDNSName returns: it never reads out of range, and
-- the bounds on jumps and labels end the loop.
pub read_dns_name-total : (b : Text) (off : ℕ) → (r : NameResult) × (read_dns_name b off ≡ ret r)
unfolding read_dns_name
read_dns_name-total b off = name_loop-ret 145 b (name_start off) (omega arith) (omega arith)
