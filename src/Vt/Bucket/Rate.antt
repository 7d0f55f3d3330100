-- ===== src/Vt/Bucket/Rate.antt =====
-- How many requests the bucket allows.
use native.Mathlib.Nat.{mul-le-mul_left}
use efe_process_monitor.Common.{
  ℕ, suc, ◌+◌, ◌-◌, ◌*◌, ◌/◌, ◌%◌, ◌^◌, ◌≤◌, ◌≡◌, refl, true, leb, [], ◌∷◌, List, length, arith,
  map, ◌++◌, if◌then◌else◌, Bool-cases, inl, inr, ap, ◌∙◌, leb→le,
}
use efe_process_monitor.Common.Floats.{
  Float, one, of_nat, add, sub, mul, quot, round_to, half_even, round_to_bounds,
}
use efe_process_monitor.Intel.Feeds.{second}
use efe_process_monitor.Vt.Bucket.{TokenBucket, new_bucket, seconds, refilled, allow}
use efe_process_monitor.Vt.Bucket.Wait.{vt_rate, four_tokens}

abbrev pub window : ℕ
window = 60 * second

-- How many of the calls at these times are allowed.
unfoldable pub allowed : List ℕ → TokenBucket → ℕ
allowed [] b = 0
allowed (now ∷ times) b =
    let r = allow now b in let rest = allowed times r.1 in if r.0 then suc rest else rest

-- The times rise from the bucket's last one, and end by `end`.
abbrev pub Rises : ℕ → ℕ → List ℕ → Type 0
Rises last end [] = last ≤ end
Rises last end (t ∷ times) = (last ≤ t) × Rises t end times

Rises-le : (last end : ℕ) (times : List ℕ) → Rises last end times → last ≤ end
Rises-le last end [] h = h
Rises-le last end (t ∷ times) h = omega (arith, Rises-le t end times h.1)

billion : of_nat second ≡ second * one
unfolding of_nat round_to half_even
billion = refl

vt_rate_bound : leb vt_rate (one / 15 + one / 2 ^ 50) ≡ true
unfolding quot of_nat round_to half_even
vt_rate_bound = refl

quot-billion :
    (b : Float)
    → quot b (of_nat second) * (second * one) * 2 ^ 52
      ≤ b * one * 2 ^ 52 + b * one + second * one * 2 ^ 52
unfolding quot
quot-billion b = rw billion (round_to_bounds 2046 (b * one) (second * one) (omega arith)).1

-- The float of a duration is near the duration.
seconds_bound : (e : ℕ) → e ≤ window → seconds e * second ≤ e * one + second * (one / 2 ^ 44)
unfolding seconds add quot of_nat
seconds_bound e h =
    let s = e / second in
    let n = e % second in
    let a = round_to_bounds 2046 (s * one) 1 (omega arith) in
    let b = round_to_bounds 2046 (n * one) 1 (omega arith) in
    let c = quot-billion (of_nat n) in
    let d = round_to_bounds 2046 (of_nat s + quot (of_nat n) (of_nat second)) 1 (omega arith) in
    omega (arith, h, a.1, b.1, c, d.1)

-- A nanosecond refills less than this: a token is there after some fifteen seconds.
abbrev slope : ℕ
slope = one / 14900000000

gain_bound : (e : ℕ) → e ≤ window → mul (seconds e) vt_rate ≤ e * slope + one / 2 ^ 40
unfolding mul
gain_bound e h =
    let s = seconds e in
    let most = seconds_bound e h in
    let r = leb→le vt_rate (one / 15 + one / 2 ^ 50) vt_rate_bound in
    let p : s * vt_rate ≤ s * (one / 15 + one / 2 ^ 50) = mul-le-mul_left s r in
    let b = round_to_bounds 2046 (s * vt_rate) one (omega arith) in omega (arith, most, p, b.1)

-- What a refill and the price of a call may add by rounding.
refilled_bound :
    (now : ℕ) (b : TokenBucket)
    → b.rate ≡ vt_rate
    → b.max ≡ 4 * one
    → b.tokens ≤ 5 * one
    → now - b.last ≤ window
    → refilled now b ≤ b.tokens + (now - b.last) * slope + one / 2 ^ 39
unfolding add
refilled_bound now b r m t h =
    let g = mul (seconds (now - b.last)) b.rate in
    let gain : g ≤ (now - b.last) * slope + one / 2 ^ 40 = rw r (gain_bound (now - b.last) h) in
    let sum = round_to_bounds 2046 (b.tokens + g) 1 (omega arith) in omega (arith, gain, sum.1)

sub_bound : (t : Float) → one ≤ t → t ≤ 4 * one → sub t one + one ≤ t + one / 2 ^ 39
unfolding sub
sub_bound t h k = let diff = round_to_bounds 2046 (t - one) 1 (omega arith) in omega (arith, diff.1)

-- Calls with a token each are paid for by the tokens there are and by those refilled, but for what
-- the roundings of each call add.
allowed-tokens :
    (times : List ℕ) (end : ℕ) (b : TokenBucket)
    → b.rate ≡ vt_rate
    → b.max ≡ 4 * one
    → b.tokens ≤ 5 * one
    → end - b.last ≤ window
    → Rises b.last end times
    → allowed times b * one ≤ b.tokens + (end - b.last) * slope + length times * (one / 2 ^ 38)
unfolding allowed allow
allowed-tokens [] end b r m f k h = omega arith
allowed-tokens (now ∷ times) end b r m f k h =
    let t = refilled now b in
    let later = Rises-le now end times h.1 in
    let more = refilled_bound now b r m f (omega (arith, later)) in
    let split : end - b.last ≡ (now - b.last) + (end - now) = omega (arith, later) in
    let most : t ≤ 4 * one = omega arith in
    elim (Bool-cases (leb one t)) [
      | inl e ↦
          let paid : TokenBucket = record b { tokens = sub t one; last = now } in
          let price = sub_bound t (leb→le one t e) most in
          let ih =
            allowed-tokens times end paid r m (omega (arith, price, most)) (omega arith) h.1 in
          rw e (omega (arith, ih, split, price, more))
      | inr e ↦
          let unpaid : TokenBucket = record b { tokens = t; last = now } in
          let ih = allowed-tokens times end unpaid r m (omega (arith, most)) (omega arith) h.1 in
          rw e (omega (arith, ih, split, more))
    ]

-- What is allowed hangs on the time between the calls alone.
allowed-shift :
    (k : ℕ) (times : List ℕ) (b : TokenBucket)
    → allowed (map (λ t. t + k) times) (record b { last = b.last + k }) ≡ allowed times b
unfolding allowed allow
allowed-shift k [] b = refl
allowed-shift k (now ∷ times) b =
    let same : (now + k) - (b.last + k) ≡ now - b.last = omega arith in
    let t = refilled now b in
    elim (Bool-cases (leb one t)) [
      | inl e ↦
          rw (same, e)
            (ap suc (allowed-shift k times (record b { tokens = sub t one; last = now })))
      | inr e ↦ rw (same, e) (allowed-shift k times (record b { tokens = t; last = now }))
    ]

abbrev pub four_times : ℕ → List ℕ
four_times now = now ∷ now ∷ now ∷ now ∷ []

allowed_eight : allowed (four_times 0 ++ four_times window) (new_bucket 0 4 4) ≡ 8
unfolding allowed allow new_bucket seconds of_nat add sub mul quot round_to half_even
allowed_eight = refl

-- Of at most 2 ^ 36 calls within a minute of its start, more than one a nanosecond, the program's bucket
-- allows eight at most. And eight it may be: four at the start and four at the end of the minute are
-- all allowed.
pub allowed_minute :
    (times : List ℕ) (start : ℕ)
    → Rises start (start + window) times
    → length times ≤ 2 ^ 36
    → (allowed times (new_bucket start 4 4) ≤ 8)
      × (allowed (four_times start ++ four_times (start + window)) (new_bucket start 4 4) ≡ 8)
unfolding new_bucket
allowed_minute times start h n =
    let b = new_bucket start 4 4 in
    let four = four_tokens in
    let e : start + window - start ≡ window = omega arith in
    let z : start ≡ 0 + start = omega arith in
    let y : start + window ≡ window + start = omega arith in
    let paid =
      allowed-tokens times (start + window) b refl four (omega (arith, four)) (omega arith) h in
    (
      omega (arith, paid, n, four, e),
      (λ i. allowed (four_times (z i) ++ four_times (y i)) (new_bucket (z i) 4 4))
          ∙ allowed-shift start (four_times 0 ++ four_times window) (new_bucket 0 4 4)
          ∙ allowed_eight,
    )
