-- ===== src/Vt/Bucket/Wait.antt =====
-- vtWorker's wait for a token: it asks once a second. Other callers take none meanwhile.
use efe_process_monitor.Common.{
  ℕ, zero, suc, ◌+◌, ◌-◌, ◌*◌, ◌/◌, ◌≤◌, ◌<◌, ◌≡◌, refl, true, leb, min, Option, none, some, arith,
  if◌then◌else◌, Bool-cases, inl, inr, le→leb, leb→le, leb_false→lt, ap, ◌∙◌,
}
use efe_process_monitor.Common.Floats.{
  Float, one, of_nat, add, mul, quot, round_to, half_even, round_to_bounds,
}
use efe_process_monitor.Intel.Feeds.{second}
use efe_process_monitor.Vt.Bucket.{TokenBucket, seconds, refilled, allow}

-- The time at which the token is there, if it takes no more than so many questions.
unfoldable pub wait_for_token : ℕ → ℕ → TokenBucket → Option ℕ
wait_for_token zero now b = none
wait_for_token (suc polls) now b =
    let r = allow now b in
    let later = wait_for_token polls (now + second) r.1 in if r.0 then some now else later

-- Four tokens a minute, in tokens a second.
abbrev pub vt_rate : Float
vt_rate = quot (of_nat 4) (of_nat 60)

-- What a second refills: more than the sixteenth of a token.
abbrev second_gain : Float
second_gain = mul (seconds second) vt_rate

second_gain_bound : leb (one / 16 + one / 1024) second_gain ≡ true
unfolding mul quot of_nat add seconds round_to half_even
second_gain_bound = refl

pub four_tokens : of_nat 4 ≡ 4 * one
unfolding of_nat round_to half_even
four_tokens = refl

add-gain : (t : ℕ) → t ≤ one → t + one / 16 ≤ add t second_gain
unfolding add
add-gain t h =
    let g = leb→le (one / 16 + one / 1024) second_gain second_gain_bound in
    let b = round_to_bounds 2046 (t + second_gain) 1 (omega arith) in omega (arith, g, b)

add-full : (t : ℕ) → one ≤ t + one / 16 → one ≤ add t second_gain
unfolding add
add-full t h =
    let g = leb→le (one / 16 + one / 1024) second_gain second_gain_bound in
    let b = round_to_bounds 2046 (t + second_gain) 1 (omega arith) in omega (arith, g, b)

below_one : (t : ℕ) → add t second_gain < one → t ≤ one
below_one t h = elim (Bool-cases (leb t one)) [
  | inl e ↦ leb→le t one e
  | inr e ↦ let full = add-full t (omega (arith, leb_false→lt t one e)) in omega (arith, full)
]

-- One second after the last question, a bucket below its maximum holds what it held and the gain.
refilled_second :
    (now : ℕ) (b : TokenBucket)
    → b.rate ≡ vt_rate
    → now ≡ b.last + second
    → refilled now b ≡ min b.max (add b.tokens second_gain)
refilled_second now b r l =
    let e : now - b.last ≡ second = omega arith in
    ap (λ (d : ℕ). min b.max (add b.tokens (mul (seconds d) b.rate))) e
    ∙ ap (λ (x : ℕ). min b.max (add b.tokens (mul (seconds second) x))) r

wait-some :
    (polls now : ℕ) (b : TokenBucket)
    → b.rate ≡ vt_rate
    → b.max ≡ 4 * one
    → now ≡ b.last + second
    → one ≤ b.tokens + (polls + 1) * (one / 16)
    → (t : ℕ) × (wait_for_token (suc polls) now b ≡ some t) × (t ≤ now + polls * second)
unfolding wait_for_token allow
wait-some zero now b r m l h =
    let full = add-full b.tokens (omega arith) in
    let e : leb one (refilled now b) ≡ true =
      le→leb one (refilled now b) (omega (arith, refilled_second now b r l, full)) in
    rw e (now, refl, omega arith)
wait-some (suc polls) now b r m l h =
    let t = refilled now b in
    let unpaid : TokenBucket = record b { tokens = t; last = now } in
    elim (Bool-cases (leb one t)) [
      | inl e ↦ rw e (now, refl, omega arith)
      | inr e ↦
          let less = leb_false→lt one t e in
          let same = refilled_second now b r l in
          let below : b.tokens ≤ one = below_one b.tokens (omega (arith, less, same)) in
          let gain = add-gain b.tokens below in
          let (end, f, k) =
            wait-some polls (now + second) unpaid r m refl (omega (arith, less, same, gain)) in
          rw e (end, f, omega (arith, k))
    ]

-- The program's bucket, whatever it holds: the worker that asks has its token within sixteen seconds,
-- at its seventeenth question at the latest, where it asks once a second and no other call takes a
-- token meanwhile.
pub wait_for_token-some :
    (now : ℕ) (b : TokenBucket)
    → b.rate ≡ vt_rate
    → b.max ≡ of_nat 4
    → (t : ℕ) × (wait_for_token 17 now b ≡ some t) × (t ≤ now + 16 * second)
unfolding wait_for_token allow
wait_for_token-some now b r m =
    let t = refilled now b in
    let unpaid : TokenBucket = record b { tokens = t; last = now } in
    elim (Bool-cases (leb one t)) [
      | inl e ↦ rw e (now, refl, omega arith)
      | inr e ↦
          let (end, f, k) =
            wait-some 15 (now + second) unpaid r (m ∙ four_tokens) refl (omega arith) in
          rw e (end, f, omega (arith, k))
    ]
