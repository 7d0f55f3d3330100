-- ===== src/Common/Floats.antt =====
-- Go's float64, for values that are not negative: the number is a multiple of 2 ^ -1074, the smallest
-- float, and stands for that many of them. Each operation rounds its exact result as IEEE 754 says, to
-- the nearest of the floats, and to the even one of two. No product is fused into a sum, as on amd64.
use efe_process_monitor.Common.{
  ℕ, ◌⊎◌, zero, suc, ◌+◌, ◌-◌, ◌*◌, ◌/◌, ◌%◌, ◌^◌, ◌≤◌, ◌<◌, ◌≡◌, true, false, ltb, arith,
  if◌then◌else◌, Bool-cases, inl, inr,
}
use native.Mathlib.Nat.{div-add-mod', mod-lt, add-mul}

abbrev pub Float : Type 0
Float = ℕ

-- 1.0
abbrev pub one : Float
one = 2 ^ 1074

-- The whole number next to n / d.
unfoldable pub half_even : ℕ → ℕ → ℕ
half_even n d =
    let q = n / d in
    let r = n % d in if ltb (2 * r) d then q else if ltb d (2 * r) then q + 1 else q + q % 2

-- The float next to n / d: a float has 53 bits. The fuel is enough for every finite float.
unfoldable pub round_to : ℕ → ℕ → ℕ → Float
round_to zero n d = half_even n d
round_to (suc fuel) n d = elim (ltb n (d * 2 ^ 53)) [
  | true ↦ half_even n d
  | false ↦ 2 * round_to fuel n (2 * d)
]

unfoldable pub of_nat : ℕ → Float
of_nat n = round_to 2046 (n * one) 1

unfoldable pub add : Float → Float → Float
add x y = round_to 2046 (x + y) 1

-- For y ≤ x.
unfoldable pub sub : Float → Float → Float
sub x y = round_to 2046 (x - y) 1

unfoldable pub mul : Float → Float → Float
mul x y = round_to 2046 (x * y) one

unfoldable pub quot : Float → Float → Float
quot x y = round_to 2046 (x * one) y

half_even_cases : (n d : ℕ) → (half_even n d ≡ n / d) ⊎ (half_even n d ≡ n / d + 1)
unfolding half_even
half_even_cases n d = ground arith

half_even_bounds : (n d : ℕ) → 0 < d → (n ≤ half_even n d * d + d) × (half_even n d * d ≤ n + d)
half_even_bounds n d h =
    let e = div-add-mod' n d in
    let l = mod-lt n h in
    let next = add-mul (n / d) 1 d in
    elim (half_even_cases n d) [
      | inl q ↦ rw q (omega (arith, e, l))
      | inr q ↦ rw q (omega (arith, e, l, next))
    ]

-- One part in 2 ^ 52, for a result that is not among the smallest.
round_to_large :
    (fuel n d : ℕ)
    → 0 < d
    → d * 2 ^ 52 ≤ n
    → (n * 2 ^ 52 ≤ round_to fuel n d * d * 2 ^ 52 + n)
      × (round_to fuel n d * d * 2 ^ 52 ≤ n * 2 ^ 52 + n)
unfolding round_to
round_to_large zero n d h k = omega (arith, half_even_bounds n d h)
round_to_large (suc fuel) n d h k = elim (Bool-cases (ltb n (d * 2 ^ 53))) [
  | inl e ↦ rw (round_to, e) (omega (arith, half_even_bounds n d h))
  | inr e ↦
      let ih = round_to_large fuel n (2 * d) (omega arith) (ground arith) in
      let x = round_to fuel n (2 * d) in
      let twice : 2 * x * d ≡ x * (2 * d) = grind arith in
      rw (round_to, e) (omega (arith, ih, twice))
]

-- What a rounding adds or takes: one part in 2 ^ 52, and 2 ^ -1074 where the result is that small.
pub round_to_bounds :
    (fuel n d : ℕ)
    → 0 < d
    → (n * 2 ^ 52 ≤ round_to fuel n d * d * 2 ^ 52 + n + d * 2 ^ 52)
      × (round_to fuel n d * d * 2 ^ 52 ≤ n * 2 ^ 52 + n + d * 2 ^ 52)
unfolding round_to
round_to_bounds zero n d h = omega (arith, half_even_bounds n d h)
round_to_bounds (suc fuel) n d h = elim (Bool-cases (ltb n (d * 2 ^ 53))) [
  | inl e ↦ rw (round_to, e) (omega (arith, half_even_bounds n d h))
  | inr e ↦ let large = round_to_large (suc fuel) n d h (ground arith) in omega (arith, large)
]
