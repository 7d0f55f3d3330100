-- ===== src/Common/Ints.antt =====
-- Go's int as a signed number, with strconv's Atoi and Itoa.
use Prim.Native.Nat.{ℕ, zero, suc, ◌+◌, ◌-◌, ◌*◌, ◌/◌, ◌%◌}
use mathlib.Core.Path.{◌≡◌, refl, ap}
use mathlib.Core.Logic.{◌≢◌}
use mathlib.Core.Bool.{Bool, true, ◌&&◌}
use mathlib.Core.List.{[], ◌∷◌}
use mathlib.Core.Option.{Option, none, some}
use native.Mathlib.Omega.{arith}
use efe_process_monitor.Common.Tests.{◌==◌, leb, ltb, if◌then◌else◌}
use efe_process_monitor.Common.Lists.{All}
use efe_process_monitor.Common.Texts.{Text}

-- `negsuc n` is -(n + 1).
pub data ℤ : Type 0 where
  pos : ℕ → ℤ
  negsuc : ℕ → ℤ

-- The value of a positive number, and 0 for any other.
abbrev pub pos_part : ℤ → ℕ
pos_part (pos n) = n
pos_part (negsuc n) = 0

abbrev pub is_digit : ℕ → Bool
is_digit c = leb b'0' c && leb c b'9'

abbrev pub int_max : ℕ
int_max = 9223372036854775807

-- The number that digits stand for, after those that make `acc`.
pub digits_from : ℕ → Text → Option ℕ
digits_from acc [] = some acc
digits_from acc (c ∷ s) = if is_digit c then digits_from (acc * 10 + (c - b'0')) s else none

pub parse_digits : Text → Option ℕ
parse_digits [] = none
parse_digits (c ∷ s) = digits_from 0 (c ∷ s)

abbrev pub bounded : ℕ → ℕ → Option ℕ
bounded limit n = if leb n limit then some n else none

abbrev pub positive : Option ℕ → Option ℤ
positive none = none
positive (some n) = if leb n int_max then some (pos n) else none

abbrev pub negative : Option ℕ → Option ℤ
negative none = none
negative (some zero) = some (pos 0)
negative (some (suc n)) = if leb n int_max then some (negsuc n) else none

-- `none` is an error: a syntax error, or a value out of the range of int64.
pub atoi : Text → Option ℤ
unfolding parse_digits digits_from
atoi [] = none
atoi (c ∷ s) =
    if c == b'-'
    then negative (parse_digits s)
    else if c == b'+'
    then positive (parse_digits s)
    else positive (parse_digits (c ∷ s))

-- The decimal digits of n, in front of `acc`. The fuel n + 1 is enough, as n / 10 < n.
pub itoa_loop : ℕ → ℕ → Text → Text
itoa_loop zero n acc = acc
itoa_loop (suc fuel) n acc =
    let rest = itoa_loop fuel (n / 10) ((b'0' + n % 10) ∷ acc) in
    if ltb n 10 then (b'0' + n) ∷ acc else rest

unfoldable pub itoa : ℕ → Text
unfolding itoa_loop
itoa n = itoa_loop (n + 1) n []

abbrev IsDigit : ℕ → Type 0
IsDigit c = is_digit c ≡ true

itoa_loop-digits : (fuel n : ℕ) (acc : Text) → All IsDigit acc → All IsDigit (itoa_loop fuel n acc)
unfolding itoa_loop
itoa_loop-digits zero n acc h = h
itoa_loop-digits (suc fuel) n acc h =
    ground (arith, itoa_loop-digits fuel (n / 10) ((b'0' + n % 10) ∷ acc))

pub itoa-digits : (n : ℕ) → All IsDigit (itoa n)
unfolding itoa
itoa-digits n = itoa_loop-digits (n + 1) n [] tt

itoa_loop-nonempty : (fuel n : ℕ) (c : ℕ) (acc : Text) → itoa_loop fuel n (c ∷ acc) ≢ []
unfolding itoa_loop
itoa_loop-nonempty zero n c acc e = cc
itoa_loop-nonempty (suc fuel) n c acc e =
    ground (arith, itoa_loop-nonempty fuel (n / 10) (b'0' + n % 10) (c ∷ acc))

pub itoa-nonempty : (n : ℕ) → itoa n ≢ []
unfolding itoa itoa_loop
itoa-nonempty n e = ground (
  arith,
  itoa_loop-nonempty n (n / 10) (b'0' + n % 10) [],
  ap (λ f. itoa_loop f n []) {x = n + 1} {y = suc n} (omega arith),
)

itoa_test : itoa 1024 ≡ b'1' ∷ b'0' ∷ b'2' ∷ b'4' ∷ []
unfolding itoa
itoa_test = refl
