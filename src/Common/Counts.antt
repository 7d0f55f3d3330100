-- ===== src/Common/Counts.antt =====
-- How often an element stands in a list.
use Prim.Native.Nat.{ℕ, ◌+◌, ◌-◌}
use mathlib.Core.Path.{◌≡◌}
use mathlib.Core.List.{List, [], ◌∷◌, ◌++◌}
use native.Mathlib.Omega.{arith}
use efe_process_monitor.Common.Tests.{if◌then◌else◌}
use efe_process_monitor.Common.Equality.{Eq, ◌=?◌}

module _ {ℓ} {A : Type ℓ} ⦃e : Eq A⦄ where
  unfoldable pub count : A → List A → ℕ
  count a [] = 0
  count a (x ∷ xs) = (if x =? a then 1 else 0) + count a xs

  -- The list without the first such element.
  unfoldable pub erase : A → List A → List A
  erase a [] = []
  erase a (x ∷ xs) = if x =? a then xs else x ∷ erase a xs

  pub count-append : (a : A) (xs ys : List A) → count a (xs ++ ys) ≡ count a xs + count a ys
  unfolding count
  count-append a [] ys = omega arith
  count-append a (x ∷ xs) ys = omega (arith, count-append a xs ys)

  pub count-erase :
      (a b : A) (xs : List A)
      → count a (erase b xs) ≡ (if b =? a then count a xs - 1 else count a xs)
  unfolding count erase
  count-erase a b [] = ground arith
  count-erase a b (x ∷ xs) =
      ground (arith, count-erase a b xs, e.beq_iff x b, e.beq_iff x a, e.beq_iff b a)
