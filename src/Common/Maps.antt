-- ===== src/Common/Maps.antt =====
-- Go's maps as association lists. `insert` and `keep` drop every pair of the key that they write
-- or refuse, so that the laws need no hypothesis on the keys.
use Prim.Native.Nat.{◌+◌, ◌≤◌}
use mathlib.Core.Path.{◌≡◌, refl}
use mathlib.Core.Bool.{Bool}
use mathlib.Core.Option.{Option, none, some}
use mathlib.Core.List.{List, [], ◌∷◌}
use native.Mathlib.Omega.{arith}
use efe_process_monitor.Common.Tests.{if◌then◌else◌}
use efe_process_monitor.Common.Lists.{length}
use efe_process_monitor.Common.Equality.{Eq, ◌=?◌}

abbrev pub Map {ℓ κ} : Type ℓ → Type κ → Type (ℓ ⊔ κ)
Map K V = List (K × V)

module _ {ℓ κ} {K : Type ℓ} {V : Type κ} ⦃e : Eq K⦄ where
  unfoldable pub lookup : K → Map K V → Option V
  lookup k [] = none
  lookup k ((j, v) ∷ m) = if j =? k then some v else lookup k m

  unfoldable pub delete : K → Map K V → Map K V
  delete k [] = []
  delete k ((j, v) ∷ m) = if j =? k then delete k m else (j, v) ∷ delete k m

  unfoldable pub insert : K → V → Map K V → Map K V
  insert k v m = (k, v) ∷ delete k m

  unfoldable pub keep : (K → V → Bool) → Map K V → Map K V
  keep p [] = []
  keep p ((k, v) ∷ m) = if p k v then (k, v) ∷ delete k (keep p m) else delete k (keep p m)

  pub lookup-delete :
      (j k : K) (m : Map K V) → lookup j (delete k m) ≡ (if k =? j then none else lookup j m)
  unfolding lookup delete
  lookup-delete j k [] = ground arith
  lookup-delete j k ((i, v) ∷ m) =
      ground (arith, e.beq_iff k j, e.beq_iff i k, e.beq_iff i j, lookup-delete j k m)

  pub lookup-insert :
      (j k : K) (v : V) (m : Map K V)
      → lookup j (insert k v m) ≡ (if k =? j then some v else lookup j m)
  unfolding lookup insert
  lookup-insert j k v m = ground (arith, lookup-delete j k m)

  -- What a sweep leaves at a key.
  abbrev pub kept : (K → V → Bool) → K → Option V → Option V
  kept p k none = none
  kept p k (some v) = if p k v then some v else none

  pub lookup-keep :
      (j : K) (p : K → V → Bool) (m : Map K V) → lookup j (keep p m) ≡ kept p j (lookup j m)
  unfolding lookup keep
  lookup-keep j p [] = refl
  lookup-keep j p ((i, v) ∷ m) =
      ground (arith, e.beq_iff i j, lookup-delete j i (keep p m), lookup-keep j p m)

  pub length-delete : (k : K) (m : Map K V) → length (delete k m) ≤ length m
  unfolding delete
  length-delete k [] = omega arith
  length-delete k ((j, v) ∷ m) = ground (arith, length-delete k m)

  pub length-insert : (k : K) (v : V) (m : Map K V) → length (insert k v m) ≤ length m + 1
  unfolding insert
  length-insert k v m = omega (arith, length-delete k m)

  pub length-keep : (p : K → V → Bool) (m : Map K V) → length (keep p m) ≤ length m
  unfolding keep
  length-keep p [] = omega arith
  length-keep p ((k, v) ∷ m) = ground (arith, length-delete k (keep p m), length-keep p m)
