-- ===== src/Common/Outcome.antt =====
-- A computation that may panic on an index out of range, or run out of fuel: both are `crash`.
use mathlib.Core.Path.{◌≡◌, refl}
use mathlib.Core.List.{List, [], ◌∷◌}
use Prim.Native.Nat.{ℕ, zero, suc, ◌+◌, ◌-◌, ◌*◌, ◌≤◌, ◌<◌}
use native.Mathlib.Omega.{arith}
use efe_process_monitor.Common.Tests.{leb, if◌then◌else◌}
use efe_process_monitor.Common.Lists.{length, take, drop}

pub data Outcome {ℓ} (A : Type ℓ) : Type ℓ where
  ret : A → Outcome A
  crash : Outcome A

infixl 5 ◌>>=◌
abbrev pub ◌>>=◌ {ℓ κ} : {A : Type ℓ} {B : Type κ} → Outcome A → (A → Outcome B) → Outcome B
ret a >>= f = f a
crash >>= f = crash

-- The computation returns, and what it returns has the property.
abbrev pub Returns {ℓ} : {A : Type ℓ} → (A → Type 0) → Outcome A → Type 0
Returns P (ret a) = P a
Returns P crash = ⊥

abbrev pub byte : List ℕ → ℕ → ℕ
byte [] i = 0
byte (x ∷ xs) zero = x
byte (x ∷ xs) (suc i) = byte xs i

-- b[i]
pub index : List ℕ → ℕ → Outcome ℕ
index [] i = crash
index (x ∷ xs) zero = ret x
index (x ∷ xs) (suc i) = index xs i

-- b[i:j]
pub slice : List ℕ → ℕ → ℕ → Outcome (List ℕ)
slice b i j =
    if leb i j then if leb j (length b) then ret (take (j - i) (drop i b)) else crash else crash

-- binary.BigEndian.Uint16(b[i:])
pub be16 : List ℕ → ℕ → Outcome ℕ
be16 b i = do hi ← index b i; lo ← index b (i + 1); ret (hi * 256 + lo)

abbrev pub word : List ℕ → ℕ → ℕ
word b i = byte b i * 256 + byte b (i + 1)

pub index-ret : (b : List ℕ) (i : ℕ) → i < length b → index b i ≡ ret (byte b i)
unfolding index
index-ret [] i h = elim h [ ]
index-ret (x ∷ xs) zero h = refl
index-ret (x ∷ xs) (suc i) h = index-ret xs i (omega arith)

pub be16-ret : (b : List ℕ) (i : ℕ) → i + 1 < length b → be16 b i ≡ ret (word b i)
unfolding be16
be16-ret b i h = ground (arith, index-ret b i, index-ret b (i + 1))

pub slice-ret :
    (b : List ℕ) (i j : ℕ) → i ≤ j → j ≤ length b → slice b i j ≡ ret (take (j - i) (drop i b))
unfolding slice
slice-ret b i j h k = ground arith

pub Returns-bind {ℓ κ} :
    {A : Type ℓ} {B : Type κ} (P : A → Type 0) (Q : B → Type 0) (m : Outcome A) (f : A → Outcome B)
    → Returns P m
    → ((a : A) → P a → Returns Q (f a))
    → Returns Q (m >>= f)
Returns-bind P Q (ret a) f h k = k a h
Returns-bind P Q crash f h k = absurd h

pub Returns-ret {ℓ} :
    {A : Type ℓ} (P : A → Type 0) {m : Outcome A} → ((a : A) × (m ≡ ret a) × P a) → Returns P m
Returns-ret P (a, e, p) = rw e p
