-- ===== src/Ancestry/Walk.antt =====
-- The walk up the parents: bounded, linked and free of repetitions, also where process ids cycle.
use efe_process_monitor.Common.{
  ℕ, zero, suc, ◌≤◌, ◌≡◌, refl, true, false, not, ◌||◌, Option, none, some, [], ◌∷◌, List, length,
  ◌==◌, if◌then◌else◌, arith, if-elim,
}
use efe_process_monitor.Common.Ints.{ℤ, pos, negsuc, pos_part}
use efe_process_monitor.Common.Texts.{Text}
use efe_process_monitor.Ancestry.{
  Procs, Ancestor, pid_in, ancestor, unknown, name_or_unknown, parent_step, walk, ancestry_of,
}

-- Each process of the chain is the parent of the one before it.
pub Linked : Procs → ℕ → List Ancestor → Type 0
Linked procs p [] = Unit
Linked procs p (a ∷ chain) = (procs.ppid p ≡ some (pos a.pid)) × Linked procs a.pid chain

-- None of the chain's processes is one of these, and none comes twice.
pub Fresh : List ℕ → List Ancestor → Type 0
Fresh seen [] = Unit
Fresh seen (a ∷ chain) = (pid_in a.pid seen ≡ false) × Fresh (a.pid ∷ seen) chain

abbrev pub IsChain : Procs → ℕ → List ℕ → ℕ → List Ancestor → Type 0
IsChain procs n seen p chain = (length chain ≤ n) × Linked procs p chain × Fresh seen chain

pos_of_part : (z : ℤ) → (pos_part z == 0) ≡ false → z ≡ pos (pos_part z)
pos_of_part (pos n) h = refl
pos_of_part (negsuc n) h = ground arith

nil-IsChain : (procs : Procs) (n : ℕ) (seen : List ℕ) (p : ℕ) → IsChain procs n seen p []
unfolding Linked Fresh
nil-IsChain procs n seen p = (omega arith, tt, tt)

cons-IsChain :
    (procs : Procs) (n : ℕ) (seen : List ℕ) (p : ℕ) (z : ℤ) (name : Text) (rest : List Ancestor)
    → procs.ppid p ≡ some z
    → (pos_part z == 0) ≡ false
    → pid_in (pos_part z) seen ≡ false
    → IsChain procs n (pos_part z ∷ seen) (pos_part z) rest
    → IsChain procs (suc n) seen p (ancestor (pos_part z) name ∷ rest)
unfolding Linked Fresh
cons-IsChain procs n seen p z name rest h k f (l, c, g) =
    (omega arith, (ground (arith, pos_of_part z k), c), (f, g))

parent_step-IsChain :
    (procs : Procs) (n : ℕ) (again : ℕ → List Ancestor) (seen : List ℕ) (p : ℕ) (o : Option ℤ)
    → procs.ppid p ≡ o
    → ((q : ℕ) → IsChain procs n (q ∷ seen) q (again q))
    → IsChain procs (suc n) seen p (parent_step procs again seen o)
unfolding parent_step
parent_step-IsChain procs n again seen p none e h = nil-IsChain procs (suc n) seen p
parent_step-IsChain procs n again seen p (some z) e h =
    let q = pos_part z in
    let grow = cons-IsChain procs n seen p z in
    if-elim (IsChain procs (suc n) seen p) ((q == 0) || pid_in q seen)
      (λ _. nil-IsChain procs (suc n) seen p)
      (λ k.
        if-elim (IsChain procs (suc n) seen p) (not (procs.opens q))
          (λ _. grow unknown [] e (ground arith) (ground arith) (nil-IsChain procs n (q ∷ seen) q))
          (λ _.
            grow (name_or_unknown (procs.name q)) (again q) e (ground arith) (ground arith) (h q)))

walk-IsChain :
    (procs : Procs) (n : ℕ) (seen : List ℕ) (p : ℕ) → IsChain procs n seen p (walk procs n seen p)
unfolding walk
walk-IsChain procs zero seen p = nil-IsChain procs 0 seen p
walk-IsChain procs (suc n) seen p =
    parent_step-IsChain procs n (λ q. walk procs n (q ∷ seen) q) seen p (procs.ppid p) refl
      (λ q. walk-IsChain procs n (q ∷ seen) q)

-- The ancestry of a process has 12 steps at most, each of them the parent of the one before it as
-- the system reports it; no process comes twice and the process itself is not among them.
pub ancestry_of-IsChain :
    (procs : Procs) (pid : ℕ) → IsChain procs 12 (pid ∷ []) pid (ancestry_of procs pid)
unfolding ancestry_of
ancestry_of-IsChain procs pid =
    elim (procs.opens pid)
      as (λ b.
        IsChain procs 12 (pid ∷ []) pid (if not b then [] else walk procs 12 (pid ∷ []) pid)) [
          | true ↦ walk-IsChain procs 12 (pid ∷ []) pid
          | false ↦ nil-IsChain procs 12 (pid ∷ []) pid
        ]
