-- ===== src/Intel/Lookups.antt =====
-- intel.go: enrichIP, as the steps of calls that run at once. A call first asks the cache; then it
-- either waits for the lookup of its address that is under way, or makes one, and when that has ended,
-- with a result or by a panic, deletes it from `inflight` and then closes its channel.
pub mod Released
use efe_process_monitor.Common.{
  ℕ, zero, suc, ◌+◌, ◌≡◌, Bool, true, false, Option, none, some, [], ◌∷◌, ◌++◌, List, list_eq,
  nat_eq, ◌=?◌, if◌then◌else◌,
}
use efe_process_monitor.Common.Texts.{Text}
use efe_process_monitor.Common.Maps.{Map, lookup, insert, delete}

-- Where a call stands. A number names a lookup, which Go does by a pointer.
pub data Call (D : Type 0) : Type 0 where
  asking : Text → Call D
  waiting : ℕ → Call D
  looking : Text → ℕ → Call D
  closing : ℕ → Option D → Call D
  finished : Option D → Call D

pub record Lookups (D : Type 0) : Type 0 where
  pub inflight : Map Text ℕ
  -- The lookups whose channels are closed, with what they found.
  pub closed : Map ℕ (Option D)
  pub next : ℕ
  pub calls : List (Call D)

-- One call, which stands between the others, takes its next step.
pub data Step {D : Type 0} : Lookups D → Lookups D → Type 0 where
  cached :
      (s : Lookups D) (pre post : List (Call D)) (ip : Text) (d : D)
      → s.calls ≡ pre ++ (asking ip ∷ post)
      → Step s (record s { calls = pre ++ (finished (some d) ∷ post) })
  joins :
      (s : Lookups D) (pre post : List (Call D)) (ip : Text) (id : ℕ)
      → s.calls ≡ pre ++ (asking ip ∷ post)
      → lookup ip s.inflight ≡ some id
      → Step s (record s { calls = pre ++ (waiting id ∷ post) })
  starts :
      (s : Lookups D) (pre post : List (Call D)) (ip : Text)
      → s.calls ≡ pre ++ (asking ip ∷ post)
      → lookup ip s.inflight ≡ none
      → Step s (record s {
        inflight = insert ip s.next s.inflight;
        next = suc s.next;
        calls = pre ++ (looking ip s.next ∷ post);
      })
  ends :
      (s : Lookups D) (pre post : List (Call D)) (ip : Text) (id : ℕ) (r : Option D)
      → s.calls ≡ pre ++ (looking ip id ∷ post)
      → Step s (record s { inflight = delete ip s.inflight; calls = pre ++ (closing id r ∷ post) })
  closes :
      (s : Lookups D) (pre post : List (Call D)) (id : ℕ) (r : Option D)
      → s.calls ≡ pre ++ (closing id r ∷ post)
      → Step s (record s { closed = insert id r s.closed; calls = pre ++ (finished r ∷ post) })
  wakes :
      (s : Lookups D) (pre post : List (Call D)) (id : ℕ) (r : Option D)
      → s.calls ≡ pre ++ (waiting id ∷ post)
      → lookup id s.closed ≡ some r
      → Step s (record s { calls = pre ++ (finished r ∷ post) })
