-- ===== src/Vt/Queue.antt =====
-- vt.go: enqueueHash and vtWorker, as the atomic steps of threads that run at once. `claims` are the
-- hashes of enqueueHash calls between sync.Map's LoadOrStore and the send, `working` is the worker's.
pub mod Once
use efe_process_monitor.Common.{
  ℕ, zero, suc, leb, ◌+◌, ◌<◌, ◌≤◌, ◌≡◌, Bool, true, false, Option, none, some, [], ◌∷◌, ◌++◌, List,
  list_eq, nat_eq, ◌=?◌, length, if◌then◌else◌,
}
use efe_process_monitor.Common.Texts.{Text}
use efe_process_monitor.Common.Counts.{count, erase}

abbrev pub queue_capacity : ℕ
queue_capacity = 4000

pub record Queue : Type 0 where
  pub pending : List Text
  pub claims : List Text
  pub queue : List Text
  pub working : List Text

-- LoadOrStore: a hash that is pending is left alone.
unfoldable pub claim : Text → Queue → Queue
claim h q = elim (count h q.pending) [
  | zero ↦ record q { pending = h ∷ q.pending; claims = h ∷ q.claims }
  | suc n ↦ q
]

-- The send, or, where the queue is full, the deletion.
unfoldable pub send : Text → Queue → Queue
send h q =
    if leb queue_capacity (length q.queue)
    then record q { pending = erase h q.pending; claims = erase h q.claims }
    else record q { queue = q.queue ++ (h ∷ []); claims = erase h q.claims }

-- The worker takes the oldest hash; when it has resolved it, the hash is pending no more.
pub data Step : Queue → Queue → Type 0 where
  claims : (h : Text) (q : Queue) → Step q (claim h q)
  sends : (h : Text) (q : Queue) → 0 < count h q.claims → Step q (send h q)
  takes :
      (h : Text) (rest : List Text) (q : Queue)
      → q.working ≡ []
      → q.queue ≡ h ∷ rest
      → Step q (record q { queue = rest; working = h ∷ [] })
  resolves :
      (h : Text) (q : Queue)
      → q.working ≡ h ∷ []
      → Step q (record q { pending = erase h q.pending; working = [] })
