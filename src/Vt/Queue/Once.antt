-- ===== src/Vt/Queue/Once.antt =====
-- No hash is asked for twice at a time, and the queue stays within its capacity.
use efe_process_monitor.Common.{
  ◌+◌, ◌≤◌, ◌<◌, ◌≡◌, refl, ap, [], ◌∷◌, List, list_eq, nat_eq, list_beq_iff, length, length-append,
  arith,
}
use efe_process_monitor.Common.Texts.{Text}
use efe_process_monitor.Common.Counts.{count, erase, count-append, count-erase}
use efe_process_monitor.Vt.Queue.{
  Queue, queue_capacity, claim, send, Step, claims, sends, takes, resolves,
}

-- Each pending hash stands in just one place: claimed, in the queue, or with the worker.
pub record IsOnce (q : Queue) : Type 0 where
  pub placed :
      (h : Text) → count h q.claims + count h q.queue + count h q.working ≡ count h q.pending
  pub once : (h : Text) → count h q.pending ≤ 1
  pub bounded : length q.queue ≤ queue_capacity

claim-IsOnce : (h : Text) (q : Queue) → IsOnce q → IsOnce (claim h q)
unfolding claim count
claim-IsOnce h q i = record {
  placed = λ j. ground (arith, i.placed j, list_beq_iff h j);
  once = λ j. ground (arith, i.once j, list_beq_iff h j);
  bounded = ground (arith, i.bounded);
}

send-IsOnce : (h : Text) (q : Queue) → 0 < count h q.claims → IsOnce q → IsOnce (send h q)
unfolding send count
send-IsOnce h q c i = record {
  placed = λ j. ground (
    arith,
    i.placed j,
    count-erase j h q.claims,
    count-erase j h q.pending,
    count-append j q.queue (h ∷ []),
    list_beq_iff h j,
  );
  once = λ j. ground (arith, i.once j, count-erase j h q.pending);
  bounded = ground (arith, i.bounded, length-append q.queue (h ∷ []));
}

takes-IsOnce :
    (h : Text) (rest : List Text) (q : Queue)
    → q.working ≡ []
    → q.queue ≡ h ∷ rest
    → IsOnce q
    → IsOnce (record q { queue = rest; working = h ∷ [] })
unfolding count
takes-IsOnce h rest q w e i = record {
  placed = λ j. ground (arith, i.placed j, ap (count j) e, ap (count j) w);
  once = i.once;
  bounded = ground (arith, i.bounded, ap length e);
}

resolves-IsOnce :
    (h : Text) (q : Queue)
    → q.working ≡ h ∷ []
    → IsOnce q
    → IsOnce (record q { pending = erase h q.pending; working = [] })
unfolding count
resolves-IsOnce h q w i = record {
  placed =
      λ j. ground (arith, i.placed j, ap (count j) w, count-erase j h q.pending, list_beq_iff h j);
  once = λ j. ground (arith, i.once j, count-erase j h q.pending);
  bounded = i.bounded;
}

Step-IsOnce : {q r : Queue} → Step q r → IsOnce q → IsOnce r
Step-IsOnce (claims h q) i = claim-IsOnce h q i
Step-IsOnce (sends h q c) i = send-IsOnce h q c i
Step-IsOnce (takes h rest q w e) i = takes-IsOnce h rest q w e i
Step-IsOnce (resolves h q w) i = resolves-IsOnce h q w i

-- The steps from the empty queue.
pub data Reached : Queue → Type 0 where
  start : Reached (record { pending = []; claims = []; queue = []; working = [] })
  next : {q r : Queue} → Reached q → Step q r → Reached r

-- However the calls of enqueueHash and the worker take turns: a hash is pending at most once, a pending
-- hash is claimed by one call, in the queue once or with the worker, and in one of these only, and the
-- queue holds no more than its 4000 places.
pub Reached-IsOnce : {q : Queue} → Reached q → IsOnce q
unfolding count
Reached-IsOnce start = record { placed = λ h. refl; once = λ h. omega arith; bounded = omega arith }
Reached-IsOnce (next r s) = Step-IsOnce s (Reached-IsOnce r)
