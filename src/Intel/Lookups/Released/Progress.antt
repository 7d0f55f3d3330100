-- ===== src/Intel/Lookups/Released/Progress.antt =====
-- Every run of the calls ends with all of them finished.
use efe_process_monitor.Common.{
  ℕ, ◌≤◌, ◌<◌, ◌≡◌, ◌⊎◌, inl, inr, refl, ap, none, [], ◌∷◌, ◌++◌, List, list_eq, nat_eq, ==_iff,
  ◌==◌, map, All, arith, Bool-cases, Option-cases,
}
use efe_process_monitor.Common.Texts.{Text}
use efe_process_monitor.Common.Maps.{lookup}
use efe_process_monitor.Intel.Lookups.{
  Call, asking, waiting, looking, closing, finished, Lookups, Step, cached, joins, starts, ends,
  closes, wakes,
}
use efe_process_monitor.Intel.Lookups.Released.{
  sum, sum-put, looks_up, works_on, waits_for, IsSound, Step-IsSound,
}

module _ {D : Type 0} where
  -- How many steps a call has left at most.
  abbrev pub left : Call D → ℕ
  left (asking ip) = 4
  left (looking ip id) = 3
  left (closing id r) = 2
  left (waiting id) = 1
  left (finished r) = 0

  abbrev pub IsFinished : Call D → Type 0
  IsFinished (finished r) = Unit
  IsFinished _ = ⊥

  sum-found :
      (f : Call D → ℕ) (cs : List (Call D))
      → 0 < sum f cs
      → (pre : List (Call D)) × (c : Call D) × (post : List (Call D)) × (cs ≡ pre ++ (c ∷ post))
        × (0 < f c)
  unfolding sum
  sum-found f [] h = absurd (omega arith)
  sum-found f (c ∷ cs) h = elim (Bool-cases (f c == 0)) [
    | inl e ↦
        let z = (==_iff (f c) 0).0 e in
        let (pre, d, post, p, l) = sum-found f cs (omega (arith, z)) in
        (c ∷ pre, d, post, ap (◌∷◌ c) p, l)
    | inr e ↦ ([], c, cs, refl, ground arith)
  ]

  sum_zero-IsFinished : (cs : List (Call D)) → sum left cs ≡ 0 → All IsFinished cs
  unfolding sum
  sum_zero-IsFinished [] h = tt
  sum_zero-IsFinished (finished r ∷ cs) h = (tt, sum_zero-IsFinished cs (omega arith))
  sum_zero-IsFinished (asking ip ∷ cs) h = absurd (omega arith)
  sum_zero-IsFinished (looking ip id ∷ cs) h = absurd (omega arith)
  sum_zero-IsFinished (closing id r ∷ cs) h = absurd (omega arith)
  sum_zero-IsFinished (waiting id ∷ cs) h = absurd (omega arith)

  -- A call that has a lookup in hand takes its next step, whatever the others do.
  worker-Step :
      (s : Lookups D) (n : ℕ) (pre post : List (Call D)) (c : Call D)
      → s.calls ≡ pre ++ (c ∷ post)
      → 0 < works_on n c
      → (t : Lookups D) × Step s t
  worker-Step s n pre post (looking ip id) e h = (_, ends s pre post ip id none e)
  worker-Step s n pre post (closing id r) e h = (_, closes s pre post id r e)
  worker-Step s n pre post (asking ip) e h = absurd (omega arith)
  worker-Step s n pre post (waiting id) e h = absurd (omega arith)
  worker-Step s n pre post (finished r) e h = absurd (omega arith)

  waiting-Step :
      (s : Lookups D) (pre post : List (Call D)) (id : ℕ)
      → IsSound s
      → s.calls ≡ pre ++ (waiting id ∷ post)
      → (t : Lookups D) × Step s t
  waiting-Step s pre post id i e = elim (Option-cases (lookup id s.closed)) [
    | inr (r, l) ↦ (_, wakes s pre post id r e l)
    | inl n ↦ elim (i.served id n) [
      | inl z ↦
          absurd (
            ground (arith, ap (sum (waits_for id)) e, sum-put (waits_for id) pre post (waiting id)))
      | inr w ↦
          let (before, c, after, p, l) = sum-found (works_on id) s.calls w in
          worker-Step s id before after c p l
    ]
  ]

  call-Step :
      (s : Lookups D) (pre post : List (Call D)) (c : Call D)
      → IsSound s
      → s.calls ≡ pre ++ (c ∷ post)
      → 0 < left c
      → (t : Lookups D) × Step s t
  call-Step s pre post (asking ip) i e h = elim (Option-cases (lookup ip s.inflight)) [
    | inl n ↦ (_, starts s pre post ip e n)
    | inr (id, l) ↦ (_, joins s pre post ip id e l)
  ]
  call-Step s pre post (looking ip id) i e h = (_, ends s pre post ip id none e)
  call-Step s pre post (closing id r) i e h = (_, closes s pre post id r e)
  call-Step s pre post (waiting id) i e h = waiting-Step s pre post id i e
  call-Step s pre post (finished r) i e h = absurd (omega arith)

  less :
      (cs pre post : List (Call D)) (c d : Call D)
      → cs ≡ pre ++ (c ∷ post)
      → left d < left c
      → sum left (pre ++ (d ∷ post)) < sum left cs
  less cs pre post c d e h =
      omega (arith, ap (sum left) e, sum-put left pre post c, sum-put left pre post d)

  Step-left : {s t : Lookups D} → Step s t → sum left t.calls < sum left s.calls
  Step-left (cached s pre post ip d e) = less s.calls pre post _ _ e (omega arith)
  Step-left (joins s pre post ip id e l) = less s.calls pre post _ _ e (omega arith)
  Step-left (starts s pre post ip e n) = less s.calls pre post _ _ e (omega arith)
  Step-left (ends s pre post ip id r e) = less s.calls pre post _ _ e (omega arith)
  Step-left (closes s pre post id r e) = less s.calls pre post _ _ e (omega arith)
  Step-left (wakes s pre post id r e l) = less s.calls pre post _ _ e (omega arith)

  abbrev pub all_ask : List Text → Lookups D
  all_ask ips = record { inflight = []; closed = []; next = 0; calls = map asking ips }

  -- A state that calls for these addresses come to.
  pub data Reached : List Text → Lookups D → Type 0 where
    start : (ips : List Text) → Reached ips (all_ask ips)
    next : {ips : List Text} {s t : Lookups D} → Reached ips s → Step s t → Reached ips t

  all_ask-sum :
      (f : Call D → ℕ) (ips : List Text)
      → ((ip : Text) → f (asking ip) ≡ 0)
      → sum f (map asking ips) ≡ 0
  unfolding sum
  all_ask-sum f [] h = refl
  all_ask-sum f (ip ∷ ips) h = omega (arith, h ip, all_ask-sum f ips h)

  all_ask-IsSound : (ips : List Text) → IsSound (all_ask ips)
  unfolding lookup
  all_ask-IsSound ips = record {
    one = λ ip. all_ask-sum (looks_up ip) ips (λ j. refl);
    busy = λ ip id h. absurd (ground arith);
    served = λ id h. inl (all_ask-sum (waits_for id) ips (λ j. refl));
  }

  Reached-IsSound : {ips : List Text} {s : Lookups D} → Reached ips s → IsSound s
  Reached-IsSound (start ips) = all_ask-IsSound ips
  Reached-IsSound (next r st) = Step-IsSound st (Reached-IsSound r)

  -- However the calls take turns, and whether lookups succeed or panic: at most one call at a time looks
  -- an address up.
  pub Reached-one :
      (ips : List Text) (s : Lookups D) (ip : Text) → Reached ips s → sum (looks_up ip) s.calls ≤ 1
  Reached-one ips s ip r = ground (arith, (Reached-IsSound r).one ip)

  -- However the calls take turns, and whether lookups succeed or panic: in every state that they come
  -- to, either all are finished or some call can take a step, and each step lowers the sum of the steps
  -- that the calls have left; so no call waits for ever for a lookup that another one makes.
  pub Reached-progress :
      (ips : List Text) (s : Lookups D)
      → Reached ips s
      → (All IsFinished s.calls ⊎ ((t : Lookups D) × Step s t))
        × ((t : Lookups D) → Step s t → sum left t.calls < sum left s.calls)
  Reached-progress ips s r =
      let i = Reached-IsSound r in
      (
        elim (Bool-cases (sum left s.calls == 0)) [
          | inl e ↦ inl (sum_zero-IsFinished s.calls ((==_iff (sum left s.calls) 0).0 e))
          | inr e ↦
              let (pre, c, post, p, l) = sum-found left s.calls (ground arith) in
              inr (call-Step s pre post c i p l)
        ],
        λ t st. Step-left st,
      )
