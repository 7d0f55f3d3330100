-- ===== src/Intel/Lookups/Released.antt =====
-- One lookup of an address at a time, and no call that waits for ever.
pub mod Progress
use efe_process_monitor.Common.{
  ℕ, zero, suc, ◌+◌, ◌≤◌, ◌<◌, ◌≡◌, ◌≢◌, ◌⊎◌, inl, inr, refl, ap, sym, subst, ◌∙◌, Bool, true,
  false, ◌&&◌, Option, none, some, [], ◌∷◌, ◌++◌, List, list_eq, nat_eq, ◌=?◌, list_beq_iff, ==_iff,
  if◌then◌else◌, ◌==◌, arith, Bool-cases, Option-cases,
}
use efe_process_monitor.Common.Texts.{Text}
use efe_process_monitor.Common.Maps.{Map, lookup, insert, delete, lookup-insert, lookup-delete}
use efe_process_monitor.Intel.Lookups.{
  Call, asking, waiting, looking, closing, finished, Lookups, Step, cached, joins, starts, ends,
  closes, wakes,
}

abbrev pub present : Option ℕ → ℕ
present none = 0
present (some id) = 1

module _ {D : Type 0} where
  pub sum : (Call D → ℕ) → List (Call D) → ℕ
  sum f [] = 0
  sum f (c ∷ cs) = f c + sum f cs

  pub sum-put :
      (f : Call D → ℕ) (pre post : List (Call D)) (c : Call D)
      → sum f (pre ++ (c ∷ post)) ≡ f c + sum f (pre ++ post)
  unfolding sum
  sum-put f [] post c = refl
  sum-put f (x ∷ pre) post c = omega (arith, sum-put f pre post c)

  -- The calls that look an address up, under any number or under this one.
  abbrev pub looks_up : Text → Call D → ℕ
  looks_up ip (looking j id) = if j =? ip then 1 else 0
  looks_up ip (asking j) = 0
  looks_up ip (closing id r) = 0
  looks_up ip (waiting id) = 0
  looks_up ip (finished r) = 0

  abbrev pub looks_for : Text → ℕ → Call D → ℕ
  looks_for ip n (looking j id) = if (j =? ip) && (id =? n) then 1 else 0
  looks_for ip n (asking j) = 0
  looks_for ip n (closing id r) = 0
  looks_for ip n (waiting id) = 0
  looks_for ip n (finished r) = 0

  -- The calls that have a lookup to end or to close, and those that wait for it.
  abbrev pub works_on : ℕ → Call D → ℕ
  works_on n (looking ip id) = if id =? n then 1 else 0
  works_on n (closing id r) = if id =? n then 1 else 0
  works_on n (asking ip) = 0
  works_on n (waiting id) = 0
  works_on n (finished r) = 0

  abbrev pub waits_for : ℕ → Call D → ℕ
  waits_for n (waiting id) = if id =? n then 1 else 0
  waits_for n (asking ip) = 0
  waits_for n (looking ip id) = 0
  waits_for n (closing id r) = 0
  waits_for n (finished r) = 0

  -- An address has one lookup or none; a lookup in `inflight` is being made; and a lookup that is
  -- waited for is being made or has been closed.
  pub record IsSound (s : Lookups D) : Type 0 where
    pub one : (ip : Text) → sum (looks_up ip) s.calls ≡ present (lookup ip s.inflight)
    pub busy :
        (ip : Text) (id : ℕ) → lookup ip s.inflight ≡ some id → 0 < sum (looks_for ip id) s.calls
    pub served :
        (id : ℕ)
        → lookup id s.closed ≡ none
        → sum (waits_for id) s.calls ≡ 0 ⊎ (0 < sum (works_on id) s.calls)

  looks_for-le :
      (ip : Text) (n : ℕ) (cs : List (Call D)) → sum (looks_for ip n) cs ≤ sum (works_on n) cs
  unfolding sum
  looks_for-le ip n [] = omega arith
  looks_for-le ip n (looking j id ∷ cs) = ground (arith, looks_for-le ip n cs)
  looks_for-le ip n (asking j ∷ cs) = omega (arith, looks_for-le ip n cs)
  looks_for-le ip n (closing id r ∷ cs) = ground (arith, looks_for-le ip n cs)
  looks_for-le ip n (waiting id ∷ cs) = omega (arith, looks_for-le ip n cs)
  looks_for-le ip n (finished r ∷ cs) = omega (arith, looks_for-le ip n cs)

  -- What a sum of the calls is before and after one of them has gone from c to d.
  abbrev Moves : List (Call D) → List (Call D) → Call D → Call D → Type 0
  Moves cs ds c d = (f : Call D → ℕ) → sum f cs + f d ≡ sum f ds + f c

  moves :
      (cs pre post : List (Call D)) (c d : Call D)
      → cs ≡ pre ++ (c ∷ post)
      → Moves cs (pre ++ (d ∷ post)) c d
  moves cs pre post c d e f =
      let a = sum-put f pre post c in
      let b = sum-put f pre post d in omega (arith, ap (sum f) e, a, b)

  starts-IsSound :
      (s : Lookups D) (pre post : List (Call D)) (ip : Text)
      → s.calls ≡ pre ++ (asking ip ∷ post)
      → lookup ip s.inflight ≡ none
      → IsSound s
      → IsSound (record s {
        inflight = insert ip s.next s.inflight;
        next = suc s.next;
        calls = pre ++ (looking ip s.next ∷ post);
      })
  starts-IsSound s pre post ip e n i =
      let m = moves s.calls pre post (asking ip) (looking ip s.next) e in
      record {
        one = λ j. ground (
          arith,
          i.one j,
          m (looks_up j),
          lookup-insert j ip s.next s.inflight,
          list_beq_iff ip j,
        );
        busy = λ j id h. ground (
          arith,
          i.busy j id,
          m (looks_for j id),
          lookup-insert j ip s.next s.inflight,
          list_beq_iff ip j,
        );
        served = λ id h. ground (arith, i.served id h, m (waits_for id), m (works_on id));
      }

  ends-IsSound :
      (s : Lookups D) (pre post : List (Call D)) (ip : Text) (id : ℕ) (r : Option D)
      → s.calls ≡ pre ++ (looking ip id ∷ post)
      → IsSound s
      → IsSound (record s { inflight = delete ip s.inflight; calls = pre ++ (closing id r ∷ post) })
  ends-IsSound s pre post ip id r e i =
      let m = moves s.calls pre post (looking ip id) (closing id r) e in
      record {
        one = λ j.
            ground
              (arith, i.one j, m (looks_up j), lookup-delete j ip s.inflight, list_beq_iff ip j);
        busy = λ j n h. ground (
          arith,
          i.busy j n,
          m (looks_for j n),
          lookup-delete j ip s.inflight,
          list_beq_iff ip j,
        );
        served = λ n h. ground (arith, i.served n h, m (waits_for n), m (works_on n));
      }

  cached-IsSound :
      (s : Lookups D) (pre post : List (Call D)) (ip : Text) (d : D)
      → s.calls ≡ pre ++ (asking ip ∷ post)
      → IsSound s
      → IsSound (record s { calls = pre ++ (finished (some d) ∷ post) })
  cached-IsSound s pre post ip d e i =
      let m = moves s.calls pre post (asking ip) (finished (some d)) e in
      record {
        one = λ j. ground (arith, i.one j, m (looks_up j));
        busy = λ j n h. ground (arith, i.busy j n h, m (looks_for j n));
        served = λ n h. ground (arith, i.served n h, m (waits_for n), m (works_on n));
      }

  joins-IsSound :
      (s : Lookups D) (pre post : List (Call D)) (ip : Text) (id : ℕ)
      → s.calls ≡ pre ++ (asking ip ∷ post)
      → lookup ip s.inflight ≡ some id
      → IsSound s
      → IsSound (record s { calls = pre ++ (waiting id ∷ post) })
  joins-IsSound s pre post ip id e l i =
      let m = moves s.calls pre post (asking ip) (waiting id) e in
      let b = i.busy ip id l in
      let w = looks_for-le ip id s.calls in
      record {
        one = λ j. ground (arith, i.one j, m (looks_up j));
        busy = λ j n h. ground (arith, i.busy j n h, m (looks_for j n));
        served = λ n h. elim (Bool-cases (id == n)) [
          | inl t ↦
              let same = (==_iff id n).0 t in
              let more = ap (λ (k : ℕ). sum (works_on k) s.calls) same in
              inr (omega (arith, m (works_on n), more, b, w))
          | inr t ↦ ground (arith, i.served n h, m (waits_for n), m (works_on n))
        ];
      }

  closes-IsSound :
      (s : Lookups D) (pre post : List (Call D)) (id : ℕ) (r : Option D)
      → s.calls ≡ pre ++ (closing id r ∷ post)
      → IsSound s
      → IsSound (record s { closed = insert id r s.closed; calls = pre ++ (finished r ∷ post) })
  closes-IsSound s pre post id r e i =
      let m = moves s.calls pre post (closing id r) (finished r) e in
      record {
        one = λ j. ground (arith, i.one j, m (looks_up j));
        busy = λ j n h. ground (arith, i.busy j n h, m (looks_for j n));
        served = λ n h. ground (
          arith,
          i.served n,
          m (waits_for n),
          m (works_on n),
          lookup-insert n id r s.closed,
          ==_iff id n,
        );
      }

  wakes-IsSound :
      (s : Lookups D) (pre post : List (Call D)) (id : ℕ) (r : Option D)
      → s.calls ≡ pre ++ (waiting id ∷ post)
      → IsSound s
      → IsSound (record s { calls = pre ++ (finished r ∷ post) })
  wakes-IsSound s pre post id r e i =
      let m = moves s.calls pre post (waiting id) (finished r) e in
      record {
        one = λ j. ground (arith, i.one j, m (looks_up j));
        busy = λ j n h. ground (arith, i.busy j n h, m (looks_for j n));
        served = λ n h. ground (arith, i.served n h, m (waits_for n), m (works_on n));
      }

  pub Step-IsSound : {s t : Lookups D} → Step s t → IsSound s → IsSound t
  Step-IsSound (cached s pre post ip d e) i = cached-IsSound s pre post ip d e i
  Step-IsSound (joins s pre post ip id e l) i = joins-IsSound s pre post ip id e l i
  Step-IsSound (starts s pre post ip e n) i = starts-IsSound s pre post ip e n i
  Step-IsSound (ends s pre post ip id r e) i = ends-IsSound s pre post ip id r e i
  Step-IsSound (closes s pre post id r e) i = closes-IsSound s pre post id r e i
  Step-IsSound (wakes s pre post id r e l) i = wakes-IsSound s pre post id r e i
