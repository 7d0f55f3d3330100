-- ===== src/Monitor/Beacon/Laws.antt =====
-- The history that the detection keeps is bounded, and a period is reported of four samples at least.
use efe_process_monitor.Common.{
  ◌-◌, ◌≤◌, ◌<◌, ◌≡◌, refl, true, false, not, ◌||◌, none, some, [], ◌∷◌, ◌++◌, List, ◌∙◌, lt→ltb,
  beq_refl, list_eq, nat_eq, length, ◌=?◌, arith, length-append, length-drop, if-elim, Bool-cases,
  inl, inr,
}
use efe_process_monitor.Common.Maps.{Map, lookup, insert, lookup-insert, lookup-keep, kept}
use efe_process_monitor.Common.Texts.{Text}
use efe_process_monitor.Monitor.Beacon.{
  Reals, zero_f, is_idle, prune_beacons, period_of, beacon_key, samples, last_samples, check_beacon,
}

module _ (r : Reals) where
  -- No pair of a program and an address has more than eight samples.
  unfoldable pub IsBounded : Map Text (List r.F) → Type 0
  IsBounded track = (k : Text) (ts : List r.F) → lookup k track ≡ some ts → length ts ≤ 8

  length-last_samples : (ts : List r.F) → length (last_samples r ts) ≤ 8
  length-last_samples ts = ground (arith, length-drop (length ts - 8) ts)

  insert-IsBounded :
      (key : Text) (us : List r.F) (m : Map Text (List r.F))
      → length us ≤ 8
      → IsBounded m
      → IsBounded (insert key us m)
  unfolding IsBounded
  insert-IsBounded key us m b h k ts e =
      let look = lookup-insert k key us m in
      elim (Bool-cases (key =? k)) [ inl p ↦ ground arith | inr p ↦ h k ts (ground arith) ]

  prune_beacons-IsBounded :
      (now : r.F) (m : Map Text (List r.F)) → IsBounded m → IsBounded (prune_beacons r now m)
  unfolding IsBounded prune_beacons
  prune_beacons-IsBounded now m h k ts e =
      let look = lookup-keep k (λ j us. not (is_idle r now us)) m in h k ts (ground arith)

  lookup-prune_beacons :
      (now : r.F) (k : Text) (m : Map Text (List r.F))
      → lookup k (prune_beacons r now m) ≡ kept (λ j us. not (is_idle r now us)) k (lookup k m)
  unfolding prune_beacons
  lookup-prune_beacons now k m = lookup-keep k (λ j us. not (is_idle r now us)) m

  few_samples :
      (now : r.F) (key : Text) (m : Map Text (List r.F))
      → length (samples r (lookup key (prune_beacons r now m))) ≤ length (samples r (lookup key m))
  few_samples now key m = ground (arith, lookup-prune_beacons now key m)

  period_of_few : (ts : List r.F) → length ts < 4 → period_of r ts ≡ zero_f r
  unfolding period_of
  period_of_few ts h = simp (lt→ltb (length ts) 4 h)

  -- Every call keeps the bound of eight samples for each pair.
  pub check_beacon-IsBounded :
      (exe remote_ip : Text) (now : r.F) (track : Map Text (List r.F))
      → IsBounded track
      → IsBounded (check_beacon r exe remote_ip now track).0
  unfolding check_beacon
  check_beacon-IsBounded exe remote_ip now track h =
      let key = beacon_key r exe remote_ip in
      let pruned = prune_beacons r now track in
      let ts = last_samples r (samples r (lookup key pruned) ++ now ∷ []) in
      if-elim (λ (res : Map Text (List r.F) × r.F). IsBounded res.0)
        ((exe =? []) || (remote_ip =? [])) (λ _. h)
        (λ _.
          insert-IsBounded key ts pruned
            (length-last_samples (samples r (lookup key pruned) ++ now ∷ []))
            (prune_beacons-IsBounded now track h))

  -- A first, second or third sample of a pair reports no period.
  pub check_beacon_few :
      (exe remote_ip : Text) (now : r.F) (track : Map Text (List r.F))
      → length (samples r (lookup (beacon_key r exe remote_ip) track)) < 3
      → (check_beacon r exe remote_ip now track).1 ≡ zero_f r
  unfolding check_beacon
  check_beacon_few exe remote_ip now track h =
      let key = beacon_key r exe remote_ip in
      let old = samples r (lookup key (prune_beacons r now track)) in
      let size = length-append old (now ∷ []) in
      if-elim (λ (res : Map Text (List r.F) × r.F). res.1 ≡ zero_f r)
        ((exe =? []) || (remote_ip =? [])) (λ _. refl)
        (λ _.
          period_of_few (last_samples r (old ++ now ∷ []))
            (ground (arith, few_samples now key track)))

  -- A pair that was silent for more than two hours starts again: its new history is one sample.
  pub check_beacon_idle :
      (exe remote_ip : Text) (now : r.F) (track : Map Text (List r.F)) (ts : List r.F)
      → (exe =? []) ≡ false
      → (remote_ip =? []) ≡ false
      → lookup (beacon_key r exe remote_ip) track ≡ some ts
      → is_idle r now ts ≡ true
      → lookup (beacon_key r exe remote_ip) (check_beacon r exe remote_ip now track).0
        ≡ some (now ∷ [])
  unfolding check_beacon
  check_beacon_idle exe remote_ip now track ts p q h k =
      let key = beacon_key r exe remote_ip in
      let pruned = prune_beacons r now track in
      let gone : lookup key pruned ≡ none = lookup-prune_beacons now key track ∙ simp (h, k) in
      let fresh = last_samples r (samples r (lookup key pruned) ++ now ∷ []) in
      let found : lookup key (insert key fresh pruned) ≡ some fresh =
        (lookup-insert key key fresh pruned ∙ simp (beq_refl key)) in
      simp (p, q) (found ∙ simp (gone))
