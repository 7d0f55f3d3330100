-- ===== src/Timeline/Joined/Whole.antt =====
-- The whole of the two loops, for one pair.
use efe_process_monitor.Common.{
  refl, sym, subst, Bool, Option, [], ◌∷◌, ◌++◌, List, list_eq, nat_eq, pair_eq, ◌=?◌, pair_beq_iff,
  append_assoc, append-nil, Bool-cases, inl, inr,
}
use efe_process_monitor.Common.Texts.{Text}
use efe_process_monitor.Common.Maps.{Map, lookup}
use efe_process_monitor.Timeline.{
  Event, ScoreChange, TimelineEntry, Key, remote_host, change, localized, with_score, add_scores,
  with_event, is_skipped, add_events, entries_of,
}
use efe_process_monitor.Timeline.Joined.{
  differ, At, own_scores, own_events, with_score-Joins, with_event-Joins, change-At,
}

module _ {Name : Type 0} (split_host_port : Text → Option Text) (is_private : Text → Bool)
    (localize : Text → Text) (hosts : Map Text (List Name))
    (blocked wl_exe wl_ip : Map Text Bool) where
  add_scores-At :
      (k : Key) (ss : List ScoreChange) (S : List ScoreChange) (E : List Event)
      (m : Map Key (TimelineEntry Name))
      → At split_host_port is_private localize hosts blocked wl_exe wl_ip k S E (lookup k m)
      → At split_host_port is_private localize hosts blocked wl_exe wl_ip k
          (S ++ own_scores split_host_port is_private localize hosts blocked wl_exe wl_ip k ss)
          E
          (lookup k
            (add_scores split_host_port is_private localize hosts blocked wl_exe wl_ip ss m))
  unfolding own_scores add_scores
  add_scores-At k [] S E m h =
      subst
        (λ l. At split_host_port is_private localize hosts blocked wl_exe wl_ip k l E (lookup k m))
        (sym (append-nil S)) h
  add_scores-At k (s ∷ ss) S E m h =
      let j : Key = (s.exe, s.ip) in
      let t = localized split_host_port is_private localize hosts blocked wl_exe wl_ip s in
      let f = with_score split_host_port is_private localize hosts blocked wl_exe wl_ip s in
      let m' = change split_host_port is_private localize hosts blocked wl_exe wl_ip j f m in
      elim (Bool-cases (j =? k)) [
        | inl b ↦
            let same = (pair_beq_iff j k).0 b in
            let step =
              change-At split_host_port is_private localize hosts blocked wl_exe wl_ip k j S
                (S ++ (t ∷ [])) E E f m h
                (λ e x g.
                  with_score-Joins split_host_port is_private localize hosts blocked wl_exe wl_ip k
                    S E s x g)
                (λ n. absurd (n same)) in
            rw b (
              subst
                (λ l. At split_host_port is_private localize hosts blocked wl_exe wl_ip k l E (
                  lookup k (
                    add_scores split_host_port is_private localize hosts blocked wl_exe wl_ip ss
                      m')))
                (append_assoc S (t ∷ [])
                  (own_scores split_host_port is_private localize hosts blocked wl_exe wl_ip k ss))
                (add_scores-At k ss (S ++ (t ∷ [])) E m' step))
        | inr b ↦
            let step =
              change-At split_host_port is_private localize hosts blocked wl_exe wl_ip k j S S E E f
                m h (λ e. absurd (differ j k b e)) (λ n. (refl, refl)) in
            rw b (add_scores-At k ss S E m' step)
      ]

  add_events-At :
      (k : Key) (evs : List Event) (S : List ScoreChange) (E : List Event)
      (m : Map Key (TimelineEntry Name))
      → At split_host_port is_private localize hosts blocked wl_exe wl_ip k S E (lookup k m)
      → At split_host_port is_private localize hosts blocked wl_exe wl_ip k S
          (E ++ own_events split_host_port is_private localize hosts blocked wl_exe wl_ip k evs)
          (lookup k
            (add_events split_host_port is_private localize hosts blocked wl_exe wl_ip evs m))
  unfolding own_events add_events
  add_events-At k [] S E m h =
      subst
        (λ l. At split_host_port is_private localize hosts blocked wl_exe wl_ip k S l (lookup k m))
        (sym (append-nil E)) h
  add_events-At k (ev ∷ evs) S E m h =
      let j : Key = (
        ev.exe,
        remote_host split_host_port is_private localize hosts blocked wl_exe wl_ip ev.remote,
      ) in
      let f = with_event split_host_port is_private localize hosts blocked wl_exe wl_ip ev in
      let m' = change split_host_port is_private localize hosts blocked wl_exe wl_ip j f m in
      elim (Bool-cases
        (is_skipped split_host_port is_private localize hosts blocked wl_exe wl_ip ev)) [
          | inl z ↦ rw z (add_events-At k evs S E m h)
          | inr z ↦ elim (Bool-cases (j =? k)) [
            | inl b ↦
                let same = (pair_beq_iff j k).0 b in
                let step =
                  change-At split_host_port is_private localize hosts blocked wl_exe wl_ip k j S S E
                    (E ++ (ev ∷ [])) f m h
                    (λ e x g.
                      with_event-Joins split_host_port is_private localize hosts blocked wl_exe
                        wl_ip k S E ev x g)
                    (λ n. absurd (n same)) in
                rw (z, b)
                  (subst
                    (λ l. At split_host_port is_private localize hosts blocked wl_exe wl_ip k S l (
                      lookup k (
                        add_events split_host_port is_private localize hosts blocked wl_exe wl_ip
                          evs m')))
                    (append_assoc E (ev ∷ []) (
                      own_events split_host_port is_private localize hosts blocked wl_exe wl_ip k
                        evs))
                    (add_events-At k evs S (E ++ (ev ∷ [])) m' step))
            | inr b ↦
                let step =
                  change-At split_host_port is_private localize hosts blocked wl_exe wl_ip k j S S E
                    E f m h (λ e. absurd (differ j k b e)) (λ n. (refl, refl)) in
                rw (z, b) (add_events-At k evs S E m' step)
          ]
        ]

  -- For every pair of a binary and an address: where no score change is of the pair and no event, local
  -- ones and those without a binary apart, the timeline has no entry for it. Otherwise its one entry
  -- holds all of them, in their order and the score changes in the reader's language, and nothing of
  -- another pair; its threat is that of the newest change, its process the first that an event names;
  -- and it carries the marks and the names of its binary and its address.
  pub entries_of-At :
      (k : Key) (events : List Event) (scores : List ScoreChange)
      → At split_host_port is_private localize hosts blocked wl_exe wl_ip k
          (own_scores split_host_port is_private localize hosts blocked wl_exe wl_ip k scores)
          (own_events split_host_port is_private localize hosts blocked wl_exe wl_ip k events)
          (lookup k (
            entries_of split_host_port is_private localize hosts blocked wl_exe wl_ip events
              scores))
  unfolding entries_of lookup
  entries_of-At k events scores =
      add_events-At k events
        (own_scores split_host_port is_private localize hosts blocked wl_exe wl_ip k scores) []
        (add_scores split_host_port is_private localize hosts blocked wl_exe wl_ip scores [])
        (add_scores-At k scores [] [] [] (refl, refl))
