-- ===== src/Timeline/Joined.antt =====
-- What an entry of the timeline holds: all that the histories say of its pair, and nothing else.
pub mod Whole
use efe_process_monitor.Common.{
  ℕ, ◌≡◌, ◌≢◌, refl, ap, sym, subst, Bool, false, ◌||◌, Option, none, some, [], ◌∷◌, ◌++◌, List,
  list_eq, nat_eq, pair_eq, ◌=?◌, pair_beq_iff, if◌then◌else◌, append_assoc, append-nil, arith,
  Bool-cases, inl, inr,
}
use efe_process_monitor.Common.Texts.{Text}
use efe_process_monitor.Common.Maps.{Map, lookup, lookup-insert}
use efe_process_monitor.Timeline.{
  Event, ScoreChange, TimelineEntry, Key, is_nil, flag, listed, remote_host, found_or_new, change,
  localized, with_score, add_scores, with_event, is_skipped, add_events, entries_of,
}

pub differ : (j k : Key) → (j =? k) ≡ false → j ≢ k
differ j k b e = let t = (pair_beq_iff j k).1 e in cc

abbrev pub first_threat : List ScoreChange → ℕ
first_threat [] = 0
first_threat (s ∷ ss) = s.threat

abbrev pub first_process : List Event → Text
first_process [] = []
first_process (ev ∷ evs) = if ev.process =? [] then first_process evs else ev.process

module _ {Name : Type 0} (split_host_port : Text → Option Text) (is_private : Text → Bool)
    (localize : Text → Text) (hosts : Map Text (List Name))
    (blocked wl_exe wl_ip : Map Text Bool) where
  -- The score changes of a pair, in the reader's language, and its events.
  unfoldable pub own_scores : Key → List ScoreChange → List ScoreChange
  own_scores k [] = []
  own_scores k (s ∷ ss) =
      let rest = own_scores k ss in
      if (s.exe, s.ip) =? k
      then localized split_host_port is_private localize hosts blocked wl_exe wl_ip s ∷ rest
      else rest

  unfoldable pub own_events : Key → List Event → List Event
  own_events k [] = []
  own_events k (ev ∷ evs) =
      let rest = own_events k evs in
      if is_skipped split_host_port is_private localize hosts blocked wl_exe wl_ip ev
      then rest
      else if (
        ev.exe,
        remote_host split_host_port is_private localize hosts blocked wl_exe wl_ip ev.remote,
      )
          =? k
      then ev ∷ rest
      else rest

  -- The entry joins these scores and events of its pair.
  pub record Joins (k : Key) (scores : List ScoreChange) (events : List Event)
      (e : TimelineEntry Name) : Type 0 where
    pub pair : (e.exe, e.ip) ≡ k
    pub its_scores : e.scores ≡ scores
    pub its_events : e.events ≡ events
    pub latest : e.threat ≡ first_threat scores
    pub first_name : e.process ≡ first_process events
    pub is_blocked : e.blocked ≡ flag (lookup k.1 blocked)
    pub is_whitelisted : e.whitelisted ≡ flag (lookup k.0 wl_exe) || flag (lookup k.1 wl_ip)
    pub names : e.hostnames ≡ listed (lookup k.1 hosts)

  -- What is at a key: nothing if nothing is said of its pair, and else the entry that joins it.
  abbrev pub At : Key → List ScoreChange → List Event → Option (TimelineEntry Name) → Type 0
  At k scores events none = (scores ≡ []) × (events ≡ [])
  At k scores events (some e) = Joins k scores events e

  found_or_new-Joins :
      (k : Key) (S : List ScoreChange) (E : List Event) (o : Option (TimelineEntry Name))
      → At k S E o
      → Joins k S E
          (found_or_new split_host_port is_private localize hosts blocked wl_exe wl_ip k o)
  found_or_new-Joins k S E none h = record {
    pair = refl;
    its_scores = sym h.0;
    its_events = sym h.1;
    latest = sym (ap first_threat h.0);
    first_name = sym (ap first_process h.1);
    is_blocked = refl;
    is_whitelisted = refl;
    names = refl;
  }
  found_or_new-Joins k S E (some e) h = h

  first_threat-append :
      (S : List ScoreChange) (s : ScoreChange)
      → (if is_nil S then s.threat else first_threat S) ≡ first_threat (S ++ (s ∷ []))
  first_threat-append [] s = refl
  first_threat-append (t ∷ S) s = refl

  first_process-append :
      (E : List Event) (ev : Event)
      → (if first_process E =? [] then ev.process else first_process E)
        ≡ first_process (E ++ (ev ∷ []))
  first_process-append [] ev = ground arith
  first_process-append (x ∷ E) ev = ground (arith, first_process-append E ev)

  pub with_score-Joins :
      (k : Key) (S : List ScoreChange) (E : List Event) (s : ScoreChange) (e : TimelineEntry Name)
      → Joins k S E e
      → Joins k
          (S ++ (localized split_host_port is_private localize hosts blocked wl_exe wl_ip s ∷ []))
          E
          (with_score split_host_port is_private localize hosts blocked wl_exe wl_ip s e)
  with_score-Joins k S E s e h =
      let t = localized split_host_port is_private localize hosts blocked wl_exe wl_ip s in
      record {
        pair = h.pair;
        its_scores = ap (λ l. l ++ (t ∷ [])) h.its_scores;
        its_events = h.its_events;
        latest = rw (h.its_scores, h.latest) (first_threat-append S t);
        first_name = h.first_name;
        is_blocked = h.is_blocked;
        is_whitelisted = h.is_whitelisted;
        names = h.names;
      }

  pub with_event-Joins :
      (k : Key) (S : List ScoreChange) (E : List Event) (ev : Event) (e : TimelineEntry Name)
      → Joins k S E e
      → Joins k S
          (E ++ (ev ∷ []))
          (with_event split_host_port is_private localize hosts blocked wl_exe wl_ip ev e)
  with_event-Joins k S E ev e h = record {
    pair = h.pair;
    its_scores = h.its_scores;
    its_events = ap (λ l. l ++ (ev ∷ [])) h.its_events;
    latest = h.latest;
    first_name = rw h.first_name (first_process-append E ev);
    is_blocked = h.is_blocked;
    is_whitelisted = h.is_whitelisted;
    names = h.names;
  }

  pub change-At :
      (k j : Key) (S S' : List ScoreChange) (E E' : List Event)
      (f : TimelineEntry Name → TimelineEntry Name) (m : Map Key (TimelineEntry Name))
      → At k S E (lookup k m)
      → (j ≡ k → (e : TimelineEntry Name) → Joins k S E e → Joins k S' E' (f e))
      → (j ≢ k → (S ≡ S') × (E ≡ E'))
      → At k S' E'
          (lookup k (change split_host_port is_private localize hosts blocked wl_exe wl_ip j f m))
  change-At k j S S' E E' f m h own other = elim (Bool-cases (j =? k)) [
    | inl b ↦
        let e = (pair_beq_iff j k).0 b in
        let a = found_or_new-Joins k S E (lookup k m) h in
        let found : Key → TimelineEntry Name = λ q.
          found_or_new split_host_port is_private localize hosts blocked wl_exe wl_ip q
            (lookup q m) in
        rw (lookup-insert k j _ m)
          (rw b (subst (λ q. Joins k S' E' (f (found q))) (sym e) (own e (found k) a)))
    | inr b ↦
        let (p, q) = other (λ e. let t = (pair_beq_iff j k).1 e in cc) in
        rw (lookup-insert k j _ m)
          (rw b (subst (λ l. At k l E' (lookup k m)) p (subst (λ l. At k S l (lookup k m)) q h)))
  ]
