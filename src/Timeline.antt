-- ===== src/Timeline.antt =====
-- timeline.go: buildTimeline and remoteHost. `split_host_port` stands for net.SplitHostPort without
-- the port, `none` being an error, `is_private` for isPrivateIP, `localize` for localizeBreakdown in
-- the reader's language, and `sort` for sort.Slice. `Name` is a host name with its times.
pub mod Joined
use efe_process_monitor.Common.{
  ℕ, zero, suc, Bool, true, false, not, ◌&&◌, ◌||◌, Option, none, some, [], ◌∷◌, ◌++◌, List,
  list_eq, nat_eq, pair_eq, map, ltb, ◌==◌, ◌=?◌, if◌then◌else◌,
}
use efe_process_monitor.Common.Texts.{Text}
use efe_process_monitor.Common.Cuts.{trim_of}
use efe_process_monitor.Common.Maps.{Map, lookup, insert}

-- The fields of an Event that the timeline reads.
pub record Event : Type 0 where
  pub ts : Text
  pub process : Text
  pub exe : Text
  pub remote : Text

pub record ScoreChange : Type 0 where
  pub at : Text
  pub exe : Text
  pub ip : Text
  pub threat : ℕ
  pub breakdown : Text

pub record TimelineEntry (Name : Type 0) : Type 0 where
  pub exe : Text
  pub ip : Text
  pub process : Text
  pub first_seen : Text
  pub last_seen : Text
  pub threat : ℕ
  pub breakdown : Text
  pub hostnames : List Name
  pub scores : List ScoreChange
  pub events : List Event
  pub blocked : Bool
  pub whitelisted : Bool

abbrev pub Key : Type 0
Key = Text × Text

abbrev pub is_bracket : ℕ → Bool
is_bracket c = (c == b'[') || (c == b']')

abbrev pub stripped : Text → Option Text → Text
stripped remote none = remote
stripped remote (some h) = trim_of is_bracket h

abbrev pub is_nil : {A : Type 0} → List A → Bool
is_nil [] = true
is_nil (x ∷ xs) = false

-- A missing key of a map of Booleans is false, and of lists is empty.
abbrev pub flag : Option Bool → Bool
flag none = false
flag (some b) = b

abbrev pub listed : {A : Type 0} → Option (List A) → List A
listed none = []
listed (some xs) = xs

abbrev pub last_of : {A : Type 0} → A → List A → A
last_of x [] = x
last_of x (y ∷ ys) = last_of y ys

-- The bounds of an entry, from its events or, where it has none, its scores.
abbrev pub with_times :
    {Name : Type 0} → List Event → List ScoreChange → TimelineEntry Name → TimelineEntry Name
with_times (ev ∷ evs) scores e = record e { last_seen = ev.ts; first_seen = (last_of ev evs).ts }
with_times [] (s ∷ ss) e = record e { last_seen = s.at; first_seen = (last_of s ss).at }
with_times [] [] e = e

abbrev pub finish : {Name : Type 0} → TimelineEntry Name → TimelineEntry Name
finish e = with_times e.events e.scores e

module _ {Name : Type 0} (split_host_port : Text → Option Text) (is_private : Text → Bool)
    (localize : Text → Text) (hosts : Map Text (List Name))
    (blocked wl_exe wl_ip : Map Text Bool) where
  abbrev pub remote_host : Text → Text
  remote_host remote = stripped remote (split_host_port remote)

  abbrev pub new_entry : Key → TimelineEntry Name
  new_entry (exe, ip) = record {
    exe = exe;
    ip = ip;
    process = [];
    first_seen = [];
    last_seen = [];
    threat = 0;
    breakdown = [];
    hostnames = listed (lookup ip hosts);
    scores = [];
    events = [];
    blocked = flag (lookup ip blocked);
    whitelisted = flag (lookup exe wl_exe) || flag (lookup ip wl_ip);
  }

  abbrev pub found_or_new : Key → Option (TimelineEntry Name) → TimelineEntry Name
  found_or_new k none = new_entry k
  found_or_new k (some e) = e

  -- A change of the entry of a key, which is made where there is none.
  abbrev pub change :
      Key
      → (TimelineEntry Name → TimelineEntry Name)
      → Map Key (TimelineEntry Name)
      → Map Key (TimelineEntry Name)
  change k f by_key = insert k (f (found_or_new k (lookup k by_key))) by_key

  abbrev pub localized : ScoreChange → ScoreChange
  localized s = record s { breakdown = localize s.breakdown }

  abbrev pub with_score : ScoreChange → TimelineEntry Name → TimelineEntry Name
  with_score s e =
      let t = localized s in
      record e {
        threat = if is_nil e.scores then t.threat else e.threat;
        breakdown = if is_nil e.scores then t.breakdown else e.breakdown;
        scores = e.scores ++ (t ∷ []);
      }

  unfoldable pub add_scores :
      List ScoreChange → Map Key (TimelineEntry Name) → Map Key (TimelineEntry Name)
  add_scores [] by_key = by_key
  add_scores (s ∷ ss) by_key = add_scores ss (change (s.exe, s.ip) (with_score s) by_key)

  abbrev pub with_event : Event → TimelineEntry Name → TimelineEntry Name
  with_event ev e = record e {
    process = if e.process =? [] then ev.process else e.process;
    events = e.events ++ (ev ∷ []);
  }

  -- Local traffic and events without a binary are left out.
  abbrev pub is_skipped : Event → Bool
  is_skipped ev = let ip = remote_host ev.remote in (ev.exe =? []) || (ip =? []) || is_private ip

  unfoldable pub add_events :
      List Event → Map Key (TimelineEntry Name) → Map Key (TimelineEntry Name)
  add_events [] by_key = by_key
  add_events (ev ∷ evs) by_key = add_events evs (
      if is_skipped ev
      then by_key
      else change (ev.exe, remote_host ev.remote) (with_event ev) by_key)

  unfoldable pub entries_of : List Event → List ScoreChange → Map Key (TimelineEntry Name)
  entries_of events scores = add_events events (add_scores scores [])

  abbrev pub comes_first : (Text → Text → Bool) → TimelineEntry Name → TimelineEntry Name → Bool
  comes_first later a b =
      if not (a.threat == b.threat) then ltb b.threat a.threat else later a.last_seen b.last_seen

  abbrev pub values : Map Key (TimelineEntry Name) → List (TimelineEntry Name)
  values [] = []
  values ((k, e) ∷ m) = e ∷ values m

  -- `later a b` is the comparison a > b of texts.
  pub build_timeline :
      ((TimelineEntry Name → TimelineEntry Name → Bool)
        → List (TimelineEntry Name)
        → List (TimelineEntry Name))
      → (Text → Text → Bool)
      → List Event
      → List ScoreChange
      → List (TimelineEntry Name)
  build_timeline sort later events scores =
      sort (comes_first later) (map finish (values (entries_of events scores)))
