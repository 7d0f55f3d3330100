-- ===== src/Tests/Records.antt =====
-- The lookups of an address, the timeline and the log, on small inputs.
use efe_process_monitor.Common.{
  ℕ, ◌++◌, arith, ◌≡◌, ◌≤◌, ◌<◌, ◌⊎◌, refl, Bool, true, false, Option, none, [], ◌∷◌, list_eq,
  nat_eq, pair_eq, All,
}
use efe_process_monitor.Common.Texts.{Text, codes}
use efe_process_monitor.Common.Maps.{lookup, insert}
use efe_process_monitor.Intel.Lookups.{asking, looking, Lookups, Step, starts}
use efe_process_monitor.Intel.Lookups.Released.{sum, looks_up}
use efe_process_monitor.Intel.Lookups.Released.Progress.{
  left, IsFinished, all_ask, Reached, start, next, Reached-one, Reached-progress,
}
use efe_process_monitor.Timeline.{Event, ScoreChange, entries_of}
use efe_process_monitor.Timeline.Joined.{At, own_scores, own_events}
use efe_process_monitor.Timeline.Joined.Whole.{entries_of-At}
use efe_process_monitor.Context.{scheme_end, mask_url_creds}
use efe_process_monitor.Context.Masked.{mask_url_creds-hides}
use efe_process_monitor.Log.{RotatingWriter, log_max_bytes, write}
use efe_process_monitor.Log.Kept.{Keeps, write-Keeps}
use efe_process_monitor.Log.Kept.Bounded.{IsBounded, write-IsBounded}

abbrev peer : Text
peer = codes "198.51.100.7"

-- Two calls ask for one address, and the first has begun its lookup.
abbrev begun : Lookups ℕ
begun = record {
  inflight = insert peer 0 [];
  closed = [];
  next = 1;
  calls = looking peer 0 ∷ asking peer ∷ [];
}

begun-Reached : Reached (peer ∷ peer ∷ []) begun
unfolding lookup
begun-Reached =
    next (start (peer ∷ peer ∷ []))
      (starts (all_ask (peer ∷ peer ∷ [])) [] (asking peer ∷ []) peer refl refl)

Reached-one_example : sum (looks_up peer) begun.calls ≤ 1
Reached-one_example = Reached-one (peer ∷ peer ∷ []) begun peer begun-Reached

Reached-progress_example :
    (All IsFinished begun.calls ⊎ ((t : Lookups ℕ) × Step begun t))
    × ((t : Lookups ℕ) → Step begun t → sum left t.calls < sum left begun.calls)
Reached-progress_example = Reached-progress (peer ∷ peer ∷ []) begun begun-Reached

abbrev tool : Text
tool = codes "/opt/tool/bin"

abbrev no_port : Text → Option Text
no_port t = none

abbrev never_private : Text → Bool
never_private t = false

abbrev same : Text → Text
same t = t

abbrev change_at : ScoreChange
change_at = record {
  at = codes "10:01";
  exe = tool;
  ip = peer;
  threat = 7;
  breakdown = codes "susp";
}

abbrev event : Event
event = record { ts = codes "10:02"; process = codes "tool"; exe = tool; remote = peer }

entries_of-At_example :
    At {Name = Text} no_port never_private same [] [] [] []
      (tool, peer)
      (own_scores {Name = Text} no_port never_private same [] [] [] []
        (tool, peer)
        (change_at ∷ []))
      (own_events {Name = Text} no_port never_private same [] [] [] [] (tool, peer) (event ∷ []))
      (lookup
        (tool, peer)
        (entries_of no_port never_private same [] [] [] [] (event ∷ []) (change_at ∷ [])))
entries_of-At_example =
    entries_of-At no_port never_private same [] [] [] [] (tool, peer) (event ∷ []) (change_at ∷ [])

-- A log that is one byte from its limit in size.
abbrev almost_full : RotatingWriter
almost_full = record {
  is_open = true;
  size = 5242879;
  files = (0, codes "old line") ∷ (1, codes "older line") ∷ [];
}

write-Keeps_example :
    Keeps [] [] (codes "new line") almost_full (write true (codes "new line") almost_full)
unfolding lookup write
write-Keeps_example = write-Keeps (codes "new line") almost_full refl

mask_url_creds-hides_example :
    mask_url_creds (
      codes "http"
      ++ (scheme_end ++ (codes "ana:secret" ++ (b'@' ∷ (codes "proxy:3128" ++ codes "/x")))))
    ≡ codes "http" ++ (scheme_end ++ (codes "***@" ++ (codes "proxy:3128" ++ codes "/x")))
mask_url_creds-hides_example =
    mask_url_creds-hides (codes "http") (codes "ana:secret") (codes "proxy:3128") (codes "/x")
      (omega arith) (ground arith) (ground arith) (omega arith) refl

-- A log with one line in its file.
abbrev one_line : RotatingWriter
one_line = record { is_open = true; size = 8; files = (0, codes "old line") ∷ [] }

write-IsBounded_example : IsBounded log_max_bytes (write true (codes "new line") one_line)
unfolding lookup
write-IsBounded_example =
    write-IsBounded log_max_bytes (codes "new line") one_line (omega arith) (omega arith)
      (ground arith)
