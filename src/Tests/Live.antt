-- ===== src/Tests/Live.antt =====
-- The monitor on one socket.
use efe_process_monitor.Common.{
  ℕ, ◌≡◌, ◌≤◌, ◌/◌, refl, true, false, some, [], ◌∷◌, List, list_eq, nat_eq, pair_eq, arith, ltb,
}
use efe_process_monitor.Common.Maps.{Map, lookup}
use efe_process_monitor.Common.Texts.{Text, codes}
use efe_process_monitor.Baseline.Laws.{IsReplaced}
use efe_process_monitor.Monitor.Beacon.{check_beacon, beacon_key}
use efe_process_monitor.Monitor.Beacon.Laws.{IsBounded, check_beacon-IsBounded}
use efe_process_monitor.Monitor.Cycle.{Socket, Snapshot, World, describe, Watch, Loop}
use efe_process_monitor.Volume.{IoSample, no_rate, advance, stamp, measure, is_reused, cpu_percent}
use efe_process_monitor.Volume.Sustained.{advance_sustained}
use efe_process_monitor.Tests.Samples.{sample_net, sample_reals, sample_enrichment, same_text}

abbrev exe : Text
exe = codes "/opt/tool/bin"

abbrev world : World sample_reals
world = record {
  net = sample_net;
  opens = λ p. true;
  proc_name = λ p. some (codes "tool");
  proc_exe = λ p. some exe;
  file_hash = λ p. codes "bb";
  enrich_ip = λ ip. sample_enrichment;
  message = same_text;
}

abbrev socket : Socket
socket = record {
  pid = 7;
  laddr_ip = codes "10.0.0.2";
  laddr_port = 50000;
  raddr_ip = codes "198.51.100.7";
  raddr_port = 443;
}

-- The tool is on record with another content, and was heard once, long ago.
abbrev watch : Watch sample_reals
watch = record {
  baseline = record { hashes = ((exe, codes "aa"), 1) ∷ []; paths = (exe, 1) ∷ [] };
  beacons = [];
}

abbrev track : Map Text (List ℕ)
track = (beacon_key sample_reals exe (codes "198.51.100.7"), 5 ∷ []) ∷ []

abbrev snap : Snapshot
snap = ((7, (codes "10.0.0.2:50000", (codes "198.51.100.7:443", codes "ESTABLISHED"))), socket) ∷ []

abbrev loop : Loop sample_reals
loop = record { prev = snap; known = (7, 1) ∷ []; watch = watch }

track-IsBounded : IsBounded sample_reals track
unfolding lookup IsBounded
track-IsBounded k ts e = ground arith

check_beacon-IsBounded_example :
    IsBounded sample_reals (check_beacon sample_reals exe (codes "198.51.100.7") 9 track).0
check_beacon-IsBounded_example =
    check_beacon-IsBounded sample_reals exe (codes "198.51.100.7") 9 track track-IsBounded

-- The tool that the sample connection belongs to was replaced.
replaced :
    IsReplaced
      (describe sample_reals world socket).exe
      (world.file_hash (describe sample_reals world socket).exe)
      watch.baseline
unfolding describe lookup
replaced = ground arith

-- A second reading, one second after the first and a million bytes later.
abbrev sample : IoSample sample_reals
sample = record {
  at = 0;
  bytes_in = 0;
  bytes_out = 0;
  cpu_secs = 0;
  rate = no_rate sample_reals;
  hot = 1;
  cpu_hot = 0;
  last_seen = 0;
  have_first = true;
  user_done = true;
}

advance_sustained_example :
    (is_reused sample_reals 5 1000000 0 sample ≡ false)
    × (ltb (1000000 / 1) 262144 ≡ false)
    × (1 ≤ 1)
unfolding advance stamp measure is_reused cpu_percent
advance_sustained_example =
    advance_sustained sample_reals 4 1000000000 5 1000000 0 sample refl refl refl
