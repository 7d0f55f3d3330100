-- ===== src/Tests/Detection.antt =====
-- A connection, its score and the reasons behind it, a binary, a chain of processes and the settings.
use efe_process_monitor.Common.{
  ◌/◌, ◌≡◌, ◌≢◌, ◌↔◌, refl, min, true, false, none, some, [], ◌∷◌, ◌++◌, List, list_eq, nat_eq,
  pair_eq, ◌=?◌, arith, if◌then◌else◌, All, map,
}
use efe_process_monitor.Common.Ints.{pos}
use efe_process_monitor.Common.Maps.{Map, lookup}
use efe_process_monitor.Common.Texts.{Text, codes}
use efe_process_monitor.Score.Reasons.{Reason, encode_reasons}
use efe_process_monitor.Score.Reasons.RoundTrip.{
  HasKey, shown, read_reasons, read_reasons-encode_reasons,
}
use efe_process_monitor.Score.Threat.{threat_score}
use efe_process_monitor.Score.Threat.Explained.{
  shown_reasons, IsExplained, threat_score-IsExplained,
}
use efe_process_monitor.Score.Threat.Weights.{weights, threat_score-weights}
use efe_process_monitor.Baseline.{Baseline, verdict, baseline_seen}
use efe_process_monitor.Baseline.Laws.{baseline_seen-false_change}
use efe_process_monitor.Ancestry.{
  Procs, Ancestor, ancestor, ancestry_of, suspicious_ancestry, proc_base,
}
use efe_process_monitor.Ancestry.Walk.{IsChain, ancestry_of-IsChain}
use efe_process_monitor.Ancestry.Rules.{IsSuspect, suspicious_ancestry-IsSuspect}
use efe_process_monitor.Tests.Samples.{
  sample_net, sample_floats, sample_conn, sample_enrichment, same_text,
}

abbrev reasons : List Reason
reasons = record { key = codes "sig"; pts = 10; args = codes "a;b|c/d%" ∷ [] } ∷ []

abbrev first : Reason
first = record { key = codes "c2"; pts = 60; args = [] }

keys : All HasKey (first ∷ reasons)
keys = (refl, (refl, tt))

read_reasons-encode_reasons_example :
    read_reasons (encode_reasons (first ∷ reasons)) ≡ map shown (first ∷ reasons)
read_reasons-encode_reasons_example = read_reasons-encode_reasons first reasons keys

threat_score-IsExplained_example :
    IsExplained sample_floats
      (shown_reasons sample_floats sample_net (sample_conn (some sample_enrichment)))
      (threat_score sample_floats sample_net same_text (sample_conn (some sample_enrichment)))
threat_score-IsExplained_example =
    threat_score-IsExplained sample_floats sample_net same_text
      (sample_conn (some sample_enrichment))

threat_score-weights_example :
    (threat_score sample_floats sample_net same_text (sample_conn none)).1
    ≡ min 100 (weights sample_floats (sample_conn none) / 10)
threat_score-weights_example =
    threat_score-weights sample_floats sample_net same_text (sample_conn none) refl refl

abbrev exe : Text
exe = codes "/opt/tool/bin"

abbrev on_record : Baseline
on_record = record { hashes = ((exe, codes "aa"), 1) ∷ []; paths = (exe, 1) ∷ [] }

abbrev empty : Baseline
empty = record { hashes = []; paths = [] }

baseline_seen-false_change_example :
    (baseline_seen exe (codes "aa") 3 (baseline_seen exe [] 2 empty).0).1 ≡ verdict false true
unfolding lookup
baseline_seen-false_change_example =
    baseline_seen-false_change exe (codes "aa") 2 3 empty refl (ground arith) (ground arith) refl
      refl refl

-- Process 9 under 5 under 9.
abbrev procs : Procs
procs = record {
  opens = λ p. true;
  ppid = λ p. some (pos (if p =? 9 then 5 else 9));
  name = λ p. some (codes "nginx");
}

ancestry_of-IsChain_example : IsChain procs 12 (9 ∷ []) 9 (ancestry_of procs 9)
ancestry_of-IsChain_example = ancestry_of-IsChain procs 9

abbrev chain : List Ancestor
chain = ancestor 5 (codes "nginx") ∷ []

suspicious_ancestry-IsSuspect_example :
    (suspicious_ancestry (codes "/bin/sh") chain ≢ [])
    ↔ IsSuspect (proc_base (codes "/bin/sh")) chain
suspicious_ancestry-IsSuspect_example = suspicious_ancestry-IsSuspect (codes "/bin/sh") chain

-- A value with a line end in it.
abbrev updates : Map Text Text
updates = (codes "VT_API_KEY", codes "x" ++ (10 ∷ codes "AUTH_HASH=")) ∷ []

abbrev file : Text
file = codes "AUTH_HASH=secret" ++ 10 ∷ []
