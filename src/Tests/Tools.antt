-- ===== src/Tests/Tools.antt =====
-- VirusTotal's bucket and queue, and the audit's parsers, on small inputs.
use efe_process_monitor.Common.{
  ℕ, ◌+◌, ◌*◌, ◌≡◌, ◌≤◌, ◌↔◌, refl, true, none, some, [], ◌∷◌, ◌++◌, list_eq, nat_eq, arith, In,
}
use efe_process_monitor.Common.Texts.{Text, codes, trim_space}
use efe_process_monitor.Common.Counts.{count}
use efe_process_monitor.Common.Cuts.{lines, fields}
use efe_process_monitor.Intel.Feeds.{second}
use efe_process_monitor.Common.Floats.{of_nat, add, sub, mul, quot, round_to, half_even}
use efe_process_monitor.Vt.Bucket.{TokenBucket, new_bucket, seconds, allow}
use efe_process_monitor.Vt.Bucket.Rate.{window, allowed, four_times, allowed_minute}
use efe_process_monitor.Vt.Bucket.Wait.{vt_rate, wait_for_token, wait_for_token-some}
use efe_process_monitor.Vt.Queue.{Queue, claim, send, claims, sends}
use efe_process_monitor.Vt.Queue.Once.{IsOnce, Reached, start, next, Reached-IsOnce}
use efe_process_monitor.Vt.Verdict.{resolve_hash, failed}
use efe_process_monitor.Vt.Verdict.Misread.{resolve_hash-failed}
use efe_process_monitor.Audit.Units.{exec_keys, parse_systemd_exec}
use efe_process_monitor.Audit.Units.Exec.{Runs, parse_systemd_exec_iff}
use efe_process_monitor.Audit.HostsFile.{custom_hosts_lines}
use efe_process_monitor.Audit.HostsFile.Custom.{entry, Redirects, custom_hosts_lines_iff}

allowed_minute_example :
    (allowed (5 ∷ 5 ∷ 6 ∷ 7 ∷ 8 ∷ []) (new_bucket 5 4 4) ≤ 8)
    × (allowed (four_times 5 ++ four_times (5 + window)) (new_bucket 5 4 4) ≡ 8)
allowed_minute_example = allowed_minute (5 ∷ 5 ∷ 6 ∷ 7 ∷ 8 ∷ []) 5 (omega arith) (omega arith)

-- The bucket is empty.
abbrev spent : TokenBucket
spent = record { tokens = 0; max = of_nat 4; rate = vt_rate; last = 100 }

wait_for_token-some_example :
    (t : ℕ) × (wait_for_token 17 100 spent ≡ some t) × (t ≤ 100 + 16 * second)
wait_for_token-some_example = wait_for_token-some 100 spent refl refl

-- An empty bucket is not full enough after fifteen seconds, as the sum of the fifteen refills is
-- rounded down.
spent_fifteen : wait_for_token 16 100 spent ≡ none
unfolding wait_for_token allow seconds of_nat add sub mul quot round_to half_even
spent_fifteen = refl

abbrev no_hashes : Queue
no_hashes = record { pending = []; claims = []; queue = []; working = [] }

abbrev sent_once : Reached (send (codes "ab") (claim (codes "ab") no_hashes))
unfolding claim count
sent_once =
    next (next start (claims (codes "ab") no_hashes))
      (sends (codes "ab") (claim (codes "ab") no_hashes) (omega arith))

Reached-IsOnce_example : IsOnce (send (codes "ab") (claim (codes "ab") no_hashes))
unfolding claim count
Reached-IsOnce_example = Reached-IsOnce sent_once

resolve_hash-failed_example :
    resolve_hash
      (codes "key")
      (failed (codes "Get files/" ++ (codes "a4043" ++ codes ": context deadline exceeded")))
    ≡ some (codes "NOT_IN_VT")
resolve_hash-failed_example =
    resolve_hash-failed (codes "key") (codes "a4043") (codes "Get files/")
      (codes ": context deadline exceeded") (λ e. ground arith) refl

abbrev unit : Text
unit = codes "ExecStart=/usr/bin/tool -x"

parse_systemd_exec_iff_example :
    In (codes "/usr/bin/tool -x") (parse_systemd_exec unit)
    ↔ ((ln : Text) × In ln (lines unit) × Runs (codes "/usr/bin/tool -x") (trim_space ln) exec_keys)
parse_systemd_exec_iff_example = parse_systemd_exec_iff (codes "/usr/bin/tool -x") unit

abbrev redirect : Text
redirect = codes "127.0.0.1 bank.example"

custom_hosts_lines_iff_example :
    In redirect (custom_hosts_lines (λ t. true) (λ t. t) redirect (codes "box")) ↔ (
      (ln : Text) × (name : Text) × In ln (lines redirect)
      × (redirect ≡ entry ln)
      × Redirects (λ t. true) (λ t. t) (codes "box") name (fields redirect))
custom_hosts_lines_iff_example =
    custom_hosts_lines_iff (λ t. true) (λ t. t) (codes "box") redirect redirect
