-- ===== src/Score/Threat/Listed/Whole.antt =====
-- The reasons of a whole connection.
use efe_process_monitor.Common.{
  ℕ, ◌*◌, ◌≡◌, ap, sym, ◌∙◌, min, not, ◌&&◌, [], ◌∷◌, ◌++◌, List, list_eq, nat_eq, length, ltb,
  ◌=?◌, arith, append_assoc, append-nil,
}
use efe_process_monitor.Common.Ints.{atoi, itoa}
use efe_process_monitor.Common.Texts.{codes}
use efe_process_monitor.Score.Conn.{Floats, Conn, human_rate}
use efe_process_monitor.Score.Reasons.{Reason}
use efe_process_monitor.Score.Threat.{
  Tally, reason_of, add_tenths, add, add_if, signature_signal, path_signal, local_signals, tally,
  capped, hits, is_suspect, bad_spawn, cred_files, exec_anomalies,
}
use efe_process_monitor.Score.Threat.Listed.{
  Row, listed, signature_rows, enrich_reasons, add_if-listed, enrich_signals-listed,
  signature_signal-listed,
}

module _ (fl : Floats) where
  abbrev pub path_rows : Conn fl → List Row
  path_rows c =
      (c.suspicious, (25, (codes "path_staging", [])))
      ∷ (c.untrusted && not c.suspicious, (8, (codes "path_untrusted", [])))
      ∷ []

  abbrev pub host_rows : Conn fl → List Row
  host_rows c =
      let suspect = is_suspect fl c in
      let spawn = bad_spawn c.details in
      let creds = cred_files c.details in
      let maps = length (exec_anomalies c.details) in
      (c.susp_port, (12, (codes "port", c.known ∷ [])))
      ∷ (not (spawn =? []), (40, (codes "spawn", spawn ∷ [])))
      ∷ (c.high_egress && suspect, (25, (codes "exfil", human_rate fl c.rate_out ∷ [])))
      ∷ (c.high_cpu && suspect, (25, (codes "cpu", fl.fixed_0 c.cpu ∷ [])))
      ∷ (ltb 0 creds, (25, (codes "creds", itoa creds ∷ [])))
      ∷ (ltb 0 maps, (30, (codes "execmap", itoa maps ∷ [])))
      ∷ []

  abbrev pub vt_rows : Conn fl → List Row
  vt_rows c = let n = hits (atoi c.vt) in (ltb 0 n, (6 * min 10 n, (codes "vt", c.vt ∷ []))) ∷ []

  -- The reasons of a connection that is on no whitelist, in the order of the breakdown.
  pub signal_reasons : Conn fl → List Reason
  signal_reasons c = listed (vt_rows c) (
      listed (path_rows c)
        (listed (host_rows c) (listed (signature_rows c.sig.status) (enrich_reasons c.enrich))))

  path_signal-listed :
      (c : Conn fl) (s : Tally) (rs : List Reason)
      → (path_signal fl c s).reasons ++ rs ≡ s.reasons ++ listed (path_rows c) rs
  unfolding path_signal add add_tenths listed
  path_signal-listed c s rs = ground (
    arith,
    append_assoc s.reasons (reason_of (codes "path_staging") 25 [] ∷ []) rs,
    append_assoc s.reasons (reason_of (codes "path_untrusted") 8 [] ∷ []) rs,
  )

  local_signals-listed :
      (c : Conn fl) (s : Tally) (rs : List Reason)
      → (local_signals fl c s).reasons ++ rs
        ≡ s.reasons ++ listed (vt_rows c) (listed (path_rows c) (listed (host_rows c) rs))
  unfolding local_signals listed
  local_signals-listed c s rs =
      let n = hits (atoi c.vt) in
      let w : capped n * 6 ≡ 6 * min 10 n = ground arith in
      let s1 = add_if (ltb 0 n) (capped n * 6) (codes "vt") (c.vt ∷ []) s in
      let s2 = path_signal fl c s1 in
      let s3 = add_if c.susp_port 12 (codes "port") (c.known ∷ []) s2 in
      let spawn = bad_spawn c.details in
      let spawns = not (spawn =? []) in
      let s4 = add_if spawns 40 (codes "spawn") (spawn ∷ []) s3 in
      let rate = human_rate fl c.rate_out in
      let exfil = c.high_egress && is_suspect fl c in
      let s5 = add_if exfil 25 (codes "exfil") (rate ∷ []) s4 in
      let busy = c.high_cpu && is_suspect fl c in
      let cpu = fl.fixed_0 c.cpu in
      let s6 = add_if busy 25 (codes "cpu") (cpu ∷ []) s5 in
      let creds = cred_files c.details in
      let s7 = add_if (ltb 0 creds) 25 (codes "creds") (itoa creds ∷ []) s6 in
      let maps = length (exec_anomalies c.details) in
      let l6 = listed ((ltb 0 maps, (30, (codes "execmap", itoa maps ∷ []))) ∷ []) rs in
      let l5 = listed ((ltb 0 creds, (25, (codes "creds", itoa creds ∷ []))) ∷ []) l6 in
      let l4 = listed ((busy, (25, (codes "cpu", cpu ∷ []))) ∷ []) l5 in
      let l3 = listed ((exfil, (25, (codes "exfil", rate ∷ []))) ∷ []) l4 in
      let l2 = listed ((spawns, (40, (codes "spawn", spawn ∷ []))) ∷ []) l3 in
      let l1 = listed ((c.susp_port, (12, (codes "port", c.known ∷ []))) ∷ []) l2 in
      let l0 = listed (path_rows c) l1 in
      add_if-listed (ltb 0 maps) 30 (codes "execmap") (itoa maps ∷ []) s7 rs
      ∙ add_if-listed (ltb 0 creds) 25 (codes "creds") (itoa creds ∷ []) s6 l6
      ∙ add_if-listed busy 25 (codes "cpu") (cpu ∷ []) s5 l5
      ∙ add_if-listed exfil 25 (codes "exfil") (rate ∷ []) s4 l4
      ∙ add_if-listed spawns 40 (codes "spawn") (spawn ∷ []) s3 l3
      ∙ add_if-listed c.susp_port 12 (codes "port") (c.known ∷ []) s2 l2
      ∙ path_signal-listed c s1 l1
      ∙ add_if-listed (ltb 0 n) (capped n * 6) (codes "vt") (c.vt ∷ []) s l0
      ∙ ap (λ (k : ℕ). s.reasons ++ listed ((ltb 0 n, (k, (codes "vt", c.vt ∷ []))) ∷ []) l0) w

  pub tally-listed : (c : Conn fl) → (tally fl c).reasons ≡ signal_reasons c
  unfolding tally signal_reasons
  tally-listed c =
      let s0 : Tally = record { tenths = 0; reasons = [] } in
      let s1 = local_signals fl c s0 in
      sym (append-nil (tally fl c).reasons)
      ∙ enrich_signals-listed c.enrich (signature_signal c.sig.status s1)
      ∙ signature_signal-listed c.sig.status s1 (enrich_reasons c.enrich)
      ∙ local_signals-listed c s0 (listed (signature_rows c.sig.status) (enrich_reasons c.enrich))
