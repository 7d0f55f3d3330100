-- ===== src/Score/Threat/Weights.antt =====
-- The score as the sum of a table of weights, and what follows for single signals.
use efe_process_monitor.Common.{
  ℕ, ◌+◌, ◌*◌, ◌/◌, ◌≤◌, ◌≡◌, refl, min, Bool, true, false, not, ◌&&◌, Option, none, some, [], ◌∷◌,
  List, list_eq, nat_eq, length, ltb, ◌=?◌, if◌then◌else◌, arith,
}
use efe_process_monitor.Common.Ints.{atoi, itoa}
use efe_process_monitor.Common.Texts.{Text, codes}
use efe_process_monitor.Network.{Net}
use efe_process_monitor.Score.Conn.{Floats, Enrichment, Conn, human_rate}
use efe_process_monitor.Score.Threat.{
  Tally, add_tenths, add, add_if, signature_signal, abuse_signal, feed_signals, vt_ip_signal,
  enrich_signals, path_signal, local_signals, tally, conclude, finish, threat_score, capped, hits,
  is_suspect, bad_spawn, cred_files, exec_anomalies, is_neutral_status,
}

-- A signal: whether it is there, and its points in tenths.
pub weighed : List (Bool × ℕ) → ℕ
weighed [] = 0
weighed ((b, w) ∷ ws) = (if b then w else 0) + weighed ws

abbrev pub feed_table : Option Enrichment → List (Bool × ℕ)
feed_table none = []
feed_table (some e) =
    let n = hits e.abuse_score in
    let own = e.provider =? [] in
    (true, 40 * min 10 (hits e.vt_malicious))
    ∷ (own, 4 * n)
    ∷ (not own, n)
    ∷ (e.c2, 600)
    ∷ (not (e.threat_fox =? []), 550)
    ∷ (e.spamhaus, 300)
    ∷ (e.tor, 150)
    ∷ (ltb 0 (length e.vulns), 100)
    ∷ []

module _ (fl : Floats) where
  -- The table of weights. Volume and processor load count for a binary that is suspect already.
  pub local_table : Conn fl → List (Bool × ℕ)
  local_table c =
      let suspect = is_suspect fl c in
      let unsigned = c.sig.status =? codes "NotSigned" in
      (true, 60 * min 10 (hits (atoi c.vt)))
      ∷ (c.suspicious, 250)
      ∷ (c.untrusted && not c.suspicious, 80)
      ∷ (c.susp_port, 120)
      ∷ (not (bad_spawn c.details =? []), 400)
      ∷ (c.high_egress && suspect, 250)
      ∷ (c.high_cpu && suspect, 250)
      ∷ (ltb 0 (cred_files c.details), 250)
      ∷ (ltb 0 (length (exec_anomalies c.details)), 300)
      ∷ (unsigned, 150)
      ∷ (not unsigned && not (is_neutral_status c.sig.status), 100)
      ∷ []

  pub weights : Conn fl → ℕ
  weights c = weighed (local_table c) + weighed (feed_table c.enrich)

add_if-tenths :
    (b : Bool) (pts : ℕ) (key : Text) (args : List Text) (s : Tally)
    → (add_if b pts key args s).tenths ≡ s.tenths + (if b then pts * 10 else 0)
unfolding add add_tenths
add_if-tenths true pts key args s = refl
add_if-tenths false pts key args s = omega arith

feed_signals-tenths :
    (e : Enrichment) (s : Tally)
    → (feed_signals e s).tenths
      ≡ s.tenths
        + ((if e.c2 then 600 else 0)
            + (if not (e.threat_fox =? []) then 550 else 0)
            + (if e.spamhaus then 300 else 0)
            + (if e.tor then 150 else 0)
            + (if ltb 0 (length e.vulns) then 100 else 0))
unfolding feed_signals
feed_signals-tenths e s =
    let n = length e.vulns in
    let fox = not (e.threat_fox =? []) in
    let s1 = add_if e.c2 60 (codes "c2") [] s in
    let s2 = add_if fox 55 (codes "threatfox") (e.threat_fox ∷ []) s1 in
    let s3 = add_if e.spamhaus 30 (codes "spamhaus") [] s2 in
    let s4 = add_if e.tor 15 (codes "tor") [] s3 in
    omega (
      arith,
      add_if-tenths e.c2 60 (codes "c2") [] s,
      add_if-tenths fox 55 (codes "threatfox") (e.threat_fox ∷ []) s1,
      add_if-tenths e.spamhaus 30 (codes "spamhaus") [] s2,
      add_if-tenths e.tor 15 (codes "tor") [] s3,
      add_if-tenths (ltb 0 n) 10 (codes "cves") (itoa n ∷ []) s4,
    )

before_feeds-tenths :
    (e : Enrichment) (s : Tally)
    → (abuse_signal e (vt_ip_signal e s)).tenths
      ≡ s.tenths
        + 40 * min 10 (hits e.vt_malicious)
        + (if e.provider =? [] then 4 * hits e.abuse_score else hits e.abuse_score)
unfolding abuse_signal vt_ip_signal add add_tenths
before_feeds-tenths e s = ground arith

enrich_signals-tenths :
    (o : Option Enrichment) (s : Tally)
    → (enrich_signals o s).tenths ≡ s.tenths + weighed (feed_table o)
unfolding enrich_signals weighed
enrich_signals-tenths none s = omega arith
enrich_signals-tenths (some e) s =
    ground
      (arith, before_feeds-tenths e s, feed_signals-tenths e (abuse_signal e (vt_ip_signal e s)))

module _ (fl : Floats) where
  start-tenths :
      (c : Conn fl) (s : Tally)
      → (path_signal fl c (
          add_if
            (ltb 0 (hits (atoi c.vt)))
            (capped (hits (atoi c.vt)) * 6)
            (codes "vt")
            (c.vt ∷ [])
            s)).tenths
        ≡ s.tenths
          + 60 * min 10 (hits (atoi c.vt))
          + (if c.suspicious then 250 else 0)
          + (if c.untrusted && not c.suspicious then 80 else 0)
  unfolding path_signal add add_tenths
  start-tenths c s = ground arith

  rest-tenths :
      (c : Conn fl) (s : Tally)
      → (local_signals fl c s).tenths
        ≡ s.tenths
          + 60 * min 10 (hits (atoi c.vt))
          + (if c.suspicious then 250 else 0)
          + (if c.untrusted && not c.suspicious then 80 else 0)
          + (if c.susp_port then 120 else 0)
          + (if not (bad_spawn c.details =? []) then 400 else 0)
          + (if c.high_egress && is_suspect fl c then 250 else 0)
          + (if c.high_cpu && is_suspect fl c then 250 else 0)
          + (if ltb 0 (cred_files c.details) then 250 else 0)
          + (if ltb 0 (length (exec_anomalies c.details)) then 300 else 0)
  unfolding local_signals
  rest-tenths c s =
      let n = hits (atoi c.vt) in
      let s1 = add_if (ltb 0 n) (capped n * 6) (codes "vt") (c.vt ∷ []) s in
      let s2 = path_signal fl c s1 in
      let s3 = add_if c.susp_port 12 (codes "port") (c.known ∷ []) s2 in
      let spawn = bad_spawn c.details in
      let spawns = not (spawn =? []) in
      let s4 = add_if spawns 40 (codes "spawn") (spawn ∷ []) s3 in
      let rate = human_rate fl c.rate_out in
      let exfil = c.high_egress && is_suspect fl c in
      let s5 = add_if exfil 25 (codes "exfil") (rate ∷ []) s4 in
      let busy = c.high_cpu && is_suspect fl c in
      let cpu = fl.fixed_0 c.cpu in
      let s6 = add_if busy 25 (codes "cpu") (cpu ∷ []) s5 in
      let creds = cred_files c.details in
      let s7 = add_if (ltb 0 creds) 25 (codes "creds") (itoa creds ∷ []) s6 in
      let maps = length (exec_anomalies c.details) in
      omega (
        arith,
        start-tenths c s,
        add_if-tenths c.susp_port 12 (codes "port") (c.known ∷ []) s2,
        add_if-tenths spawns 40 (codes "spawn") (spawn ∷ []) s3,
        add_if-tenths exfil 25 (codes "exfil") (rate ∷ []) s4,
        add_if-tenths busy 25 (codes "cpu") (cpu ∷ []) s5,
        add_if-tenths (ltb 0 creds) 25 (codes "creds") (itoa creds ∷ []) s6,
        add_if-tenths (ltb 0 maps) 30 (codes "execmap") (itoa maps ∷ []) s7,
      )

  signature_signal-tenths :
      (status : Text) (s : Tally)
      → (signature_signal status s).tenths
        ≡ s.tenths
          + (if status =? codes "NotSigned" then 150 else 0)
          + (if not (status =? codes "NotSigned") && not (is_neutral_status status) then 100 else 0)
  unfolding signature_signal add add_tenths
  signature_signal-tenths status s = ground arith

  tally-weights : (c : Conn fl) → (tally fl c).tenths ≡ weights fl c
  unfolding tally weights local_table weighed
  tally-weights c =
      let s0 : Tally = record { tenths = 0; reasons = [] } in
      let s1 = local_signals fl c s0 in
      omega (
        arith,
        rest-tenths c s0,
        signature_signal-tenths c.sig.status s1,
        enrich_signals-tenths c.enrich (signature_signal c.sig.status s1),
      )

  -- The score of a connection that is not on a whitelist is the sum of the weights of the signals
  -- that it shows, cut to whole points and to 100.
  pub threat_score-weights :
      (net : Net) (localize : Text → Text) (c : Conn fl)
      → c.whitelist ≡ false
      → c.ip_whitelist ≡ false
      → (threat_score fl net localize c).1 ≡ min 100 (weights fl c / 10)
  unfolding threat_score conclude finish
  threat_score-weights net localize c p q = ground (arith, tally-weights c)

  weights_volume :
      (c : Conn fl) (egress cpu : Bool)
      → is_suspect fl c ≡ false
      → weights fl (record c { high_egress = egress; high_cpu = cpu }) ≡ weights fl c
  unfolding weights local_table weighed
  weights_volume c egress cpu h = ground arith

  weights_c2 : (c : Conn fl) (e : Enrichment) → c.enrich ≡ some e → e.c2 ≡ true → 600 ≤ weights fl c
  unfolding weights weighed
  weights_c2 c e h k = ground arith

  -- A high data rate and a high processor load change no score of a binary that nothing else makes
  -- suspect.
  pub threat_score_volume :
      (net : Net) (localize : Text → Text) (c : Conn fl) (egress cpu : Bool)
      → is_suspect fl c ≡ false
      → (threat_score fl net localize (record c { high_egress = egress; high_cpu = cpu })).1
        ≡ (threat_score fl net localize c).1
  unfolding threat_score conclude finish
  threat_score_volume net localize c egress cpu h =
      let d : Conn fl = record c { high_egress = egress; high_cpu = cpu } in
      ground (arith, tally-weights c, tally-weights d, weights_volume c egress cpu h)

  -- A remote address on the list of control servers scores 60 at least, whatever else is known.
  pub threat_score_c2 :
      (net : Net) (localize : Text → Text) (c : Conn fl) (e : Enrichment)
      → c.whitelist ≡ false
      → c.ip_whitelist ≡ false
      → c.enrich ≡ some e
      → e.c2 ≡ true
      → 60 ≤ (threat_score fl net localize c).1
  threat_score_c2 net localize c e p q h k =
      omega (arith, threat_score-weights net localize c p q, weights_c2 c e h k)
