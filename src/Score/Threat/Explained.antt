-- ===== src/Score/Threat/Explained.antt =====
-- The reasons explain the score: their points add up to it.
use efe_process_monitor.Common.{
  ℕ, ◌+◌, ◌*◌, ◌/◌, ◌≤◌, ◌<◌, ◌≡◌, refl, ap, ◌∙◌, min, Bool, true, false, not, ◌&&◌, Option, none,
  some, [], ◌∷◌, ◌++◌, List, list_eq, nat_eq, length, ltb, ◌=?◌, arith, if◌then◌else◌, subst,
  Bool-cases, inl, inr,
}
use efe_process_monitor.Common.Ints.{atoi, itoa}
use efe_process_monitor.Common.Texts.{Text, codes}
use efe_process_monitor.Network.{Net}
use efe_process_monitor.Score.Conn.{Floats, Enrichment, Conn, human_rate}
use efe_process_monitor.Score.Reasons.{Reason, is_nil, encode_reasons}
use efe_process_monitor.Score.Threat.Listed.Whole.{signal_reasons, tally-listed}
use efe_process_monitor.Score.Threat.{
  Tally, reason_of, add_tenths, add, add_if, signature_signal, abuse_signal, feed_signals,
  vt_ip_signal, enrich_signals, path_signal, local_signals, tally, conclude, finish, threat_score,
  capped, hits, bad_spawn, cred_files, exec_anomalies, is_suspect, coverage_incomplete, only,
}

pub sum_pts : List Reason → ℕ
sum_pts [] = 0
sum_pts (r ∷ rs) = r.pts + sum_pts rs

sum_pts-concat : (rs : List Reason) (r : Reason) → sum_pts (rs ++ r ∷ []) ≡ sum_pts rs + r.pts
unfolding sum_pts
sum_pts-concat [] r = omega arith
sum_pts-concat (q ∷ rs) r = omega (arith, sum_pts-concat rs r)

sum_pts_nil : (rs : List Reason) → is_nil rs ≡ true → sum_pts rs ≡ 0
unfolding sum_pts
sum_pts_nil [] h = refl
sum_pts_nil (r ∷ rs) h = cc

-- The points add up to the score exactly, or up to a fraction of a point.
abbrev Whole : Tally → Type 0
Whole s = s.tenths ≡ 10 * sum_pts s.reasons

abbrev Near : Tally → Type 0
Near s = (10 * sum_pts s.reasons ≤ s.tenths) × (s.tenths < 10 * sum_pts s.reasons + 10)

-- The score in whole points is the sum of the points, but 100 at most.
score_of-Near :
    (tenths : ℕ) (rs : List Reason)
    → (10 * sum_pts rs ≤ tenths) × (tenths < 10 * sum_pts rs + 10)
    → (if ltb 1000 tenths then 1000 else tenths) / 10 ≡ min 100 (sum_pts rs)
score_of-Near tenths rs h = ground arith

module _ (pts : ℕ) (key : Text) (args : List Text) (s : Tally) where
  add-Whole : Whole s → Whole (add pts key args s)
  unfolding add
  add-Whole h = omega (arith, sum_pts-concat s.reasons (reason_of key (pts * 10 / 10) args))

  add-Near : Near s → Near (add pts key args s)
  unfolding add
  add-Near h = (
    omega (arith, sum_pts-concat s.reasons (reason_of key (pts * 10 / 10) args)),
    omega (arith, sum_pts-concat s.reasons (reason_of key (pts * 10 / 10) args)),
  )

  add_tenths-Near : Whole s → Near (add_tenths pts key args s)
  unfolding add_tenths
  add_tenths-Near h = (
    omega (arith, sum_pts-concat s.reasons (reason_of key (pts / 10) args)),
    omega (arith, sum_pts-concat s.reasons (reason_of key (pts / 10) args)),
  )

add_if-Whole :
    (b : Bool) (pts : ℕ) (key : Text) (args : List Text) (s : Tally)
    → Whole s
    → Whole (add_if b pts key args s)
add_if-Whole true pts key args s h = add-Whole pts key args s h
add_if-Whole false pts key args s h = h

add_if-Near :
    (b : Bool) (pts : ℕ) (key : Text) (args : List Text) (s : Tally)
    → Near s
    → Near (add_if b pts key args s)
add_if-Near true pts key args s h = add-Near pts key args s h
add_if-Near false pts key args s h = h

signature_signal-Whole : (status : Text) (s : Tally) → Whole s → Whole (signature_signal status s)
unfolding signature_signal
signature_signal-Whole status s h =
    ground
      (arith, add-Whole 15 (codes "unsigned") [] s h, add-Whole 10 (codes "sig") (status ∷ []) s h)

Near-of_Whole : (s : Tally) → Whole s → Near s
Near-of_Whole s h = omega arith

abuse_signal-Near : (e : Enrichment) (s : Tally) → Whole s → Near (abuse_signal e s)
unfolding abuse_signal
abuse_signal-Near e s h =
    let n = hits e.abuse_score in
    ground (
      arith,
      Near-of_Whole s h,
      add_tenths-Near (n * 1) (codes "abuse_att") (itoa n ∷ e.provider ∷ []) s h,
      add_tenths-Near (n * 4) (codes "abuse") (itoa n ∷ []) s h,
    )

feed_signals-Near : (e : Enrichment) (s : Tally) → Near s → Near (feed_signals e s)
unfolding feed_signals
feed_signals-Near e s h =
    let n = length e.vulns in
    let s1 = add_if e.c2 60 (codes "c2") [] s in
    let h1 = add_if-Near e.c2 60 (codes "c2") [] s h in
    let fox = not (e.threat_fox =? []) in
    let s2 = add_if fox 55 (codes "threatfox") (e.threat_fox ∷ []) s1 in
    let h2 = add_if-Near fox 55 (codes "threatfox") (e.threat_fox ∷ []) s1 h1 in
    let s3 = add_if e.spamhaus 30 (codes "spamhaus") [] s2 in
    let h3 = add_if-Near e.spamhaus 30 (codes "spamhaus") [] s2 h2 in
    let s4 = add_if e.tor 15 (codes "tor") [] s3 in
    let h4 = add_if-Near e.tor 15 (codes "tor") [] s3 h3 in
    add_if-Near (ltb 0 n) 10 (codes "cves") (itoa n ∷ []) s4 h4

vt_ip_signal-Whole : (e : Enrichment) (s : Tally) → Whole s → Whole (vt_ip_signal e s)
unfolding vt_ip_signal
vt_ip_signal-Whole e s h =
    let n = hits e.vt_malicious in
    add_if-Whole (ltb 0 n) (capped n * 4) (codes "vtip") (itoa n ∷ []) s h

enrich_signals-Near : (e : Option Enrichment) (s : Tally) → Whole s → Near (enrich_signals e s)
unfolding enrich_signals
enrich_signals-Near none s h = Near-of_Whole s h
enrich_signals-Near (some e) s h =
    let t = vt_ip_signal e s in
    feed_signals-Near e (abuse_signal e t) (abuse_signal-Near e t (vt_ip_signal-Whole e s h))

module _ (fl : Floats) where
  path_signal-Whole : (c : Conn fl) (s : Tally) → Whole s → Whole (path_signal fl c s)
  unfolding path_signal
  path_signal-Whole c s h = ground (
    arith,
    add-Whole 25 (codes "path_staging") [] s h,
    add_if-Whole c.untrusted 8 (codes "path_untrusted") [] s h,
  )

  local_signals-Whole : (c : Conn fl) (s : Tally) → Whole s → Whole (local_signals fl c s)
  unfolding local_signals
  local_signals-Whole c s h =
      let n = hits (atoi c.vt) in
      let s1 = add_if (ltb 0 n) (capped n * 6) (codes "vt") (c.vt ∷ []) s in
      let h1 = add_if-Whole (ltb 0 n) (capped n * 6) (codes "vt") (c.vt ∷ []) s h in
      let s2 = path_signal fl c s1 in
      let h2 = path_signal-Whole c s1 h1 in
      let s3 = add_if c.susp_port 12 (codes "port") (c.known ∷ []) s2 in
      let h3 = add_if-Whole c.susp_port 12 (codes "port") (c.known ∷ []) s2 h2 in
      let spawn = bad_spawn c.details in
      let spawns = not (spawn =? []) in
      let s4 = add_if spawns 40 (codes "spawn") (spawn ∷ []) s3 in
      let h4 = add_if-Whole spawns 40 (codes "spawn") (spawn ∷ []) s3 h3 in
      let rate = human_rate fl c.rate_out in
      let exfil = c.high_egress && is_suspect fl c in
      let s5 = add_if exfil 25 (codes "exfil") (rate ∷ []) s4 in
      let h5 = add_if-Whole exfil 25 (codes "exfil") (rate ∷ []) s4 h4 in
      let busy = c.high_cpu && is_suspect fl c in
      let cpu = fl.fixed_0 c.cpu in
      let s6 = add_if busy 25 (codes "cpu") (cpu ∷ []) s5 in
      let h6 = add_if-Whole busy 25 (codes "cpu") (cpu ∷ []) s5 h5 in
      let creds = cred_files c.details in
      let s7 = add_if (ltb 0 creds) 25 (codes "creds") (itoa creds ∷ []) s6 in
      let h7 = add_if-Whole (ltb 0 creds) 25 (codes "creds") (itoa creds ∷ []) s6 h6 in
      let maps = length (exec_anomalies c.details) in
      add_if-Whole (ltb 0 maps) 30 (codes "execmap") (itoa maps ∷ []) s7 h7

  tally-Near : (c : Conn fl) → Near (tally fl c)
  unfolding tally
  tally-Near c =
      let s0 : Tally = record { tenths = 0; reasons = [] } in
      let s1 = local_signals fl c s0 in
      let h1 = local_signals-Whole c s0 (unfold sum_pts in refl) in
      enrich_signals-Near c.enrich (signature_signal c.sig.status s1)
        (signature_signal-Whole c.sig.status s1 h1)

  -- What the breakdown of a connection lists: its signals, or the one reason why there are none.
  abbrev pub shown_reasons : Net → Conn fl → List Reason
  shown_reasons net c =
      let rs = signal_reasons fl c in
      if c.whitelist
      then only "wl_exe"
      else if c.ip_whitelist
      then only "wl_ip"
      else if not (is_nil rs)
      then rs
      else if coverage_incomplete fl net c
      then only "partial"
      else only "clean"

  -- The breakdown lists these reasons, and the score is the sum of their points, but 100 at most.
  abbrev pub IsExplained : List Reason → Conn fl × ℕ → Type 0
  IsExplained rs (c, score) =
      (c.breakdown_code ≡ encode_reasons rs) × (score ≡ min 100 (sum_pts rs))

  -- The breakdown code of every connection lists exactly the signals that the connection shows, each
  -- with its own points, in whole points, and the score is the sum of these points, or 100 where they
  -- come to more. Where there is no signal, it says so or that not all is known yet; a connection
  -- on a whitelist lists this alone, and scores 0.
  pub threat_score-IsExplained :
      (net : Net) (localize : Text → Text) (c : Conn fl)
      → IsExplained (shown_reasons net c) (threat_score fl net localize c)
  unfolding threat_score conclude finish sum_pts
  threat_score-IsExplained net localize c =
      let rs = tally-listed fl c in
      let score = score_of-Near (tally fl c).tenths (signal_reasons fl c) (
        subst
          (λ l.
            (10 * sum_pts l ≤ (tally fl c).tenths) × ((tally fl c).tenths < 10 * sum_pts l + 10))
          rs (tally-Near c)) in
      let none_left = sum_pts_nil (signal_reasons fl c) in
      elim (Bool-cases c.whitelist) [
        | inl p ↦ (simp (p), simp (p))
        | inr p ↦ elim (Bool-cases c.ip_whitelist) [
          | inl q ↦ (simp (p, q), simp (p, q))
          | inr q ↦ elim (Bool-cases (is_nil (signal_reasons fl c))) [
            | inl e ↦ elim (Bool-cases (coverage_incomplete fl net c)) [
              | inl k ↦ (
                simp (p, q, rs, e, k),
                simp (p, q, rs, e, k) (score ∙ ap (min 100) (none_left e)),
              )
              | inr k ↦ (
                simp (p, q, rs, e, k),
                simp (p, q, rs, e, k) (score ∙ ap (min 100) (none_left e)),
              )
            ]
            | inr e ↦ (simp (p, q, rs, e), simp (p, q, rs, e) score)
          ]
        ]
      ]
