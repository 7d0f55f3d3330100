-- ===== src/Score/Threat.antt =====
-- connections.go: threatScore and coverageIncomplete. The score is a number of tenths of a point,
-- as the weights are; only the AbuseIPDB term has a fraction.
pub mod Explained
pub mod Listed
pub mod Weights
use efe_process_monitor.Common.{
  ℕ, ◌+◌, ◌*◌, ◌/◌, Bool, true, false, not, ◌&&◌, ◌||◌, Option, none, some, [], ◌∷◌, ◌++◌, List,
  list_eq, nat_eq, length, ltb, ◌=?◌, ◌==◌, if◌then◌else◌,
}
use efe_process_monitor.Common.Ints.{ℤ, pos, negsuc, pos_part, atoi, itoa}
use efe_process_monitor.Common.Texts.{Text, codes}
use Prim.Native.String.{String}
use efe_process_monitor.Network.{Net, is_private_ip}
use efe_process_monitor.Score.Conn.{Floats, Signature, Enrichment, ProcDetails, Conn, human_rate}
use efe_process_monitor.Score.Reasons.{Reason, is_nil, encode_reasons}

-- The variables score, in tenths, and rs.
pub record Tally : Type 0 where
  pub tenths : ℕ
  pub reasons : List Reason

abbrev pub reason_of : Text → ℕ → List Text → Reason
reason_of key pts args = record { key = key; pts = pts; args = args }

-- add, for points in tenths: the reason shows whole points.
pub add_tenths : ℕ → Text → List Text → Tally → Tally
add_tenths t key args s = record {
  tenths = s.tenths + t;
  reasons = s.reasons ++ reason_of key (t / 10) args ∷ [];
}

pub add : ℕ → Text → List Text → Tally → Tally
unfolding add_tenths
add pts key args s = add_tenths (pts * 10) key args s

-- add under a condition
abbrev pub add_if : Bool → ℕ → Text → List Text → Tally → Tally
add_if true pts key args s = add pts key args s
add_if false pts key args s = s

abbrev pub vt_detection_cap : ℕ
vt_detection_cap = 10

abbrev pub capped : ℕ → ℕ
capped n = if ltb vt_detection_cap n then vt_detection_cap else n

-- The value of a number that is positive, and 0 for any other and for none.
abbrev pub hits : Option ℤ → ℕ
hits none = 0
hits (some n) = pos_part n

abbrev pub bad_spawn : Option ProcDetails → Text
bad_spawn none = []
bad_spawn (some d) = d.bad_spawn

abbrev pub cred_files : Option ProcDetails → ℕ
cred_files none = 0
cred_files (some d) = d.cred_files

abbrev pub exec_anomalies : Option ProcDetails → List Text
exec_anomalies none = []
exec_anomalies (some d) = d.exec_anomalies

abbrev pub sig_pending : Text
sig_pending = codes "PENDING"

-- The signature states that add nothing.
abbrev pub is_neutral_status : Text → Bool
is_neutral_status s =
    (s =? codes "Valid")
    || (s =? codes "N/A")
    || (s =? codes "Unknown")
    || (s =? [])
    || (s =? codes "Packaged")
    || (s =? codes "Unmanaged")
    || (s =? sig_pending)

pub signature_signal : Text → Tally → Tally
signature_signal status s =
    if status =? codes "NotSigned"
    then add 15 (codes "unsigned") [] s
    else if is_neutral_status status
    then s
    else add 10 (codes "sig") (status ∷ []) s

-- Points of 0.4 or, for a known provider, 0.1 for each percent.
pub abuse_signal : Enrichment → Tally → Tally
abuse_signal e s =
    let n = hits e.abuse_score in
    if not (ltb 0 n)
    then s
    else if not (e.provider =? [])
    then add_tenths (n * 1) (codes "abuse_att") (itoa n ∷ e.provider ∷ []) s
    else add_tenths (n * 4) (codes "abuse") (itoa n ∷ []) s

-- What follows the AbuseIPDB term, and what comes before it.
pub feed_signals : Enrichment → Tally → Tally
feed_signals e s =
    let s1 = add_if e.c2 60 (codes "c2") [] s in
    let s2 = add_if (not (e.threat_fox =? [])) 55 (codes "threatfox") (e.threat_fox ∷ []) s1 in
    let s3 = add_if e.spamhaus 30 (codes "spamhaus") [] s2 in
    let s4 = add_if e.tor 15 (codes "tor") [] s3 in
    add_if (ltb 0 (length e.vulns)) 10 (codes "cves") (itoa (length e.vulns) ∷ []) s4

pub vt_ip_signal : Enrichment → Tally → Tally
vt_ip_signal e s =
    let n = hits e.vt_malicious in add_if (ltb 0 n) (capped n * 4) (codes "vtip") (itoa n ∷ []) s

pub enrich_signals : Option Enrichment → Tally → Tally
enrich_signals none s = s
enrich_signals (some e) s = feed_signals e (abuse_signal e (vt_ip_signal e s))

abbrev pub is_number : Option ℤ → Bool
is_number none = false
is_number (some n) = true

abbrev pub only : String → List Reason
only key = reason_of (codes key) 0 [] ∷ []

module _ (fl : Floats) where
  -- The binary was suspect for a reason of its own.
  abbrev pub is_suspect : Conn fl → Bool
  is_suspect c = c.suspicious || c.susp_port || not (bad_spawn c.details =? [])

  pub path_signal : Conn fl → Tally → Tally
  path_signal c s =
      if c.suspicious
      then add 25 (codes "path_staging") [] s
      else add_if c.untrusted 8 (codes "path_untrusted") [] s

  -- From the VirusTotal verdict to the executable memory, in the order of the code.
  pub local_signals : Conn fl → Tally → Tally
  local_signals c s =
      let n = hits (atoi c.vt) in
      let s1 = add_if (ltb 0 n) (capped n * 6) (codes "vt") (c.vt ∷ []) s in
      let s2 = path_signal c s1 in
      let s3 = add_if c.susp_port 12 (codes "port") (c.known ∷ []) s2 in
      let spawn = bad_spawn c.details in
      let s4 = add_if (not (spawn =? [])) 40 (codes "spawn") (spawn ∷ []) s3 in
      let rate = human_rate fl c.rate_out in
      let s5 = add_if (c.high_egress && is_suspect c) 25 (codes "exfil") (rate ∷ []) s4 in
      let s6 = add_if (c.high_cpu && is_suspect c) 25 (codes "cpu") (fl.fixed_0 c.cpu ∷ []) s5 in
      let creds = cred_files c.details in
      let s7 = add_if (ltb 0 creds) 25 (codes "creds") (itoa creds ∷ []) s6 in
      let maps = length (exec_anomalies c.details) in
      add_if (ltb 0 maps) 30 (codes "execmap") (itoa maps ∷ []) s7

  -- All the signals of a connection that is not whitelisted.
  pub tally : Conn fl → Tally
  tally c =
      enrich_signals c.enrich
        (signature_signal c.sig.status (local_signals c (record { tenths = 0; reasons = [] })))

  pub coverage_incomplete : Net → Conn fl → Bool
  coverage_incomplete net c =
      let vt_covered = (c.vt =? codes "NOT_IN_VT") || is_number (atoi c.vt) in
      let enriched : Bool = elim c.enrich [ none ↦ false | some e ↦ true ] in
      let ip_covered = (c.remote_ip =? []) || is_private_ip net c.remote_ip || enriched in
      not vt_covered || not ip_covered || (c.sig.status =? sig_pending)

  -- finish: the connection with its breakdown both ways, and the score.
  pub finish : (Text → Text) → ℕ → List Reason → Conn fl → Conn fl × ℕ
  finish localize score rs c =
      let code = encode_reasons rs in
      (record c { breakdown_code = code; breakdown = localize code }, score)

  -- The end of threatScore: the cap, and the reason given where there is none.
  pub conclude : Net → (Text → Text) → Tally → Conn fl → Conn fl × ℕ
  conclude net localize s c =
      let score = (if ltb 1000 s.tenths then 1000 else s.tenths) / 10 in
      if not (is_nil s.reasons)
      then finish localize score s.reasons c
      else if coverage_incomplete net c
      then finish localize score (only "partial") (record c { partial = true })
      else finish localize score (only "clean") c

  -- `localize` is localizeBreakdown in the current language.
  pub threat_score : Net → (Text → Text) → Conn fl → Conn fl × ℕ
  threat_score net localize c =
      if c.whitelist
      then finish localize 0 (only "wl_exe") c
      else if c.ip_whitelist
      then finish localize 0 (only "wl_ip") c
      else conclude net localize (tally c) c
