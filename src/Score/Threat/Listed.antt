-- ===== src/Score/Threat/Listed.antt =====
-- The reasons of a score as a table of signals: which of them are shown, and with how many points.
pub mod Whole
use efe_process_monitor.Common.{
  ℕ, ◌*◌, ◌/◌, ◌≡◌, refl, ap, sym, ◌∙◌, min, Bool, true, false, not, ◌&&◌, Option, none, some, [],
  ◌∷◌, ◌++◌, List, list_eq, nat_eq, length, ltb, ◌=?◌, if◌then◌else◌, arith, append_assoc,
  append-nil,
}
use efe_process_monitor.Common.Ints.{atoi, itoa}
use efe_process_monitor.Common.Texts.{Text, codes}
use efe_process_monitor.Score.Conn.{Floats, Enrichment, Conn, human_rate}
use efe_process_monitor.Score.Reasons.{Reason}
use efe_process_monitor.Score.Threat.{
  Tally, reason_of, add_tenths, add, add_if, signature_signal, abuse_signal, feed_signals,
  vt_ip_signal, enrich_signals, path_signal, local_signals, tally, capped, hits, is_suspect,
  bad_spawn, cred_files, exec_anomalies, is_neutral_status,
}

-- A row: whether the signal is there, its points, its key and its arguments.
abbrev pub Row : Type 0
Row = Bool × (ℕ × (Text × List Text))

-- The reasons of the rows that are there, before the others.
pub listed : List Row → List Reason → List Reason
listed [] rs = rs
listed ((b, (pts, (key, args))) ∷ rows) rs =
    let rest = listed rows rs in if b then reason_of key pts args ∷ rest else rest

abbrev pub signature_rows : Text → List Row
signature_rows status =
    let unsigned = status =? codes "NotSigned" in
    (unsigned, (15, (codes "unsigned", [])))
    ∷ (not unsigned && not (is_neutral_status status), (10, (codes "sig", status ∷ [])))
    ∷ []

-- An abuse score counts 0.4 points a percent, and 0.1 for an address of a known provider; a reason
-- shows whole points.
abbrev pub before_feeds_rows : Enrichment → List Row
before_feeds_rows e =
    let n = hits e.abuse_score in
    let m = hits e.vt_malicious in
    let own = e.provider =? [] in
    (ltb 0 m, (4 * min 10 m, (codes "vtip", itoa m ∷ [])))
    ∷ (ltb 0 n && not own, (n / 10, (codes "abuse_att", itoa n ∷ e.provider ∷ [])))
    ∷ (ltb 0 n && own, (n * 4 / 10, (codes "abuse", itoa n ∷ [])))
    ∷ []

abbrev pub feed_rows : Enrichment → List Row
feed_rows e =
    let n = length e.vulns in
    (e.c2, (60, (codes "c2", [])))
    ∷ (not (e.threat_fox =? []), (55, (codes "threatfox", e.threat_fox ∷ [])))
    ∷ (e.spamhaus, (30, (codes "spamhaus", [])))
    ∷ (e.tor, (15, (codes "tor", [])))
    ∷ (ltb 0 n, (10, (codes "cves", itoa n ∷ [])))
    ∷ []

pub enrich_reasons : Option Enrichment → List Reason
enrich_reasons none = []
enrich_reasons (some e) = listed (before_feeds_rows e) (listed (feed_rows e) [])

pub add_if-listed :
    (b : Bool) (pts : ℕ) (key : Text) (args : List Text) (s : Tally) (rs : List Reason)
    → (add_if b pts key args s).reasons ++ rs
      ≡ s.reasons ++ listed ((b, (pts, (key, args))) ∷ []) rs
unfolding add add_tenths listed
add_if-listed true pts key args s rs =
    let e : pts * 10 / 10 ≡ pts = omega arith in
    append_assoc s.reasons (reason_of key (pts * 10 / 10) args ∷ []) rs
    ∙ ap (λ (n : ℕ). s.reasons ++ reason_of key n args ∷ rs) e
add_if-listed false pts key args s rs = refl

feed_signals-listed :
    (e : Enrichment) (s : Tally) (rs : List Reason)
    → (feed_signals e s).reasons ++ rs ≡ s.reasons ++ listed (feed_rows e) rs
unfolding feed_signals listed
feed_signals-listed e s rs =
    let n = length e.vulns in
    let fox = not (e.threat_fox =? []) in
    let s1 = add_if e.c2 60 (codes "c2") [] s in
    let s2 = add_if fox 55 (codes "threatfox") (e.threat_fox ∷ []) s1 in
    let s3 = add_if e.spamhaus 30 (codes "spamhaus") [] s2 in
    let s4 = add_if e.tor 15 (codes "tor") [] s3 in
    let l5 = listed ((ltb 0 n, (10, (codes "cves", itoa n ∷ []))) ∷ []) rs in
    let l4 = listed ((e.tor, (15, (codes "tor", []))) ∷ []) l5 in
    let l3 = listed ((e.spamhaus, (30, (codes "spamhaus", []))) ∷ []) l4 in
    let l2 = listed ((fox, (55, (codes "threatfox", e.threat_fox ∷ []))) ∷ []) l3 in
    add_if-listed (ltb 0 n) 10 (codes "cves") (itoa n ∷ []) s4 rs
    ∙ add_if-listed e.tor 15 (codes "tor") [] s3 l5
    ∙ add_if-listed e.spamhaus 30 (codes "spamhaus") [] s2 l4
    ∙ add_if-listed fox 55 (codes "threatfox") (e.threat_fox ∷ []) s1 l3
    ∙ add_if-listed e.c2 60 (codes "c2") [] s l2

vt_ip_signal-listed :
    (e : Enrichment) (s : Tally) (rs : List Reason)
    → (vt_ip_signal e s).reasons ++ rs
      ≡ s.reasons
        ++ listed
            ((
              ltb 0 (hits e.vt_malicious),
              (4 * min 10 (hits e.vt_malicious), (codes "vtip", itoa (hits e.vt_malicious) ∷ [])),
            )
              ∷ [])
            rs
unfolding vt_ip_signal
vt_ip_signal-listed e s rs =
    let n = hits e.vt_malicious in
    let w : capped n * 4 ≡ 4 * min 10 n = ground arith in
    add_if-listed (ltb 0 n) (capped n * 4) (codes "vtip") (itoa n ∷ []) s rs
    ∙ ap (λ (k : ℕ). s.reasons ++ listed ((ltb 0 n, (k, (codes "vtip", itoa n ∷ []))) ∷ []) rs) w

abuse_signal-listed :
    (e : Enrichment) (s : Tally) (rs : List Reason)
    → let n = hits e.abuse_score in
      let own = e.provider =? [] in
      (abuse_signal e s).reasons ++ rs
      ≡ s.reasons
        ++ listed
            ((ltb 0 n && not own, (n / 10, (codes "abuse_att", itoa n ∷ e.provider ∷ [])))
              ∷ (ltb 0 n && own, (n * 4 / 10, (codes "abuse", itoa n ∷ [])))
              ∷ [])
            rs
unfolding abuse_signal add_tenths listed
abuse_signal-listed e s rs =
    let n = hits e.abuse_score in
    ground (
      arith,
      append_assoc s.reasons
          (reason_of (codes "abuse_att") (n * 1 / 10) (itoa n ∷ e.provider ∷ []) ∷ []) rs,
      append_assoc s.reasons (reason_of (codes "abuse") (n * 4 / 10) (itoa n ∷ []) ∷ []) rs,
    )

pub enrich_signals-listed :
    (o : Option Enrichment) (s : Tally)
    → (enrich_signals o s).reasons ++ [] ≡ s.reasons ++ enrich_reasons o
unfolding enrich_signals enrich_reasons listed
enrich_signals-listed none s = refl
enrich_signals-listed (some e) s =
    let s1 = vt_ip_signal e s in
    let l3 = listed (feed_rows e) [] in
    let n = hits e.abuse_score in
    let own = e.provider =? [] in
    let l2 =
      listed
        ((ltb 0 n && not own, (n / 10, (codes "abuse_att", itoa n ∷ e.provider ∷ [])))
          ∷ (ltb 0 n && own, (n * 4 / 10, (codes "abuse", itoa n ∷ [])))
          ∷ [])
        l3 in
    feed_signals-listed e (abuse_signal e s1) []
    ∙ abuse_signal-listed e s1 l3
    ∙ vt_ip_signal-listed e s l2

pub signature_signal-listed :
    (status : Text) (s : Tally) (rs : List Reason)
    → (signature_signal status s).reasons ++ rs ≡ s.reasons ++ listed (signature_rows status) rs
unfolding signature_signal add add_tenths listed
signature_signal-listed status s rs = ground (
  arith,
  append_assoc s.reasons (reason_of (codes "unsigned") 15 [] ∷ []) rs,
  append_assoc s.reasons (reason_of (codes "sig") 10 (status ∷ []) ∷ []) rs,
)
