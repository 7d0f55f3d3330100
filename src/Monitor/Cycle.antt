-- ===== src/Monitor/Cycle.antt =====
-- monitor.go: describe, alertOnIntel and a pass of monitorLoop. What the loop hands on, an event to
-- publish, a background check of an address or a notification, is a list of actions in their order.
pub mod Actions
use efe_process_monitor.Common.{
  ℕ, ◌+◌, Bool, true, false, not, ◌&&◌, ◌||◌, Option, none, some, [], ◌∷◌, ◌++◌, List, list_eq,
  nat_eq, pair_eq, length, ltb, leb, ◌==◌, ◌=?◌, if◌then◌else◌,
}
use efe_process_monitor.Common.Ints.{ℤ, pos, pos_part, itoa}
use efe_process_monitor.Common.Maps.{Map, lookup, insert, keep}
use efe_process_monitor.Common.Texts.{Text, codes, join}
use efe_process_monitor.Network.{Net, is_private_ip}
use efe_process_monitor.Ports.{is_suspicious_path}
use efe_process_monitor.Baseline.{Baseline, Verdict, baseline_seen}
use efe_process_monitor.Score.Conn.{Enrichment}
use efe_process_monitor.Score.Threat.{hits}
use efe_process_monitor.Monitor.Beacon.{Reals, zero_f, number, check_beacon}

-- The fields of gnet.ConnectionStat that the loop reads.
pub record Socket : Type 0 where
  pub pid : ℕ
  pub laddr_ip : Text
  pub laddr_port : ℕ
  pub raddr_ip : Text
  pub raddr_port : ℕ

-- pid, laddr, raddr and status
abbrev pub ConnKey : Type 0
ConnKey = ℕ × (Text × (Text × Text))

abbrev pub Snapshot : Type 0
Snapshot = Map ConnKey Socket

-- What the system says: the name and the path of a process that opens, the hash of a file, the
-- reputation of an address, and the texts of the current language.
pub record World (r : Reals) : Type 1 where
  pub net : Net
  pub opens : ℕ → Bool
  pub proc_name : ℕ → Option Text
  pub proc_exe : ℕ → Option Text
  pub file_hash : Text → Text
  pub enrich_ip : Text → Enrichment
  pub message : Text → Text

module _ (r : Reals) where
  pub record Event : Type 0 where
    pub kind : Text
    pub pid : ℕ
    pub process : Text
    pub exe : Text
    pub local : Text
    pub remote : Text
    pub new_process : Bool
    pub anomaly : Bool
    pub beacon : r.F
    pub changed : Bool
    pub detail : Text

  pub data Action : Type 0 where
    publish : Event → Action
    notify : Text → Text → Text → Action  -- title, message and throttle key

  abbrev pub or_text : Text → Option Text → Text
  or_text other none = other
  or_text other (some t) = t

  abbrev pub addr_text : Text → ℕ → Text
  addr_text ip port = ip ++ (b':' ∷ itoa port)

  abbrev pub endpoint : Text → ℕ → Text
  endpoint ip port = if ip =? [] then [] else addr_text ip port

  unfoldable pub describe : World r → Socket → Event
  describe w c =
      let open_proc = ltb 0 c.pid && w.opens c.pid in
      record {
        kind = [];
        pid = c.pid;
        process = if open_proc then or_text (codes "N/A") (w.proc_name c.pid) else codes "N/A";
        exe = if open_proc then or_text [] (w.proc_exe c.pid) else [];
        local = endpoint c.laddr_ip c.laddr_port;
        remote = endpoint c.raddr_ip c.raddr_port;
        new_process = false;
        anomaly = false;
        beacon = zero_f r;
        changed = false;
        detail = [];
      }

  abbrev pub reason_if : Bool → Text → List Text
  reason_if b t = if b then t ∷ [] else []

  -- The reasons of alertOnIntel.
  pub intel_reasons : Enrichment → List Text
  intel_reasons e =
      let abuse = hits e.abuse_score in
      reason_if e.c2 (codes "C2 Feodo")
      ++ (reason_if e.tor (codes "Tor exit")
          ++ (reason_if (ltb 0 (hits e.vt_malicious)) (codes "VT-IP " ++ itoa (hits e.vt_malicious))
              ++ reason_if (leb 50 abuse && (e.provider =? []))
                  (codes "AbuseIPDB " ++ (itoa abuse ++ codes "%"))))

  -- The right arrow with its spaces, in UTF-8.
  abbrev pub arrow : Text
  arrow = 32 ∷ 226 ∷ 134 ∷ 146 ∷ 32 ∷ []

  pub alert_on_intel : World r → Event → Text → List Action
  alert_on_intel w ev ip =
      let reasons = intel_reasons (w.enrich_ip ip) in
      let detail = join (codes ", ") reasons in
      if not (ltb 0 (length reasons))
      then []
      else publish (record {
        kind = codes "alert";
        pid = ev.pid;
        process = ev.process;
        exe = ev.exe;
        local = [];
        remote = ev.remote;
        new_process = false;
        anomaly = false;
        beacon = zero_f r;
        changed = false;
        detail = detail;
      })
        ∷ notify (w.message (codes "notif_intel"))
            (ev.process ++ (arrow ++ (ip ++ (codes " (" ++ (detail ++ codes ")")))))
            (codes "intel:" ++ (ev.exe ++ ip))
        ∷ []

  -- remoteIP != "" && !isPrivateIP(remoteIP)
  abbrev pub is_public : World r → Text → Bool
  is_public w ip = not (ip =? []) && not (is_private_ip w.net ip)

  abbrev pub first_kind : World r → Text → Text → Text
  first_kind w exe ip =
      if is_suspicious_path exe
      then codes "alert"
      else if is_public w ip
      then codes "remote"
      else codes "new"

  -- The baseline's verdict on the event.
  pub mark_baseline : World r → Verdict → Event → Event
  mark_baseline w v ev =
      if v.seen
      then ev
      else if v.changed
      then record ev {
        anomaly = true;
        changed = true;
        kind = codes "alert";
        detail = w.message (codes "ev_binchanged");
      }
      else record ev { anomaly = true }

  pub mark_beacon : Text → r.F → Event → Event
  mark_beacon ip period ev =
      if r.lt (zero_f r) period
      then record ev {
        beacon = r.div (r.round (r.mul period (number r 10))) (number r 10);
        kind = codes "alert";
        detail = codes "beaconing ~" ++ (r.fixed_0 period ++ (codes "s" ++ (arrow ++ ip)));
      }
      else ev

  abbrev pub with_pid : Text → ℕ → Text
  with_pid name pid = name ++ (codes " (" ++ (itoa pid ++ codes ")"))

  -- The notification of an event that is not muted.
  pub notification : World r → Event → Text → List Action
  notification w ev ip =
      if r.lt (zero_f r) ev.beacon
      then notify (w.message (codes "notif_c2"))
          (ev.process
            ++ (arrow
                ++ (ip
                    ++ (codes " "
                        ++ (w.message (codes "notif_every")
                            ++ (codes " ~" ++ (r.fixed_0 ev.beacon ++ codes "s")))))))
          (codes "beacon:" ++ (ev.exe ++ ip))
        ∷ []
      else if ev.changed
      then notify (w.message (codes "notif_binchanged"))
          (with_pid ev.process ev.pid ++ (32 ∷ 226 ∷ 128 ∷ 148 ∷ 32 ∷ ev.exe))
          (codes "changed:" ++ ev.exe)
        ∷ []
      else if ev.kind =? codes "alert"
      then notify (w.message (codes "notif_susp"))
          (with_pid ev.process ev.pid ++ (arrow ++ ev.remote)) (codes "susp:" ++ ev.exe)
        ∷ []
      else if ev.anomaly
      then notify (w.message (codes "notif_newbin")) (with_pid ev.process ev.pid)
          (codes "anom:" ++ ev.exe)
        ∷ []
      else []

  -- The state that a new connection changes.
  pub record Watch : Type 0 where
    pub baseline : Baseline
    pub beacons : Map Text (List r.F)

  abbrev pub judge_exe : World r → Text → ℕ → Baseline → Baseline × Verdict
  judge_exe w exe now b =
      if exe =? []
      then (b, record { seen = true; changed = false })
      else baseline_seen exe (w.file_hash exe) now b

  abbrev pub judge_beacon :
      World r → Text → Text → r.F → Map Text (List r.F) → Map Text (List r.F) × r.F
  judge_beacon w exe ip now track =
      if is_public w ip then check_beacon r exe ip now track else (track, zero_f r)

  abbrev pub is_muted : Map Text Bool → Text → Bool
  is_muted wl exe = elim (lookup exe wl) [ none ↦ false | some b ↦ b ]

  -- What the body of the loop makes of a connection that the last snapshot did not have: the event,
  -- the baseline and the beacons. `secs` and `now` are the time for the beacons and the baseline,
  -- `known` the process ids seen in the last hour.
  abbrev pub first_event : World r → Map ℕ ℕ → Socket → Event
  first_event w known c =
      let base = describe w c in
      let unknown = elim (lookup c.pid known) as (λ x. Bool) [ none ↦ true | some t ↦ false ] in
      record base { kind = first_kind w base.exe c.raddr_ip; new_process = ltb 0 c.pid && unknown }

  pub event_of : World r → Map ℕ ℕ → r.F → ℕ → Socket → Watch → Event
  event_of w known secs now c s =
      let exe = (describe w c).exe in
      let ip = c.raddr_ip in
      let verdict = (judge_exe w exe now s.baseline).1 in
      let period = (judge_beacon w exe ip secs s.beacons).1 in
      mark_beacon ip period (mark_baseline w verdict (first_event w known c))

  -- The body of the loop; the background check of the address runs at its end here.
  pub new_connection :
      World r → Map Text Bool → Map ℕ ℕ → r.F → ℕ → Socket → Watch → Watch × List Action
  new_connection w wl known secs now c s =
      let exe = (describe w c).exe in
      let ip = c.raddr_ip in
      let muted = is_muted wl exe in
      let ev = event_of w known secs now c s in
      let alerts = if is_public w ip && not muted then alert_on_intel w ev ip else [] in
      let note = if muted then [] else notification w ev ip in
      (
        record {
          baseline = (judge_exe w exe now s.baseline).0;
          beacons = (judge_beacon w exe ip secs s.beacons).0;
        },
        publish ev ∷ note ++ alerts,
      )

  abbrev pub is_key : ConnKey → Snapshot → Bool
  is_key k snap = elim (lookup k snap) as (λ x. Bool) [ none ↦ false | some c ↦ true ]

  -- The loop over the new snapshot.
  pub new_connections :
      World r
      → Map Text Bool
      → Map ℕ ℕ
      → r.F
      → ℕ
      → Snapshot
      → Snapshot
      → Watch
      → Watch × List Action
  new_connections w wl known secs now prev [] s = (s, [])
  new_connections w wl known secs now prev ((k, c) ∷ snap) s =
      let (s1, actions) =
        if is_key k prev then (s, []) else new_connection w wl known secs now c s in
      let (s2, rest) = new_connections w wl known secs now prev snap s1 in (s2, actions ++ rest)

  -- The loop over the old one.
  pub closed_connections : World r → Snapshot → Snapshot → List Action
  closed_connections w snap [] = []
  closed_connections w snap ((k, c) ∷ prev) =
      let rest = closed_connections w snap prev in
      if is_key k snap
      then rest
      else publish (record (describe w c) { kind = codes "closed" }) ∷ rest

  abbrev pub known_pid_ttl : ℕ
  known_pid_ttl = 3600000000000

  pub see_pids : ℕ → Snapshot → Map ℕ ℕ → Map ℕ ℕ
  see_pids now [] known = known
  see_pids now ((k, c) ∷ snap) known = see_pids now snap (insert c.pid now known)

  pub prune_pids : ℕ → Map ℕ ℕ → Map ℕ ℕ
  prune_pids now known = keep (λ pid at. not (ltb (at + known_pid_ttl) now)) known

  -- The variables of the loop.
  pub record Loop : Type 0 where
    pub prev : Snapshot
    pub known : Map ℕ ℕ
    pub watch : Watch

  -- A pass; none is an enumeration that failed. `now2` is the time at its end.
  pub cycle : World r → Map Text Bool → r.F → ℕ → ℕ → Option Snapshot → Loop → Loop × List Action
  cycle w wl secs now now2 none s = (s, [])
  cycle w wl secs now now2 (some snap) s =
      let (watch, actions) = new_connections w wl s.known secs now s.prev snap s.watch in
      (
        record { prev = snap; known = prune_pids now2 (see_pids now2 snap s.known); watch = watch },
        actions ++ closed_connections w snap s.prev,
      )
