-- ===== src/Monitor/Cycle/Actions.antt =====
-- What a pass of the monitor publishes and notifies.
use efe_process_monitor.Common.{
  ℕ, ◌≡◌, refl, Bool, true, false, ◌&&◌, ◌||◌, some, [], ◌∷◌, List, list_eq, nat_eq, pair_eq, ltb,
  leb, ◌=?◌, arith, all, ◌↔◌,
}
use efe_process_monitor.Common.Maps.{Map}
use efe_process_monitor.Common.Texts.{Text}
use efe_process_monitor.Baseline.{Verdict}
use efe_process_monitor.Score.Conn.{Enrichment}
use efe_process_monitor.Score.Threat.{hits}
use efe_process_monitor.Monitor.Beacon.{Reals}
use efe_process_monitor.Monitor.Cycle.{
  Socket, Snapshot, World, Event, Action, describe, is_muted, is_key, is_public, judge_exe,
  judge_beacon, mark_baseline, mark_beacon, first_event, event_of, new_connection, new_connections,
  closed_connections, Watch, Loop, cycle, intel_reasons,
}

abbrev pub is_empty {ℓ} : {A : Type ℓ} → List A → Bool
is_empty [] = true
is_empty (a ∷ l) = false

and_false : (b : Bool) → (b && false) ≡ false
and_false true = refl
and_false false = refl

module _ (r : Reals) (w : World r) where
  mark_keeps :
      (ip : Text) (period : r.F) (v : Verdict) (ev : Event r)
      → ((mark_beacon r ip period (mark_baseline r w v ev)).pid ≡ ev.pid)
        × ((mark_beacon r ip period (mark_baseline r w v ev)).exe ≡ ev.exe)
        × ((mark_beacon r ip period (mark_baseline r w v ev)).remote ≡ ev.remote)
  unfolding mark_beacon mark_baseline
  mark_keeps ip period v ev = ground arith

  module _ (known : Map ℕ ℕ) (secs : r.F) (now : ℕ) (c : Socket) (s : Watch r) where
    event_of-keeps :
        ((event_of r w known secs now c s).pid ≡ c.pid)
        × ((event_of r w known secs now c s).exe ≡ (describe r w c).exe)
        × ((event_of r w known secs now c s).remote ≡ (describe r w c).remote)
    unfolding event_of describe
    event_of-keeps =
        mark_keeps c.raddr_ip (judge_beacon r w (describe r w c).exe c.raddr_ip secs s.beacons).1
          (judge_exe r w (describe r w c).exe now s.baseline).1 (first_event r w known c)

  -- A program on the whitelist raises no notification and no background check: all that comes of
  -- its new connection is one event with the process, the program and the remote address.
  pub new_connection_muted :
      (wl : Map Text Bool) (known : Map ℕ ℕ) (secs : r.F) (now : ℕ) (c : Socket) (s : Watch r)
      → is_muted r wl (describe r w c).exe ≡ true
      → (ev : Event r) × ((new_connection r w wl known secs now c s).1 ≡ Action.publish ev ∷ [])
        × (ev.pid ≡ c.pid)
        × (ev.exe ≡ (describe r w c).exe)
        × (ev.remote ≡ (describe r w c).remote)
  unfolding new_connection
  new_connection_muted wl known secs now c s h =
      let (p, q, o) = event_of-keeps known secs now c s in
      (event_of r w known secs now c s, simp (h, and_false (is_public r w c.raddr_ip)), p, q, o)

  new_connections_known :
      (wl : Map Text Bool) (known : Map ℕ ℕ) (secs : r.F) (now : ℕ) (prev snap : Snapshot)
      (s : Watch r)
      → all (λ p. is_key r p.0 prev) snap ≡ true
      → new_connections r w wl known secs now prev snap s ≡ (s, [])
  unfolding new_connections
  new_connections_known wl known secs now prev [] s h = refl
  new_connections_known wl known secs now prev ((k, c) ∷ snap) s h =
      let here : is_key r k prev ≡ true = ground arith in
      let later : all (λ p. is_key r p.0 prev) snap ≡ true = ground arith in
      simp (here, new_connections_known wl known secs now prev snap s later)

  closed_connections_known :
      (snap prev : Snapshot)
      → all (λ p. is_key r p.0 snap) prev ≡ true
      → closed_connections r w snap prev ≡ []
  unfolding closed_connections
  closed_connections_known snap [] h = refl
  closed_connections_known snap ((k, c) ∷ prev) h =
      ground (arith, closed_connections_known snap prev)

  -- A pass over a snapshot with the connections of the last one does nothing but note the time:
  -- no event, no notification, and the baseline and the beacons stay as they were.
  pub cycle_same :
      (wl : Map Text Bool) (secs : r.F) (now now2 : ℕ) (snap : Snapshot) (s : Loop r)
      → all (λ p. is_key r p.0 s.prev) snap ≡ true
      → all (λ p. is_key r p.0 snap) s.prev ≡ true
      → ((cycle r w wl secs now now2 (some snap) s).1 ≡ [])
        × ((cycle r w wl secs now now2 (some snap) s).0.watch ≡ s.watch)
  unfolding cycle
  cycle_same wl secs now now2 snap s h k =
      let quiet = new_connections_known wl s.known secs now s.prev snap s.watch h in
      (simp (quiet, closed_connections_known snap s.prev k), simp (quiet))

  -- An address raises an alert exactly when it is a control server, a Tor exit, an address with
  -- detections, or one with an abuse score of 50 that belongs to no known provider.
  pub intel_reasons-nil :
      (e : Enrichment)
      → (intel_reasons r e ≡ []) ↔ (
          ((e.c2 || e.tor || ltb 0 (hits e.vt_malicious))
            || (leb 50 (hits e.abuse_score) && (e.provider =? [])))
          ≡ false)
  unfolding intel_reasons
  intel_reasons-nil e = ground arith
