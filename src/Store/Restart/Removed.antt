-- ===== src/Store/Restart/Removed.antt =====
-- A removal is honoured until the key is added again, restarts and settings notwithstanding.
use efe_process_monitor.Common.{◌≢◌, Bool, true, false, [], ◌∷◌, List, All, list_eq, nat_eq}
use efe_process_monitor.Common.Texts.{Text}
use efe_process_monitor.Store.Table.Agreement.{
  Absent, load-Absent, flush-Absent, add-Absent, remove-Absent, remove-gone,
}
use efe_process_monitor.Store.{Store, by_key, by_ip}
use efe_process_monitor.Store.Restart.{
  Action, trust, distrust, trust_ip, distrust_ip, block, unblock, keep_whitelist, keep_blocks,
  restart, perform, perform_all, IsConsistent, perform-IsConsistent, fresh, fresh-IsConsistent,
  perform_all-IsConsistent,
}

-- Which of the three maps.
pub data Area : Type 0 where
  binaries : Area
  addresses : Area
  blocks : Area

abbrev pub remove_from : Area → Text → Action
remove_from binaries k = distrust k
remove_from addresses k = distrust_ip k
remove_from blocks k = unblock k

-- The action does not add the key to the map.
abbrev pub Spares : Area → Text → Action → Type 0
Spares binaries k (trust now exe) = exe ≢ k
Spares addresses k (trust_ip now ip) = ip ≢ k
Spares blocks k (block now ip report) = ip ≢ k
Spares area k a = Unit

-- Neither the process nor the database knows the key.
abbrev pub Gone : Area → Text → Store → Type 0
Gone binaries k s = Absent by_key k s.whitelist
Gone addresses k s = Absent by_key k s.ip_whitelist
Gone blocks k s = Absent by_ip k s.blocked

perform-Gone :
    (area : Area) (k : Text) (a : Action) (s : Store)
    → Spares area k a
    → IsConsistent s
    → Gone area k s
    → Gone area k (perform a s)
unfolding perform
perform-Gone binaries k (trust now exe) s n c h =
    add-Absent s.persist_whitelist k exe now s.whitelist n h
perform-Gone binaries k (distrust exe) s n c h = remove-Absent k exe s.whitelist h
perform-Gone binaries k (trust_ip now ip) s n c h = h
perform-Gone binaries k (distrust_ip ip) s n c h = h
perform-Gone binaries k (block now ip report) s n c h = h
perform-Gone binaries k (unblock ip) s n c h = h
perform-Gone binaries k (keep_whitelist true) s n c h =
    flush-Absent by_key k s.whitelist c.whitelist.named_m h
perform-Gone binaries k (keep_whitelist false) s n c h = h
perform-Gone binaries k (keep_blocks true) s n c h = h
perform-Gone binaries k (keep_blocks false) s n c h = h
perform-Gone binaries k restart s n c h = load-Absent by_key k s.whitelist c.whitelist.named_db h
perform-Gone addresses k (trust now exe) s n c h = h
perform-Gone addresses k (distrust exe) s n c h = h
perform-Gone addresses k (trust_ip now ip) s n c h =
    add-Absent s.persist_whitelist k ip now s.ip_whitelist n h
perform-Gone addresses k (distrust_ip ip) s n c h = remove-Absent k ip s.ip_whitelist h
perform-Gone addresses k (block now ip report) s n c h = h
perform-Gone addresses k (unblock ip) s n c h = h
perform-Gone addresses k (keep_whitelist true) s n c h =
    flush-Absent by_key k s.ip_whitelist c.ip_whitelist.named_m h
perform-Gone addresses k (keep_whitelist false) s n c h = h
perform-Gone addresses k (keep_blocks true) s n c h = h
perform-Gone addresses k (keep_blocks false) s n c h = h
perform-Gone addresses k restart s n c h =
    load-Absent by_key k s.ip_whitelist c.ip_whitelist.named_db h
perform-Gone blocks k (trust now exe) s n c h = h
perform-Gone blocks k (distrust exe) s n c h = h
perform-Gone blocks k (trust_ip now ip) s n c h = h
perform-Gone blocks k (distrust_ip ip) s n c h = h
perform-Gone blocks k (block now ip report) s n c h =
    add-Absent s.persist_blocks k ip (record { ip = ip; at = now; report = report }) s.blocked n h
perform-Gone blocks k (unblock ip) s n c h = remove-Absent k ip s.blocked h
perform-Gone blocks k (keep_whitelist true) s n c h = h
perform-Gone blocks k (keep_whitelist false) s n c h = h
perform-Gone blocks k (keep_blocks true) s n c h =
    flush-Absent by_ip k s.blocked c.blocked.named_m h
perform-Gone blocks k (keep_blocks false) s n c h = h
perform-Gone blocks k restart s n c h = load-Absent by_ip k s.blocked c.blocked.named_db h

perform_all-Gone :
    (area : Area) (k : Text) (actions : List Action) (s : Store)
    → All (Spares area k) actions
    → IsConsistent s
    → Gone area k s
    → Gone area k (perform_all actions s)
unfolding perform_all
perform_all-Gone area k [] s n c h = h
perform_all-Gone area k (a ∷ actions) s n c h =
    perform_all-Gone area k actions (perform a s) n.1 (perform-IsConsistent a s c)
      (perform-Gone area k a s n.0 c h)

remove_from-Gone :
    (area : Area) (k : Text) (s : Store) → Gone area k (perform (remove_from area k) s)
unfolding perform
remove_from-Gone binaries k s = remove-gone k s.whitelist
remove_from-Gone addresses k s = remove-gone k s.ip_whitelist
remove_from-Gone blocks k s = remove-gone k s.blocked

-- From an empty start, after any actions: once a key is removed from one of the three maps, neither
-- the process nor the database knows it after any further actions, restarts and changes of the
-- settings among them, none of which adds the key to that map.
pub perform_all-removed :
    (w b : Bool) (area : Area) (k : Text) (before after : List Action)
    → All (Spares area k) after
    → Gone area k
        (perform_all after (perform (remove_from area k) (perform_all before (fresh w b))))
perform_all-removed w b area k before after n =
    let s = perform_all before (fresh w b) in
    let c = perform_all-IsConsistent before (fresh w b) (fresh-IsConsistent w b) in
    perform_all-Gone area k after (perform (remove_from area k) s) n
      (perform-IsConsistent (remove_from area k) s c) (remove_from-Gone area k s)
