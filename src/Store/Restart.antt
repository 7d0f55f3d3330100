-- ===== src/Store/Restart.antt =====
-- Sequences of the operator's actions and of restarts of the program.
pub mod Removed
use efe_process_monitor.Common.{
  ◌≡◌, refl, ◌∙◌, Bool, true, false, not, Option, none, some, [], ◌∷◌, List, list_eq, nat_eq, arith,
  inl, inr, if◌then◌else◌, Bool-cases,
}
use efe_process_monitor.Common.Texts.{Text}
use efe_process_monitor.Common.Maps.{Map, lookup}
use efe_process_monitor.Store.Table.{Kept, load, flush, add, remove}
use efe_process_monitor.Store.Table.Agreement.{
  Agrees, add-Agrees, remove-Agrees, load-Agrees, flush-Agrees, weaken-Agrees, lookup-load,
}
use efe_process_monitor.Store.{
  Store, Blocked, by_key, by_ip, load_state, flush_whitelist, flush_blocks, add_whitelist,
  remove_whitelist, add_ip_whitelist, remove_ip_whitelist, save_blocked, delete_blocked,
  set_persist_whitelist, set_persist_blocks,
}

pub data Action : Type 0 where
  trust : Text → Text → Action
  distrust : Text → Action
  trust_ip : Text → Text → Action
  distrust_ip : Text → Action
  block : Text → Text → Text → Action
  unblock : Text → Action
  keep_whitelist : Bool → Action
  keep_blocks : Bool → Action
  restart : Action

unfoldable pub perform : Action → Store → Store
unfolding add_whitelist remove_whitelist add_ip_whitelist remove_ip_whitelist save_blocked
    delete_blocked set_persist_whitelist set_persist_blocks load_state flush_whitelist flush_blocks
perform (trust now exe) s = add_whitelist now exe s
perform (distrust exe) s = remove_whitelist exe s
perform (trust_ip now ip) s = add_ip_whitelist now ip s
perform (distrust_ip ip) s = remove_ip_whitelist ip s
perform (block now ip report) s = save_blocked now ip report s
perform (unblock ip) s = delete_blocked ip s
perform (keep_whitelist b) s = set_persist_whitelist b s
perform (keep_blocks b) s = set_persist_blocks b s
perform restart s = load_state s

unfoldable pub perform_all : List Action → Store → Store
perform_all [] s = s
perform_all (a ∷ actions) s = perform_all actions (perform a s)

-- Each map and its table agree as its setting asks.
pub record IsConsistent (s : Store) : Type 0 where
  pub whitelist : Agrees by_key s.persist_whitelist s.whitelist
  pub ip_whitelist : Agrees by_key s.persist_whitelist s.ip_whitelist
  pub blocked : Agrees by_ip s.persist_blocks s.blocked

pub perform-IsConsistent : (a : Action) (s : Store) → IsConsistent s → IsConsistent (perform a s)
unfolding perform
perform-IsConsistent (trust now exe) s h = record {
  whitelist = add-Agrees by_key s.persist_whitelist exe now s.whitelist refl h.whitelist;
  ip_whitelist = h.ip_whitelist;
  blocked = h.blocked;
}
perform-IsConsistent (distrust exe) s h = record {
  whitelist = remove-Agrees by_key s.persist_whitelist exe s.whitelist h.whitelist;
  ip_whitelist = h.ip_whitelist;
  blocked = h.blocked;
}
perform-IsConsistent (trust_ip now ip) s h = record {
  whitelist = h.whitelist;
  ip_whitelist = add-Agrees by_key s.persist_whitelist ip now s.ip_whitelist refl h.ip_whitelist;
  blocked = h.blocked;
}
perform-IsConsistent (distrust_ip ip) s h = record {
  whitelist = h.whitelist;
  ip_whitelist = remove-Agrees by_key s.persist_whitelist ip s.ip_whitelist h.ip_whitelist;
  blocked = h.blocked;
}
perform-IsConsistent (block now ip report) s h = record {
  whitelist = h.whitelist;
  ip_whitelist = h.ip_whitelist;
  blocked =
      add-Agrees by_ip s.persist_blocks ip (record { ip = ip; at = now; report = report }) s.blocked
        refl h.blocked;
}
perform-IsConsistent (unblock ip) s h = record {
  whitelist = h.whitelist;
  ip_whitelist = h.ip_whitelist;
  blocked = remove-Agrees by_ip s.persist_blocks ip s.blocked h.blocked;
}
perform-IsConsistent (keep_whitelist true) s h = record {
  whitelist = flush-Agrees by_key s.persist_whitelist s.whitelist h.whitelist;
  ip_whitelist = flush-Agrees by_key s.persist_whitelist s.ip_whitelist h.ip_whitelist;
  blocked = h.blocked;
}
perform-IsConsistent (keep_whitelist false) s h = record {
  whitelist = weaken-Agrees by_key s.persist_whitelist s.whitelist h.whitelist;
  ip_whitelist = weaken-Agrees by_key s.persist_whitelist s.ip_whitelist h.ip_whitelist;
  blocked = h.blocked;
}
perform-IsConsistent (keep_blocks true) s h = record {
  whitelist = h.whitelist;
  ip_whitelist = h.ip_whitelist;
  blocked = flush-Agrees by_ip s.persist_blocks s.blocked h.blocked;
}
perform-IsConsistent (keep_blocks false) s h = record {
  whitelist = h.whitelist;
  ip_whitelist = h.ip_whitelist;
  blocked = weaken-Agrees by_ip s.persist_blocks s.blocked h.blocked;
}
perform-IsConsistent restart s h = record {
  whitelist = load-Agrees by_key s.persist_whitelist s.whitelist h.whitelist.named_db;
  ip_whitelist = load-Agrees by_key s.persist_whitelist s.ip_whitelist h.ip_whitelist.named_db;
  blocked = load-Agrees by_ip s.persist_blocks s.blocked h.blocked.named_db;
}

pub perform_all-IsConsistent :
    (actions : List Action) (s : Store) → IsConsistent s → IsConsistent (perform_all actions s)
unfolding perform_all
perform_all-IsConsistent [] s h = h
perform_all-IsConsistent (a ∷ actions) s h =
    perform_all-IsConsistent actions (perform a s) (perform-IsConsistent a s h)

-- The first start, on an empty database.
abbrev pub fresh : Bool → Bool → Store
fresh w b = record {
  whitelist = record { m = []; db = [] };
  ip_whitelist = record { m = []; db = [] };
  blocked = record { m = []; db = [] };
  persist_whitelist = w;
  persist_blocks = b;
}

pub fresh-IsConsistent : (w b : Bool) → IsConsistent (fresh w b)
unfolding lookup
fresh-IsConsistent w b = record {
  whitelist = record { covered = λ k h. refl; same = λ p k. refl; named_m = tt; named_db = tt };
  ip_whitelist = record { covered = λ k h. refl; same = λ p k. refl; named_m = tt; named_db = tt };
  blocked = record { covered = λ k h. refl; same = λ p k. refl; named_m = tt; named_db = tt };
}

-- The three maps answer alike in two states.
abbrev pub Same : Store → Store → Type 0
Same s t =
    ((k : Text) → lookup k s.whitelist.m ≡ lookup k t.whitelist.m)
    × ((k : Text) → lookup k s.ip_whitelist.m ≡ lookup k t.ip_whitelist.m)
    × ((k : Text) → lookup k s.blocked.m ≡ lookup k t.blocked.m)

-- From an empty start, whatever the operator did and however often the program was restarted: where
-- both settings are on at the end, one more restart changes none of the three maps.
pub restart-Same :
    (w b : Bool) (actions : List Action)
    → (perform_all actions (fresh w b)).persist_whitelist ≡ true
    → (perform_all actions (fresh w b)).persist_blocks ≡ true
    → Same (perform restart (perform_all actions (fresh w b))) (perform_all actions (fresh w b))
unfolding perform
restart-Same w b actions p q =
    let s = perform_all actions (fresh w b) in
    let h = perform_all-IsConsistent actions (fresh w b) (fresh-IsConsistent w b) in
    (
      λ k. lookup-load by_key s.whitelist k h.whitelist.named_db ∙ h.whitelist.same p k,
      λ k. lookup-load by_key s.ip_whitelist k h.ip_whitelist.named_db ∙ h.ip_whitelist.same p k,
      λ k. lookup-load by_ip s.blocked k h.blocked.named_db ∙ h.blocked.same q k,
    )
