-- ===== src/Store.antt =====
-- store.go, the tables of db.go behind it, and the two settings of config.go that it depends on: the
-- whitelists and the blocked addresses, which live in memory and, where a setting says so, in the
-- database. Times are texts, as the code prints them, and `now` is the one of the call.
pub mod Table
pub mod Restart
use efe_process_monitor.Common.{Bool, true, false, [], ◌∷◌, List, map, if◌then◌else◌}
use efe_process_monitor.Common.Texts.{Text}
use efe_process_monitor.Common.Maps.{Map}
use efe_process_monitor.Store.Table.{Kept, load, flush, add, remove}

pub record Blocked : Type 0 where
  pub ip : Text
  pub at : Text
  pub report : Text

pub record Store : Type 0 where
  pub whitelist : Kept Text
  pub ip_whitelist : Kept Text
  pub blocked : Kept Blocked
  pub persist_whitelist : Bool
  pub persist_blocks : Bool

-- A whitelist's row is written under the key of the pair, a block's under the address in the record.
abbrev pub by_key : Text → Text → Text
by_key k added = k

abbrev pub by_ip : Text → Blocked → Text
by_ip k b = b.ip

unfoldable pub load_state : Store → Store
load_state s = record s {
  whitelist = load by_key s.whitelist;
  ip_whitelist = load by_key s.ip_whitelist;
  blocked = load by_ip s.blocked;
}

unfoldable pub flush_whitelist : Store → Store
flush_whitelist s = record s {
  whitelist = flush by_key s.whitelist;
  ip_whitelist = flush by_key s.ip_whitelist;
}

unfoldable pub flush_blocks : Store → Store
flush_blocks s = record s { blocked = flush by_ip s.blocked }

unfoldable pub add_whitelist : Text → Text → Store → Store
add_whitelist now exe s = record s { whitelist = add s.persist_whitelist exe now s.whitelist }

unfoldable pub remove_whitelist : Text → Store → Store
remove_whitelist exe s = record s { whitelist = remove exe s.whitelist }

unfoldable pub add_ip_whitelist : Text → Text → Store → Store
add_ip_whitelist now ip s = record s {
  ip_whitelist = add s.persist_whitelist ip now s.ip_whitelist;
}

unfoldable pub remove_ip_whitelist : Text → Store → Store
remove_ip_whitelist ip s = record s { ip_whitelist = remove ip s.ip_whitelist }

unfoldable pub save_blocked : Text → Text → Text → Store → Store
save_blocked now ip report s =
    let b : Blocked = record { ip = ip; at = now; report = report } in
    record s { blocked = add s.persist_blocks ip b s.blocked }

unfoldable pub delete_blocked : Text → Store → Store
delete_blocked ip s = record s { blocked = remove ip s.blocked }

-- A setting that is switched on writes what the session holds.
unfoldable pub set_persist_whitelist : Bool → Store → Store
set_persist_whitelist b s =
    let t = record s { persist_whitelist = b } in if b then flush_whitelist t else t

unfoldable pub set_persist_blocks : Bool → Store → Store
set_persist_blocks b s = let t = record s { persist_blocks = b } in if b then flush_blocks t else t

-- whitelist and ipWhitelist: the keys, as a set.
pub whitelist_set : Map Text Text → Map Text Bool
whitelist_set [] = []
whitelist_set ((k, added) ∷ m) = (k, true) ∷ whitelist_set m

-- A sort by a test of two elements, as sort.Slice does it.
module _ (sort : (A : Type 0) → (A → A → Bool) → List A → List A) (after : Text → Text → Bool) where
  pub list_whitelist : Store → List (Text × Text)
  list_whitelist s = sort (Text × Text) (λ a b. after a.1 b.1) s.whitelist.m

  pub list_ip_whitelist : Store → List (Text × Text)
  list_ip_whitelist s = sort (Text × Text) (λ a b. after a.1 b.1) s.ip_whitelist.m

  pub list_blocked : Store → List Blocked
  list_blocked s = sort Blocked (λ a b. after a.at b.at) (map (λ p. p.1) s.blocked.m)
