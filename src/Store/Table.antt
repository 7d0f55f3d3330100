-- ===== src/Store/Table.antt =====
-- store.go: a map of the running process with the table that stands behind it, in the form that the
-- two whitelists and the blocked addresses share. `name k v` is the primary key under which the pair
-- of k and v is written.
pub mod Agreement
use efe_process_monitor.Common.{Bool, true, false, [], ◌∷◌, List, list_eq, nat_eq, if◌then◌else◌}
use efe_process_monitor.Common.Texts.{Text}
use efe_process_monitor.Common.Maps.{Map, insert, delete}

pub record Kept (V : Type 0) : Type 0 where
  pub m : Map Text V
  pub db : Map Text V

module _ {V : Type 0} (name : Text → V → Text) where
  -- The pairs of a map or the rows of a table, written into another one after the other. Go visits a
  -- map in any order: here the first pair is written last.
  pub write_all : Map Text V → Map Text V → Map Text V
  write_all [] acc = acc
  write_all ((k, v) ∷ rows) acc = insert (name k v) v (write_all rows acc)

  unfoldable pub load : Kept V → Kept V
  unfolding write_all
  load t = record t { m = write_all t.db [] }

  unfoldable pub flush : Kept V → Kept V
  unfolding write_all
  flush t = record t { db = write_all t.m t.db }

-- A change of the map, written through where the setting is on.
unfoldable pub add : {V : Type 0} → Bool → Text → V → Kept V → Kept V
add persist k v t =
    if persist
    then record t { m = insert k v t.m; db = insert k v t.db }
    else record t { m = insert k v t.m }

-- A removal is written through whatever the setting.
unfoldable pub remove : {V : Type 0} → Text → Kept V → Kept V
remove k t = record t { m = delete k t.m; db = delete k t.db }
