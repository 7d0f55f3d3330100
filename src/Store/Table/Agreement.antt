-- ===== src/Store/Table/Agreement.antt =====
-- What a map and its table have to do with one another, and that every operation keeps it.
use efe_process_monitor.Common.{
  ◌≡◌, ◌≢◌, refl, Bool, true, false, Option, none, some, [], ◌∷◌, list_eq, nat_eq, list_beq_iff,
  arith, ◌∙◌, sym,
}
use efe_process_monitor.Common.Texts.{Text}
use efe_process_monitor.Common.Maps.{Map, lookup, insert, delete, lookup-insert, lookup-delete}
use efe_process_monitor.Store.Table.{Kept, write_all, load, flush, add, remove}

-- The first of two answers, if there is one.
abbrev pub or_else : {V : Type 0} → Option V → Option V → Option V
or_else none o = o
or_else (some v) o = some v

module _ {V : Type 0} (name : Text → V → Text) where
  -- Every pair stands under its own name.
  abbrev pub Listed : Map Text V → Type 0
  Listed [] = Unit
  Listed ((k, v) ∷ m) = (name k v ≡ k) × Listed m

  -- What is in the table is in the map, and where the setting is on they hold the same.
  pub record Agrees (persist : Bool) (t : Kept V) : Type 0 where
    pub covered : (k : Text) → lookup k t.m ≡ none → lookup k t.db ≡ none
    pub same : persist ≡ true → (k : Text) → lookup k t.db ≡ lookup k t.m
    pub named_m : Listed t.m
    pub named_db : Listed t.db

  lookup-write_all :
      (rows acc : Map Text V) (k : Text)
      → Listed rows
      → lookup k (write_all name rows acc) ≡ or_else (lookup k rows) (lookup k acc)
  unfolding write_all lookup
  lookup-write_all [] acc k h = refl
  lookup-write_all ((j, v) ∷ rows) acc k h = rw h.0 (
      ground
        (arith, lookup-insert k j v (write_all name rows acc), lookup-write_all rows acc k h.1))

  Listed-delete : (k : Text) (m : Map Text V) → Listed m → Listed (delete k m)
  unfolding delete
  Listed-delete k [] h = tt
  Listed-delete k ((j, v) ∷ m) h = ground (arith, Listed-delete k m h.1)

  Listed-insert :
      (k : Text) (v : V) (m : Map Text V) → name k v ≡ k → Listed m → Listed (insert k v m)
  unfolding insert
  Listed-insert k v m e h = (e, Listed-delete k m h)

  Listed-write_all :
      (rows acc : Map Text V) → Listed rows → Listed acc → Listed (write_all name rows acc)
  unfolding write_all
  Listed-write_all [] acc h g = g
  Listed-write_all ((k, v) ∷ rows) acc h g =
      rw h.0 (Listed-insert k v (write_all name rows acc) h.0 (Listed-write_all rows acc h.1 g))

  pub add-Agrees :
      (persist : Bool) (k : Text) (v : V) (t : Kept V)
      → name k v ≡ k
      → Agrees persist t
      → Agrees persist (add persist k v t)
  unfolding add
  add-Agrees true k v t e a = record {
    covered = λ j h. ground (arith, lookup-insert j k v t.m, lookup-insert j k v t.db, a.covered j);
    same = λ p j. ground (arith, lookup-insert j k v t.m, lookup-insert j k v t.db, a.same p j);
    named_m = Listed-insert k v t.m e a.named_m;
    named_db = Listed-insert k v t.db e a.named_db;
  }
  add-Agrees false k v t e a = record {
    covered = λ j h. ground (arith, lookup-insert j k v t.m, a.covered j);
    same = λ p j. cc;
    named_m = Listed-insert k v t.m e a.named_m;
    named_db = a.named_db;
  }

  pub remove-Agrees :
      (persist : Bool) (k : Text) (t : Kept V) → Agrees persist t → Agrees persist (remove k t)
  unfolding remove
  remove-Agrees persist k t a = record {
    covered = λ j h. ground (arith, lookup-delete j k t.m, lookup-delete j k t.db, a.covered j);
    same = λ p j. ground (arith, lookup-delete j k t.m, lookup-delete j k t.db, a.same p j);
    named_m = Listed-delete k t.m a.named_m;
    named_db = Listed-delete k t.db a.named_db;
  }

  -- What the process holds after a start is what the table held.
  pub lookup-load : (t : Kept V) (k : Text) → Listed t.db → lookup k (load name t).m ≡ lookup k t.db
  unfolding load lookup
  lookup-load t k h = ground (arith, lookup-write_all t.db [] k h)

  pub load-Agrees : (persist : Bool) (t : Kept V) → Listed t.db → Agrees persist (load name t)
  unfolding load
  load-Agrees persist t h = record {
    covered = λ k g. sym (lookup-load t k h) ∙ g;
    same = λ p k. sym (lookup-load t k h);
    named_m = Listed-write_all t.db [] h tt;
    named_db = h;
  }

  -- The setting may be switched on when the map is flushed at once.
  pub flush-Agrees : (persist : Bool) (t : Kept V) → Agrees persist t → Agrees true (flush name t)
  unfolding flush
  flush-Agrees persist t a = record {
    covered = λ k h. ground (arith, lookup-write_all t.m t.db k a.named_m, a.covered k);
    same = λ p k. ground (arith, lookup-write_all t.m t.db k a.named_m, a.covered k);
    named_m = a.named_m;
    named_db = Listed-write_all t.m t.db a.named_m a.named_db;
  }

  pub weaken-Agrees : (persist : Bool) (t : Kept V) → Agrees persist t → Agrees false t
  weaken-Agrees persist t a = record {
    covered = a.covered;
    same = λ p. cc;
    named_m = a.named_m;
    named_db = a.named_db;
  }

  -- The key is neither in the map nor in the table.
  abbrev pub Absent : Text → Kept V → Type 0
  Absent k t = (lookup k t.m ≡ none) × (lookup k t.db ≡ none)

  pub load-Absent : (k : Text) (t : Kept V) → Listed t.db → Absent k t → Absent k (load name t)
  unfolding load lookup
  load-Absent k t h (a, b) = (ground (arith, lookup-write_all t.db [] k h), b)

  pub flush-Absent : (k : Text) (t : Kept V) → Listed t.m → Absent k t → Absent k (flush name t)
  unfolding flush
  flush-Absent k t h (a, b) = (a, ground (arith, lookup-write_all t.m t.db k h))

module _ {V : Type 0} where
  pub add-Absent :
      (persist : Bool) (k j : Text) (v : V) (t : Kept V)
      → j ≢ k
      → (lookup k t.m ≡ none) × (lookup k t.db ≡ none)
      → (lookup k (add persist j v t).m ≡ none) × (lookup k (add persist j v t).db ≡ none)
  unfolding add
  add-Absent true k j v t n h =
      ground (arith, lookup-insert k j v t.m, lookup-insert k j v t.db, list_beq_iff j k)
  add-Absent false k j v t n h = ground (arith, lookup-insert k j v t.m, list_beq_iff j k)

  pub remove-Absent :
      (k j : Text) (t : Kept V)
      → (lookup k t.m ≡ none) × (lookup k t.db ≡ none)
      → (lookup k (remove j t).m ≡ none) × (lookup k (remove j t).db ≡ none)
  unfolding remove
  remove-Absent k j t h = ground (arith, lookup-delete k j t.m, lookup-delete k j t.db)

  pub remove-gone :
      (k : Text) (t : Kept V) → (lookup k (remove k t).m ≡ none) × (lookup k (remove k t).db ≡ none)
  unfolding remove
  remove-gone k t = ground (arith, lookup-delete k k t.m, lookup-delete k k t.db, list_beq_iff k k)
