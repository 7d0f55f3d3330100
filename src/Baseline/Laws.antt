-- ===== src/Baseline/Laws.antt =====
-- What baselineSeen reports and records.
use efe_process_monitor.Common.{
  ℕ, not, ◌&&◌, true, false, none, some, [], list_eq, nat_eq, pair_eq, ◌≡◌, ◌≢◌, ◌↔◌, ◌⊎◌, arith,
  list_beq_iff,
}
use efe_process_monitor.Common.Texts.{Text}
use efe_process_monitor.Common.Maps.{lookup, insert, lookup-insert}
use efe_process_monitor.Baseline.{
  Baseline, verdict, is_no_path, has_path, unread, content_key, record_baseline, judge,
  baseline_seen,
}

-- Whatever is reported, the binary is on record afterwards, or its path is known and its content
-- could not be read; so a second call with the same content reports it as seen and unchanged.
pub baseline_seen-seen :
    (exe hash : Text) (now later : ℕ) (b : Baseline)
    → (baseline_seen exe hash later (baseline_seen exe hash now b).0).1 ≡ verdict true false
unfolding baseline_seen judge record_baseline
baseline_seen-seen exe hash now later b = ground (
  arith,
  lookup-insert (exe, content_key hash) (exe, content_key hash) now b.hashes,
  list_beq_iff exe exe,
  list_beq_iff (content_key hash) (content_key hash),
)

-- A path, not one of the placeholders, is reported as changed exactly when it is on record, this
-- content is not, and the content could be read.
pub baseline_seen-changed :
    (exe hash : Text) (now : ℕ) (b : Baseline)
    → is_no_path exe ≡ false
    → ((baseline_seen exe hash now b).1.changed ≡ true) ↔ (
        (has_path exe b.hashes ≡ true)
        × (lookup (exe, content_key hash) b.hashes ≡ none)
        × (content_key hash ≢ unread))
unfolding baseline_seen judge
baseline_seen-changed exe hash now b p = ground (arith, list_beq_iff (content_key hash) unread)

-- The path is on record with other contents only, and its content can be read now.
pub record IsReplaced (exe hash : Text) (b : Baseline) : Type 0 where
  pub named : is_no_path exe ≡ false
  pub on_record : has_path exe b.hashes ≡ true
  pub is_new : lookup (exe, hash) b.hashes ≡ none
  pub readable : hash ≢ []
  pub no_mark : hash ≢ unread

-- A file is reported as changed, and not as seen, exactly when it was replaced.
pub baseline_seen-IsReplaced :
    (exe hash : Text) (now : ℕ) (b : Baseline)
    → let v = (baseline_seen exe hash now b).1 in
      ((v.changed && not v.seen) ≡ true) ↔ IsReplaced exe hash b
unfolding baseline_seen judge
baseline_seen-IsReplaced exe hash now b =
    ground (
      arith,
      list_beq_iff hash [],
      list_beq_iff hash unread,
      list_beq_iff (content_key hash) unread,
    )

-- What the call records is the pair at hand; every other pair is as it was.
pub baseline_seen-frame :
    (exe hash : Text) (now : ℕ) (b : Baseline) (path key : Text)
    → let j : Text × Text = (path, key) in
      (lookup j (baseline_seen exe hash now b).0.hashes ≡ lookup j b.hashes)
      ⊎ ((j ≡ (exe, content_key hash))
          × (lookup j b.hashes ≡ none)
          × (lookup j (baseline_seen exe hash now b).0.hashes ≡ some now))
unfolding baseline_seen judge record_baseline
baseline_seen-frame exe hash now b path key = ground (
  arith,
  lookup-insert (path, key) (exe, content_key hash) now b.hashes,
  list_beq_iff exe path,
  list_beq_iff (content_key hash) key,
)

-- A binary seen for the first time while its content cannot be read is filed under "?". The first
-- call that reads its content then reports that the file was replaced, whatever the content is.
pub baseline_seen-false_change :
    (exe hash : Text) (now later : ℕ) (b : Baseline)
    → is_no_path exe ≡ false
    → hash ≢ []
    → hash ≢ unread
    → has_path exe b.hashes ≡ false
    → lookup (exe, unread) b.hashes ≡ none
    → lookup (exe, hash) b.hashes ≡ none
    → (baseline_seen exe hash later (baseline_seen exe [] now b).0).1 ≡ verdict false true
unfolding baseline_seen judge record_baseline insert
baseline_seen-false_change exe hash now later b p ne nu fresh a c = ground (
  arith,
  lookup-insert (exe, hash) (exe, unread) now b.hashes,
  list_beq_iff hash [],
  list_beq_iff hash unread,
  list_beq_iff unread hash,
  list_beq_iff exe exe,
)
