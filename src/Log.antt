-- ===== src/Log.antt =====
-- logging.go: rotatingWriter and tailLog. The files are those of the log's directory: 0 stands for
-- efemon.log and n for efemon.log.n. Removing and renaming are the system's, done as POSIX says; an
-- open fails where `opens` is false.
pub mod Kept
use efe_process_monitor.Common.{
  ℕ, zero, suc, ◌+◌, ◌-◌, ◌*◌, Bool, true, false, Option, none, some, [], ◌∷◌, ◌++◌, List, nat_eq,
  length, drop, ltb, if◌then◌else◌,
}
use efe_process_monitor.Common.Texts.{Text}
use efe_process_monitor.Common.Maps.{Map, lookup, insert, delete}

abbrev pub log_max_bytes : ℕ
log_max_bytes = 5 * 1048576

abbrev pub log_keep : ℕ
log_keep = 3

abbrev pub Files : Type 0
Files = Map ℕ Text

pub record RotatingWriter : Type 0 where
  pub is_open : Bool
  pub size : ℕ
  pub files : Files

abbrev pub content : Option Text → Text
content none = []
content (some t) = t

-- A file that is not there is not renamed; one in the way is replaced.
unfoldable pub rename : ℕ → ℕ → Files → Files
rename i j fs = elim (lookup i fs) [ none ↦ fs | some t ↦ insert j t (delete i fs) ]

-- O_CREATE and O_APPEND.
unfoldable pub open_log : Bool → RotatingWriter → RotatingWriter
open_log opens w =
    let old = content (lookup 0 w.files) in
    if opens
    then record w { is_open = true; size = length old; files = insert 0 old w.files }
    else w

-- `for i := n; i >= 1; i--`
unfoldable pub shift : ℕ → Files → Files
shift zero fs = fs
shift (suc i) fs = shift i (rename (suc i) (suc (suc i)) fs)

unfoldable pub rotate : Bool → RotatingWriter → RotatingWriter
rotate opens w =
    let moved = rename 0 1 (shift (log_keep - 1) (delete log_keep w.files)) in
    open_log opens (record w { is_open = false; files = moved })

-- A line that cannot be written is dropped.
abbrev pub append : Text → RotatingWriter → RotatingWriter
append p w =
    if w.is_open
    then record w {
      size = w.size + length p;
      files = insert 0 (content (lookup 0 w.files) ++ p) w.files;
    }
    else w

unfoldable pub write : Bool → Text → RotatingWriter → RotatingWriter
write opens p w =
    if w.is_open
    then append p (if ltb log_max_bytes (w.size + length p) then rotate opens w else w)
    else w

-- The last bytes of the log.
pub tail_log : ℕ → RotatingWriter → Text
tail_log max_bytes w =
    let t = content (lookup 0 w.files) in
    if ltb max_bytes (length t) then drop (length t - max_bytes) t else t
