-- ===== src/Audit/Sockets.antt =====
-- audit_parse.go: parseListeningPorts, parseProcNetInodes and socketInode.
pub mod Bounds
use efe_process_monitor.Common.{
  ℕ, ◌-◌, Bool, true, false, not, ◌&&◌, ◌||◌, Option, none, some, [], ◌∷◌, List, length, leb, ltb,
  take, drop, get_elem?, if◌then◌else◌,
}
use efe_process_monitor.Common.Ints.{ℤ, pos, pos_part, atoi}
use efe_process_monitor.Common.Texts.{Text, codes, starts_with, contains, to_upper}
use efe_process_monitor.Common.Cuts.{lines, fields, cut_last, ends_with}
use efe_process_monitor.Score.Reasons.{is_nil}

-- A number from 1 to 65535.
abbrev pub as_port : Option ℤ → Option ℕ
as_port none = none
as_port (some z) = let n = pos_part z in if ltb 0 n && leb n 65535 then some n else none

-- What follows the last colon, which must not be empty.
abbrev pub after_colon : Option (Text × Text) → Option ℕ
after_colon none = none
after_colon (some (before, after)) = if is_nil after then none else as_port (atoi after)

abbrev pub first_port : List Text → Option ℕ
first_port [] = none
first_port (tok ∷ toks) = elim (after_colon (cut_last b':' tok)) [
  | some p ↦ some p
  | none ↦ first_port toks
]

abbrev pub or_port : Option ℕ → List ℕ → List ℕ
or_port none ps = ps
or_port (some p) ps = p ∷ ps

pub ports_of : Bool → List Text → List ℕ
ports_of only_listening [] = []
ports_of only_listening (ln ∷ lns) =
    let rest = ports_of only_listening lns in
    if only_listening && not (contains (to_upper ln) (codes "LISTENING"))
    then rest
    else or_port (first_port (fields ln)) rest

pub parse_listening_ports : Text → Bool → List ℕ
parse_listening_ports raw windows_listening_only = ports_of windows_listening_only (lines raw)

abbrev pub or_inode : Option Text → List Text → List Text
or_inode none ts = ts
or_inode (some t) ts = t ∷ ts

pub inodes_of : List Text → List Text
inodes_of [] = []
inodes_of (ln ∷ lns) = or_inode (get_elem? (fields ln) 9) (inodes_of lns)

-- All lines but the header.
pub parse_proc_net_inodes : Text → List Text
parse_proc_net_inodes content = inodes_of (drop 1 (lines content))

pub socket_inode : Text → Text
socket_inode link =
    if not (starts_with link (codes "socket:[")) || not (ends_with link (codes "]"))
    then []
    else take (length link - 1 - 8) (drop 8 link)
