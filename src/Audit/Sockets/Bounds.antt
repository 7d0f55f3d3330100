-- ===== src/Audit/Sockets/Bounds.antt =====
-- The ports that are read, and the link of a socket.
use efe_process_monitor.Common.{
  ℕ, ◌+◌, ◌-◌, ◌≤◌, ◌<◌, ◌≡◌, Bool, Option, none, some, [], ◌∷◌, ◌++◌, List, length, All, arith,
  length-append, take-append, Option-cases, inl, inr,
}
use efe_process_monitor.Common.Texts.{Text, codes}
use efe_process_monitor.Common.Cuts.{lines, fields, cut_last}
use efe_process_monitor.Common.Cuts.Laws.{ends_with-append}
use efe_process_monitor.Audit.Sockets.{
  after_colon, first_port, ports_of, parse_listening_ports, socket_inode,
}

abbrev pub IsPort : ℕ → Type 0
IsPort p = (0 < p) × (p ≤ 65535)

after_colon-IsPort : (o : Option (Text × Text)) (p : ℕ) → after_colon o ≡ some p → IsPort p
after_colon-IsPort none p h = ground arith
after_colon-IsPort (some (before, after)) p h = ground arith

first_port-IsPort : (toks : List Text) (p : ℕ) → first_port toks ≡ some p → IsPort p
first_port-IsPort [] p h = ground arith
first_port-IsPort (tok ∷ toks) p h = elim (Option-cases (after_colon (cut_last b':' tok))) [
  | inl e ↦ first_port-IsPort toks p (ground arith)
  | inr (q, e) ↦ after_colon-IsPort (cut_last b':' tok) p (ground arith)
]

ports_of-All : (b : Bool) (lns : List Text) → All IsPort (ports_of b lns)
unfolding ports_of
ports_of-All b [] = tt
ports_of-All b (ln ∷ lns) = elim (Option-cases (first_port (fields ln))) [
  | inl e ↦ ground (arith, ports_of-All b lns)
  | inr (p, e) ↦
      let (lo, hi) = first_port-IsPort (fields ln) p e in ground (arith, ports_of-All b lns)
]

-- Every port that is read of a listing is a number from 1 to 65535, whatever the listing holds.
pub parse_listening_ports-All :
    (raw : Text) (windows_listening_only : Bool)
    → All IsPort (parse_listening_ports raw windows_listening_only)
unfolding parse_listening_ports
parse_listening_ports-All raw b = ports_of-All b (lines raw)

-- The inode is what stands in the brackets of a socket's link.
pub socket_inode_lem : (n : Text) → socket_inode (codes "socket:[" ++ (n ++ codes "]")) ≡ n
unfolding socket_inode
socket_inode_lem n =
    let e = ends_with-append (codes "socket:[" ++ n) (codes "]") in
    let l = length-append n (codes "]") in
    let k : length n + 1 + 8 - 1 - 8 ≡ length n = omega arith in
    ground (arith, e, l, k, take-append n (codes "]"))
