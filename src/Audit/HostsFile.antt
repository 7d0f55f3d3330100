-- ===== src/Audit/HostsFile.antt =====
-- audit_parse.go: customHostsLines. `is_ip` tells whether net.ParseIP takes a text, and `base` is
-- filepath.Base.
pub mod Custom
use efe_process_monitor.Common.{
  ℕ, Bool, true, false, not, ◌&&◌, ◌||◌, Option, none, some, [], ◌∷◌, ◌++◌, List, list_eq, nat_eq,
  ◌=?◌, if◌then◌else◌,
}
use efe_process_monitor.Common.Texts.{Text, codes, to_lower, trim_space, one_of}
use efe_process_monitor.Common.Cuts.{lines, fields, cut}
use efe_process_monitor.Auth.Hosts.{equal_fold}

abbrev pub standard_hosts_names : List Text
standard_hosts_names =
    codes "localhost"
    ∷ codes "localhost.localdomain"
    ∷ codes "localhost4"
    ∷ codes "localhost6"
    ∷ codes "ip6-localhost"
    ∷ codes "ip6-loopback"
    ∷ codes "ip6-localnet"
    ∷ codes "ip6-mcastprefix"
    ∷ codes "ip6-allnodes"
    ∷ codes "ip6-allrouters"
    ∷ codes "ip6-allhosts"
    ∷ codes "broadcasthost"
    ∷ []

-- The line without its comment.
abbrev pub uncomment : Text × Option Text → Text
uncomment (t, none) = t
uncomment (before, some comment) = trim_space before

module _ (is_ip : Text → Bool) (base : Text → Text) where
  unfoldable pub is_standard_name : Text → Text → Bool
  is_standard_name self_name name =
      let n = to_lower name in
      one_of n standard_hosts_names
      || equal_fold n self_name
      || equal_fold n (self_name ++ codes ".localdomain")
      || equal_fold n (base self_name)

  unfoldable pub all_standard : Text → List Text → Bool
  all_standard self_name [] = true
  all_standard self_name (name ∷ names) =
      is_standard_name self_name name && all_standard self_name names

  -- An address and a name at least, one of the names not standard.
  unfoldable pub is_custom_line : Text → List Text → Bool
  is_custom_line self_name (addr ∷ (name ∷ names)) =
      is_ip addr && not (all_standard self_name (name ∷ names))
  is_custom_line self_name _ = false

  unfoldable pub custom_lines : Text → List Text → List Text
  custom_lines self_name [] = []
  custom_lines self_name (ln ∷ lns) =
      let rest = custom_lines self_name lns in
      let t = uncomment (cut b'#' (trim_space ln)) in
      if is_custom_line self_name (fields t) then t ∷ rest else rest

  unfoldable pub custom_hosts_lines : Text → Text → List Text
  custom_hosts_lines content self_name = custom_lines self_name (lines content)
