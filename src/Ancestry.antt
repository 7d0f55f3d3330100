-- ===== src/Ancestry.antt =====
-- ancestry.go: the chain of the processes that launched a process, the spawn patterns that are
-- reported, and the label of the chain. What the operating system says of a process is a parameter.
pub mod Walk
pub mod Rules
pub mod Label
use efe_process_monitor.Common.{
  ℕ, zero, suc, ◌+◌, Bool, true, false, not, ◌&&◌, ◌||◌, Option, none, some, [], ◌∷◌, ◌++◌, List,
  list_eq, nat_eq, length, ltb, ◌=?◌, ◌==◌, if◌then◌else◌, map,
}
use efe_process_monitor.Common.Ints.{ℤ, pos_part}
use efe_process_monitor.Common.Texts.{Text, codes, to_lower, trim_space, one_of, join}

-- process.NewProcess, Ppid and Name, with none for an error.
pub record Procs : Type 0 where
  pub opens : ℕ → Bool
  pub ppid : ℕ → Option ℤ
  pub name : ℕ → Option Text

pub record Ancestor : Type 0 where
  pub pid : ℕ
  pub name : Text

abbrev pub max_ancestry_depth : ℕ
max_ancestry_depth = 12

abbrev pub unknown : Text
unknown = codes "?"

abbrev pub name_or_unknown : Option Text → Text
name_or_unknown none = unknown
name_or_unknown (some n) = if n =? [] then unknown else n

abbrev pub pid_in : ℕ → List ℕ → Bool
pid_in p [] = false
pid_in p (q ∷ qs) = (p == q) || pid_in p qs

abbrev pub ancestor : ℕ → Text → Ancestor
ancestor p n = record { pid = p; name = n }

-- The body of the loop; `again` is the loop from the parent on.
pub parent_step : Procs → (ℕ → List Ancestor) → List ℕ → Option ℤ → List Ancestor
parent_step procs again seen none = []
parent_step procs again seen (some z) =
    let ppid = pos_part z in
    if (ppid == 0) || pid_in ppid seen
    then []
    else if not (procs.opens ppid)
    then ancestor ppid unknown ∷ []
    else ancestor ppid (name_or_unknown (procs.name ppid)) ∷ again ppid

-- The first argument counts the steps that are left.
pub walk : Procs → ℕ → List ℕ → ℕ → List Ancestor
walk procs zero seen p = []
walk procs (suc n) seen p = parent_step procs (λ q. walk procs n (q ∷ seen) q) seen (procs.ppid p)

pub ancestry_of : Procs → ℕ → List Ancestor
ancestry_of procs pid =
    if not (procs.opens pid) then [] else walk procs max_ancestry_depth (pid ∷ []) pid

abbrev pub script_hosts : List Text
script_hosts =
    codes "cmd.exe"
    ∷ codes "powershell.exe"
    ∷ codes "pwsh.exe"
    ∷ codes "wscript.exe"
    ∷ codes "cscript.exe"
    ∷ codes "mshta.exe"
    ∷ codes "rundll32.exe"
    ∷ codes "regsvr32.exe"
    ∷ codes "certutil.exe"
    ∷ codes "bitsadmin.exe"
    ∷ codes "msiexec.exe"
    ∷ codes "installutil.exe"
    ∷ codes "curl.exe"
    ∷ codes "wget.exe"
    ∷ []

abbrev pub document_apps : List Text
document_apps =
    codes "winword.exe"
    ∷ codes "excel.exe"
    ∷ codes "powerpnt.exe"
    ∷ codes "outlook.exe"
    ∷ codes "msaccess.exe"
    ∷ codes "visio.exe"
    ∷ codes "onenote.exe"
    ∷ codes "acrord32.exe"
    ∷ codes "acrobat.exe"
    ∷ []

abbrev pub browsers : List Text
browsers =
    codes "chrome.exe"
    ∷ codes "msedge.exe"
    ∷ codes "firefox.exe"
    ∷ codes "brave.exe"
    ∷ codes "opera.exe"
    ∷ codes "vivaldi.exe"
    ∷ codes "iexplore.exe"
    ∷ []

abbrev pub unix_shells : List Text
unix_shells =
    codes "sh"
    ∷ codes "bash"
    ∷ codes "dash"
    ∷ codes "zsh"
    ∷ codes "ksh"
    ∷ codes "python"
    ∷ codes "python3"
    ∷ codes "perl"
    ∷ codes "ruby"
    ∷ codes "nc"
    ∷ codes "ncat"
    ∷ codes "netcat"
    ∷ codes "socat"
    ∷ codes "curl"
    ∷ codes "wget"
    ∷ []

abbrev pub server_procs : List Text
server_procs =
    codes "nginx"
    ∷ codes "apache2"
    ∷ codes "httpd"
    ∷ codes "lighttpd"
    ∷ codes "caddy"
    ∷ codes "php-fpm"
    ∷ codes "php"
    ∷ codes "node"
    ∷ codes "java"
    ∷ codes "tomcat"
    ∷ codes "postgres"
    ∷ codes "mysqld"
    ∷ codes "mariadbd"
    ∷ codes "redis-server"
    ∷ []

-- What follows the last slash or backslash.
pub after_separator : Text → Option Text
after_separator [] = none
after_separator (c ∷ s) = elim (after_separator s) [
  | some t ↦ some t
  | none ↦ if (c == 47) || (c == 92) then some s else none
]

abbrev pub or_whole : Text → Option Text → Text
or_whole s none = s
or_whole s (some t) = t

pub proc_base : Text → Text
proc_base name = let s = trim_space name in to_lower (or_whole s (after_separator s))

-- The UTF-8 bytes of the two arrows with their spaces.
abbrev pub right_arrow : Text
right_arrow = 32 ∷ 226 ∷ 134 ∷ 146 ∷ 32 ∷ []

abbrev pub left_arrow : Text
left_arrow = 32 ∷ 226 ∷ 134 ∷ 144 ∷ 32 ∷ []

-- The name of the first process of the chain that is one of these.
pub first_of : List Text → List Ancestor → Option Text
first_of names [] = none
first_of names (a ∷ chain) =
    let rest = first_of names chain in
    let an = proc_base a.name in if one_of an names then some an else rest

-- The report for a process that is in the first list, and `otherwise` where the rule is silent.
abbrev pub report : Text → Option Text → Text → Text
report self none otherwise = otherwise
report self (some an) otherwise = an ++ (right_arrow ++ self)

pub suspicious_ancestry : Text → List Ancestor → Text
suspicious_ancestry proc_name chain =
    let self = proc_base proc_name in
    let shell =
      if one_of self unix_shells then report self (first_of server_procs chain) [] else [] in
    if one_of self script_hosts
    then report self (first_of (document_apps ++ browsers) chain) shell
    else shell

-- chain[:end] after the loop that lowers end.
pub drop_unknown : List Ancestor → List Ancestor
drop_unknown [] = []
drop_unknown (a ∷ chain) = elim (drop_unknown chain) [
  | [] ↦ if a.name =? unknown then [] else a ∷ []
  | b ∷ bs ↦ a ∷ b ∷ bs
]

pub ancestry_label : Text → List Ancestor → Text
ancestry_label proc_name chain =
    join left_arrow (proc_name ∷ map (λ a. a.name) (drop_unknown chain))
