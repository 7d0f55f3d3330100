-- ===== src/Audit/Units.antt =====
-- audit_parse.go: parseSystemdExec, suspiciousExecPath, cronEnvLine and desktopExec.
pub mod Exec
use efe_process_monitor.Common.{
  ℕ, Bool, true, false, not, ◌&&◌, ◌||◌, Option, none, some, [], ◌∷◌, ◌++◌, List, list_eq, nat_eq,
  leb, all, ◌==◌, ◌=?◌, if◌then◌else◌,
}
use efe_process_monitor.Common.Texts.{Text, codes, trim_space, starts_with}
use efe_process_monitor.Common.Cuts.{lines, fields, cut, cut_prefix, trim_left_of}
use efe_process_monitor.Ports.{is_suspicious_path}

abbrev pub exec_keys : List Text
exec_keys =
    codes "ExecStart="
    ∷ codes "ExecStartPre="
    ∷ codes "ExecStartPost="
    ∷ codes "ExecReload="
    ∷ codes "ExecStop="
    ∷ []

-- The command after one of the keys, if there is one.
abbrev pub add_command : Option Text → List Text → List Text
add_command none ts = ts
add_command (some v) ts = if trim_space v =? [] then ts else trim_space v ∷ ts

unfoldable pub commands_of : Text → List Text → List Text
commands_of ln [] = []
commands_of ln (k ∷ ks) = add_command (cut_prefix ln k) (commands_of ln ks)

unfoldable pub unit_commands : List Text → List Text
unit_commands [] = []
unit_commands (ln ∷ lns) = commands_of (trim_space ln) exec_keys ++ unit_commands lns

unfoldable pub parse_systemd_exec : Text → List Text
parse_systemd_exec unit = unit_commands (lines unit)

-- systemd's prefixes of a command: - @ + ! :
abbrev pub is_exec_prefix : ℕ → Bool
is_exec_prefix c = (c == b'-') || (c == b'@') || (c == b'+') || (c == b'!') || (c == b':')

abbrev pub is_foreign_binary : Text → Bool
is_foreign_binary bin =
    is_suspicious_path bin || starts_with bin (codes "/home/") || starts_with bin (codes "/root/")

abbrev pub first_word_foreign : List Text → Bool
first_word_foreign [] = false
first_word_foreign (w ∷ ws) = is_foreign_binary (trim_left_of is_exec_prefix w)

pub suspicious_exec_path : Text → Bool
suspicious_exec_path cmd = first_word_foreign (fields cmd)

abbrev pub is_name_byte : ℕ → Bool
is_name_byte c =
    leb b'A' c && leb c b'Z' || leb b'a' c && leb c b'z' || leb b'0' c && leb c b'9' || (c == b'_')

abbrev pub is_some_text : Option Text → Bool
is_some_text none = false
is_some_text (some t) = true

pub cron_env_line : Text → Bool
cron_env_line ln =
    let (k, value) = cut b'=' ln in is_some_text value && not (k =? []) && all is_name_byte k

abbrev pub first_command : List Text → Text
first_command [] = []
first_command (ln ∷ lns) = elim (cut_prefix (trim_space ln) (codes "Exec=")) [
  | some v ↦ trim_space v
  | none ↦ first_command lns
]

pub desktop_exec : Text → Text
desktop_exec content = first_command (lines content)
