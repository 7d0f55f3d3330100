-- ===== src/Ports.antt =====
-- ports.go and connections.go: the labels of ports, and the two tests on the path of a binary.
pub mod Signals
pub mod Known
use efe_process_monitor.Common.{
  ℕ, ◌+◌, Bool, true, false, not, ◌&&◌, ◌||◌, Option, none, some, [], ◌∷◌, List, list_eq, nat_eq,
  ◌==◌, ◌=?◌, if◌then◌else◌,
}
use efe_process_monitor.Common.Maps.{Map, lookup}
use efe_process_monitor.Common.Texts.{Text, codes, to_lower, contains}
use efe_process_monitor.Ports.Known.{known_ports}

abbrev pub scoring_malware_ports : Map ℕ Text
scoring_malware_ports = (4444, codes "Metasploit/Meterpreter") ∷ (4445, codes "Metasploit") ∷ []

abbrev pub legacy_malware_ports : Map ℕ Text
legacy_malware_ports =
    (1243, codes "SubSeven (RAT)")
    ∷ (1337, codes "backdoor leet")
    ∷ (2745, codes "Bagle (worm)")
    ∷ (3127, codes "MyDoom (worm)")
    ∷ (5554, codes "Sasser (worm)")
    ∷ (6711, codes "SubSeven (RAT)")
    ∷ (6776, codes "SubSeven (RAT)")
    ∷ (9898, codes "Dabber (worm)")
    ∷ (12345, codes "NetBus (RAT)")
    ∷ (12346, codes "NetBus (RAT)")
    ∷ (20034, codes "NetBus 2 (RAT)")
    ∷ (27374, codes "SubSeven (RAT)")
    ∷ (31337, codes "Back Orifice (RAT)")
    ∷ (54321, codes "Back Orifice 2000")
    ∷ (65506, codes "PhatBot")
    ∷ []

abbrev pub staging_paths : List Text
staging_paths =
    codes "\\appdata\\local\\temp"
    ∷ codes "\\users\\public"
    ∷ codes "\\programdata"
    ∷ codes "\\windows\\temp"
    ∷ codes "\\recycle"
    ∷ codes "/tmp/"
    ∷ codes "/var/tmp/"
    ∷ codes "/dev/shm/"
    ∷ []

abbrev pub untrusted_paths : List Text
untrusted_paths = codes "\\downloads" ∷ codes "/downloads" ∷ []

abbrev pub dash : Text
dash = 226 ∷ 128 ∷ 148 ∷ []

-- name, susp and legacy
pub record Label : Type 0 where
  pub name : Text
  pub susp : Bool
  pub legacy : Bool

abbrev pub label : Text → Bool → Bool → Label
label name susp legacy = record { name = name; susp = susp; legacy = legacy }

-- The entry of a port that is not 0.
abbrev pub entry : Map ℕ Text → ℕ → Option Text
entry table p = if p == 0 then none else lookup p table

abbrev pub or_else : Option Text → Option Text → Option Text
or_else none b = b
or_else (some a) b = some a

abbrev pub legacy_or_known : Option Text → Option Text → Label
legacy_or_known (some name) known = label name false true
legacy_or_known none (some name) = label name false false
legacy_or_known none none = label dash false false

abbrev pub scoring_or : Option Text → Label → Label
scoring_or (some name) other = label name true false
scoring_or none other = other

pub port_label : ℕ → ℕ → Label
port_label lport rport =
    scoring_or (or_else (entry scoring_malware_ports lport) (entry scoring_malware_ports rport)) (
      legacy_or_known
        (or_else (entry legacy_malware_ports lport) (entry legacy_malware_ports rport))
        (or_else (lookup lport known_ports) (entry known_ports rport)))

unfoldable pub path_known : Text → Bool
path_known p = not (p =? []) && not (p =? codes "N/A") && not (p =? codes "ACCESS_DENIED")

pub contains_any : Text → List Text → Bool
contains_any p [] = false
contains_any p (s ∷ ss) = let rest = contains_any p ss in if contains p s then true else rest

pub is_suspicious_path : Text → Bool
is_suspicious_path p = if not (path_known p) then false else contains_any (to_lower p) staging_paths

pub is_untrusted_path : Text → Bool
is_untrusted_path p =
    if not (path_known p) then false else contains_any (to_lower p) untrusted_paths
