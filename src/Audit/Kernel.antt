-- ===== src/Audit/Kernel.antt =====
-- audit_parse.go: taintFlags, unknownModules, countNftRules and countIptablesRules.
pub mod Taint
use efe_process_monitor.Common.{
  ℕ, ◌+◌, ◌/◌, ◌%◌, Bool, true, false, not, ◌&&◌, ◌||◌, Option, none, some, [], ◌∷◌, ◌++◌, List,
  list_eq, nat_eq, ◌==◌, ◌=?◌, if◌then◌else◌,
}
use efe_process_monitor.Common.Outcome.{Outcome, ret, crash, ◌>>=◌}
use efe_process_monitor.Common.Texts.{Text, codes, join, to_lower, trim_space, starts_with}
use efe_process_monitor.Common.Cuts.{lines, fields}

abbrev pub taint_letters : Text
taint_letters = codes "PFSRMBUDAWCIOELKXT"

-- The letters of the bits that are set; n is the number shifted to the first letter's bit.
pub flags_from : Text → ℕ → List Text
flags_from [] n = []
flags_from (c ∷ cs) n =
    let rest = flags_from cs (n / 2) in if n % 2 == 1 then (c ∷ []) ∷ rest else rest

pub taint_flags : ℕ → Text
taint_flags n = join (codes " ") (flags_from taint_letters n)

abbrev pub known_module_families : List Text
known_module_families =
    codes "nvidia"
    ∷ codes "vbox"
    ∷ codes "vmw"
    ∷ codes "vmmon"
    ∷ codes "vmnet"
    ∷ codes "zfs"
    ∷ codes "spl"
    ∷ codes "wl"
    ∷ codes "r8168"
    ∷ codes "evdi"
    ∷ codes "v4l2loopback"
    ∷ codes "openrazer"
    ∷ codes "xone"
    ∷ codes "xpad"
    ∷ codes "anbox"
    ∷ codes "ashmem"
    ∷ codes "binder"
    ∷ []

abbrev pub starts_with_any : Text → List Text → Bool
starts_with_any s [] = false
starts_with_any s (p ∷ ps) = starts_with s p || starts_with_any s ps

-- strings.Fields(m)[0], which panics for a blank text.
abbrev pub first_field : List Text → Outcome Text
first_field [] = crash
first_field (w ∷ ws) = ret w

pub unknown_modules : List Text → Outcome (List Text)
unknown_modules [] = ret []
unknown_modules (m ∷ ms) = do
  w ← first_field (fields m)
  rest ← unknown_modules ms
  ret (if starts_with_any (to_lower w) known_module_families then rest else m ∷ rest)

abbrev pub is_nft_rule : Text → Bool
is_nft_rule t = not (
    (t =? [])
    || (t =? codes "}")
    || starts_with t (codes "table ")
    || starts_with t (codes "chain ")
    || starts_with t (codes "type ")
    || starts_with t (codes "set ")
    || starts_with t (codes "elements")
    || starts_with t (codes "#"))

abbrev pub is_iptables_rule : Text → Bool
is_iptables_rule t =
    not (t =? []) && not (starts_with t (codes "-P ")) && not (starts_with t (codes "-N "))

pub count_lines : (Text → Bool) → List Text → ℕ
count_lines p [] = 0
count_lines p (ln ∷ lns) = (if p (trim_space ln) then 1 else 0) + count_lines p lns

pub count_nft_rules : Text → ℕ
count_nft_rules out = count_lines is_nft_rule (lines out)

pub count_iptables_rules : Text → ℕ
count_iptables_rules out = count_lines is_iptables_rule (lines out)
