-- ===== src/Tests/Operator.antt =====
-- The operator's lists across a restart, and the firewall on a machine with iptables alone.
use efe_process_monitor.Common.{
  ◌≡◌, refl, Bool, true, false, none, [], ◌∷◌, List, list_eq, nat_eq, pair_eq, ◌=?◌, list_beq_iff,
  ltb, ◌-◌, ◌&&◌, suc, arith, if◌then◌else◌,
}
use efe_process_monitor.Common.Texts.{Text, codes}
use efe_process_monitor.Common.Counts.{count, erase, count-erase}
use efe_process_monitor.Store.Restart.{
  Action, trust, trust_ip, block, keep_whitelist, keep_blocks, restart, perform, perform_all, fresh,
  Same, restart-Same,
}
use efe_process_monitor.Store.Restart.Removed.{binaries, Gone, remove_from, perform_all-removed}
use efe_process_monitor.Firewall.{
  linux, Ran, block_ip, block_linux, reapply_each, unblock_ip, reapply_blocks,
}
use efe_process_monitor.Firewall.Rules.{Iptables, rules_for, unblock_ip-block_ip}

abbrev tool : Text
tool = codes "/opt/tool/bin"

abbrev peer : Text
peer = codes "198.51.100.7"

-- A session without the settings, which are then switched on, and a restart in between.
abbrev session : List Action
session =
    trust (codes "10:00") tool
    ∷ block (codes "10:01") peer (codes "beacon")
    ∷ keep_whitelist true
    ∷ restart
    ∷ trust_ip (codes "10:02") peer
    ∷ keep_blocks true
    ∷ []

restart-Same_example :
    Same
      (perform restart (perform_all session (fresh false false)))
      (perform_all session (fresh false false))
unfolding perform perform_all
restart-Same_example = restart-Same false false session refl refl

perform_all-removed_example : Gone binaries tool (
    perform_all
      (keep_whitelist false ∷ restart ∷ block (codes "11:00") peer [] ∷ [])
      (perform (remove_from binaries tool) (perform_all session (fresh true true))))
perform_all-removed_example =
    perform_all-removed true true binaries tool session
      (keep_whitelist false ∷ restart ∷ block (codes "11:00") peer [] ∷ []) (tt, (tt, (tt, tt)))

-- The rules of a machine, as the pairs of a tool and an address.
abbrev Machine : Type 0
Machine = List (Text × Text)

abbrev apply : Text → Text → Text → Machine → Ran Machine
apply tool flag ip w =
    if flag =? codes "-A"
    then record { ok = true; output = []; after = (tool, ip) ∷ w }
    else record {
      ok = ltb 0 (count (tool, ip) w);
      output = [];
      after = if flag =? codes "-D" then erase (tool, ip) w else w;
    }

abbrev run : List Text → Machine → Ran Machine
run (tool ∷ flag ∷ chain ∷ d ∷ ip ∷ rest) w = apply tool flag ip w
run _ w = record { ok = false; output = []; after = w }

append_rules :
    (tool ip t j : Text) (w : Machine)
    → count (t, j) ((tool, ip) ∷ w)
      ≡ (if (t =? tool) && (j =? ip) then suc (count (t, j) w) else count (t, j) w)
unfolding count
append_rules tool ip t j w =
    ground (arith, list_beq_iff t tool, list_beq_iff tool t, list_beq_iff j ip, list_beq_iff ip j)

delete_rules :
    (tool ip t j : Text) (w : Machine)
    → count (t, j) (erase (tool, ip) w)
      ≡ (if (t =? tool) && (j =? ip) then count (t, j) w - 1 else count (t, j) w)
delete_rules tool ip t j w = ground (
  arith,
  count-erase (t, j) (tool, ip) w,
  list_beq_iff t tool,
  list_beq_iff tool t,
  list_beq_iff j ip,
  list_beq_iff ip j,
)

abbrev iptables : Iptables run
iptables = record {
  rules = λ t j w. count (t, j) w;
  check_ok = λ tool ip w. refl;
  check_rules = λ tool ip t j w. refl;
  append_rules = append_rules;
  delete_ok = λ tool ip w. refl;
  delete_rules = delete_rules;
}

abbrev has_cmd : Text → Bool
has_cmd t = true

abbrev is_ipv6 : Text → Bool
is_ipv6 t = false

unblock_ip-block_ip_example :
    ((unblock_ip run has_cmd is_ipv6 linux peer (block_ip run has_cmd is_ipv6 linux peer []).1).0
      ≡ none)
    × (rules_for run has_cmd is_ipv6 iptables peer
          (unblock_ip run has_cmd is_ipv6 linux peer
            (block_ip run has_cmd is_ipv6 linux peer []).1).1
        ≡ 0)
unfolding block_ip block_linux count
unblock_ip-block_ip_example =
    unblock_ip-block_ip run has_cmd is_ipv6 iptables peer [] refl (omega arith) refl

-- Both addresses are counted, so that the second part applies.
reapply_test :
    (reapply_blocks run has_cmd is_ipv6 linux true (peer ∷ codes "203.0.113.9" ∷ []) []).0 ≡ 2
unfolding reapply_blocks reapply_each block_ip block_linux count
reapply_test = refl
