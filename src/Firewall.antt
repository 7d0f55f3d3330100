-- ===== src/Firewall.antt =====
-- actions.go: blocking and unblocking an address. The firewall tools are not the program's own: `run`
-- runs a command in a state of the system and gives whether it succeeded, what it printed and the
-- state after it; `has_cmd` is exec.LookPath; `is_ipv6` is isIPv6, a test by net.ParseIP.
pub mod Rules
use efe_process_monitor.Common.{
  ℕ, zero, suc, ◌+◌, Bool, true, false, not, Option, none, some, [], ◌∷◌, ◌++◌, List, if◌then◌else◌,
}
use efe_process_monitor.Common.Texts.{Text, codes, contains}

pub data System : Type 0 where
  windows : System
  linux : System
  darwin : System
  other : System

pub data FirewallError : Type 0 where
  command_failed : FirewallError
  no_tool : FirewallError
  not_on_mac : FirewallError
  unsupported : FirewallError

pub record Ran (W : Type 0) : Type 0 where
  pub ok : Bool
  pub output : Text
  pub after : W

-- The command of the rule that drops what goes to an address.
abbrev pub drop_rule : Text → Text → Text → List Text
drop_rule tool flag ip =
    tool ∷ flag ∷ codes "OUTPUT" ∷ codes "-d" ∷ ip ∷ codes "-j" ∷ codes "DROP" ∷ []

module _ {W : Type 0} (run : List Text → W → Ran W) (has_cmd : Text → Bool)
    (is_ipv6 : Text → Bool) where
  abbrev pub iptables_for : Text → Text
  iptables_for ip = if is_ipv6 ip then codes "ip6tables" else codes "iptables"

  abbrev pub nft_set_for : Text → Text
  nft_set_for ip = if is_ipv6 ip then codes "blocked6" else codes "blocked"

  -- The commands one after the other, whatever comes of them.
  pub run_all : List (List Text) → W → W
  run_all [] w = w
  run_all (c ∷ cs) w = run_all cs (run c w).after

  abbrev pub nft_add : List Text → List Text
  nft_add args = codes "nft" ∷ codes "add" ∷ args

  abbrev pub efepm : List Text → List Text
  efepm args = codes "inet" ∷ codes "efepm" ∷ args

  pub ensure_nft : W → W
  ensure_nft w =
      let w1 =
        run_all
          (nft_add (codes "table" ∷ efepm [])
            ∷ nft_add (codes "set" ∷ efepm (codes "blocked" ∷ codes "{ type ipv4_addr; }" ∷ []))
            ∷ nft_add (codes "set" ∷ efepm (codes "blocked6" ∷ codes "{ type ipv6_addr; }" ∷ []))
            ∷ nft_add (
                codes "chain"
                ∷ efepm (codes "out" ∷ codes "{ type filter hook output priority 0 ; }" ∷ []))
            ∷ [])
          w in
      let listing =
        run (codes "nft" ∷ codes "list" ∷ codes "chain" ∷ efepm (codes "out" ∷ [])) w1 in
      let rule = λ (family set : Text).
        nft_add
          (codes "rule" ∷ efepm (codes "out" ∷ family ∷ codes "daddr" ∷ set ∷ codes "drop" ∷ [])) in
      let w2 =
        if not (contains listing.output (codes "daddr @blocked "))
        then (run (rule (codes "ip") (codes "@blocked")) listing.after).after
        else listing.after in
      if not (contains listing.output (codes "@blocked6"))
      then (run (rule (codes "ip6") (codes "@blocked6")) w2).after
      else w2

  -- An error is the failure of the one command.
  abbrev pub of_run : Ran W → Option FirewallError × W
  of_run r = (if r.ok then none else some command_failed, r.after)

  abbrev pub append_unless : Text → Text → Ran W → Option FirewallError × W
  append_unless tool ip checked =
      if checked.ok
      then (none, checked.after)
      else of_run (run (drop_rule tool (codes "-A") ip) checked.after)

  unfoldable pub block_linux : Text → W → Option FirewallError × W
  block_linux ip w =
      let tool = iptables_for ip in
      if has_cmd tool
      then append_unless tool ip (run (drop_rule tool (codes "-C") ip) w)
      else if has_cmd (codes "nft")
      then of_run (
          run
            (nft_add
              (codes "element" ∷ efepm (nft_set_for ip ∷ (codes "{ " ++ (ip ++ codes " }")) ∷ [])))
            (ensure_nft w))
      else (some no_tool, w)

  unfoldable pub block_ip : System → Text → W → Option FirewallError × W
  block_ip windows ip w = of_run (
      run
        (codes "netsh"
          ∷ codes "advfirewall"
          ∷ codes "firewall"
          ∷ codes "add"
          ∷ codes "rule"
          ∷ (codes "name=eFePM block " ++ ip)
          ∷ codes "dir=out"
          ∷ codes "action=block"
          ∷ (codes "remoteip=" ++ ip)
          ∷ [])
        w)
  block_ip linux ip w = block_linux ip w
  block_ip darwin ip w = (some not_on_mac, w)
  block_ip other ip w = (some unsupported, w)

  -- At most n copies of the rule are deleted, until a command fails.
  unfoldable pub delete_copies : ℕ → Text → Text → W → W
  delete_copies zero tool ip w = w
  delete_copies (suc n) tool ip w =
      let r = run (drop_rule tool (codes "-D") ip) w in
      let rest = delete_copies n tool ip r.after in if r.ok then rest else r.after

  -- Only the failure of the first command is an error.
  abbrev pub delete_all : Text → Text → Ran W → Option FirewallError × W
  delete_all tool ip first =
      if first.ok
      then (none, delete_copies 15 tool ip first.after)
      else (some command_failed, first.after)

  unfoldable pub unblock_linux : Text → W → Option FirewallError × W
  unblock_linux ip w =
      let tool = iptables_for ip in
      if has_cmd tool
      then delete_all tool ip (run (drop_rule tool (codes "-D") ip) w)
      else if has_cmd (codes "nft")
      then of_run (
          run
            (codes "nft"
              ∷ codes "delete"
              ∷ codes "element"
              ∷ efepm (nft_set_for ip ∷ (codes "{ " ++ (ip ++ codes " }")) ∷ []))
            w)
      else (some no_tool, w)

  unfoldable pub unblock_ip : System → Text → W → Option FirewallError × W
  unblock_ip windows ip w = of_run (
      run
        (codes "netsh"
          ∷ codes "advfirewall"
          ∷ codes "firewall"
          ∷ codes "delete"
          ∷ codes "rule"
          ∷ (codes "name=eFePM block " ++ ip)
          ∷ [])
        w)
  unblock_ip linux ip w = unblock_linux ip w
  unblock_ip darwin ip w = (some unsupported, w)
  unblock_ip other ip w = (some unsupported, w)

  -- How many of the addresses were blocked, and the system after it.
  unfoldable pub reapply_each : System → List Text → W → ℕ × W
  reapply_each sys [] w = (0, w)
  reapply_each sys (ip ∷ ips) w =
      let (error, w1) = block_ip sys ip w in
      let (ok, w2) = reapply_each sys ips w1 in (elim error [ none ↦ suc ok | some e ↦ ok ], w2)

  unfoldable pub reapply_blocks : System → Bool → List Text → W → ℕ × W
  reapply_blocks linux elevated ips w = if elevated then reapply_each linux ips w else (0, w)
  reapply_blocks sys elevated ips w = (0, w)
