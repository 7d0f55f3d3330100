-- ===== src/Firewall/Rules.antt =====
-- Blocking by iptables: how many rules drop what goes to an address.
pub mod Reapply
use efe_process_monitor.Common.{
  ℕ, zero, suc, ◌+◌, ◌-◌, ◌≤◌, ◌<◌, ◌≡◌, ◌≢◌, ◌⊎◌, ◌↔◌, max, ltb, inl, inr, refl, sym, ◌∙◌, Bool,
  true, false, not, ◌&&◌, Option, none, some, [], ◌∷◌, List, list_eq, nat_eq, ◌=?◌, list_beq_iff,
  length, All, arith, Bool-cases, Option-cases, if◌then◌else◌, if-elim,
}
use efe_process_monitor.Common.Texts.{Text, codes}
use efe_process_monitor.Firewall.{
  System, linux, FirewallError, command_failed, no_tool, Ran, drop_rule, iptables_for, of_run,
  append_unless, block_linux, block_ip, delete_copies, delete_all, unblock_linux, unblock_ip,
  reapply_each, reapply_blocks,
}

-- What the code relies on of iptables and ip6tables, run with the rights to change rules. `rules`
-- counts the copies of the rule that drops what goes to an address: -C tells whether there is one, -A
-- adds one or fails, and -D takes one away or fails where there is none.
pub record Iptables {W : Type 0} (run : List Text → W → Ran W) : Type 0 where
  pub rules : Text → Text → W → ℕ
  pub check_ok :
      (tool ip : Text) (w : W)
      → (run (drop_rule tool (codes "-C") ip) w).ok ≡ ltb 0 (rules tool ip w)
  pub check_rules :
      (tool ip t j : Text) (w : W)
      → rules t j (run (drop_rule tool (codes "-C") ip) w).after ≡ rules t j w
  pub append_rules :
      (tool ip t j : Text) (w : W)
      → rules t j (run (drop_rule tool (codes "-A") ip) w).after ≡ (
          if (run (drop_rule tool (codes "-A") ip) w).ok && ((t =? tool) && (j =? ip))
          then suc (rules t j w)
          else rules t j w)
  pub delete_ok :
      (tool ip : Text) (w : W)
      → (run (drop_rule tool (codes "-D") ip) w).ok ≡ ltb 0 (rules tool ip w)
  pub delete_rules :
      (tool ip t j : Text) (w : W)
      → rules t j (run (drop_rule tool (codes "-D") ip) w).after
        ≡ (if (t =? tool) && (j =? ip) then rules t j w - 1 else rules t j w)

module _ {W : Type 0} (run : List Text → W → Ran W) (has_cmd : Text → Bool) (is_ipv6 : Text → Bool)
    (ipt : Iptables run) where
  -- The rules for an address, in the tool of its family.
  abbrev pub rules_for : Text → W → ℕ
  rules_for ip w = ipt.rules (iptables_for run has_cmd is_ipv6 ip) ip w

  abbrev tool_for : Text → Text
  tool_for ip = iptables_for run has_cmd is_ipv6 ip

  append_unless-rules :
      (tool ip : Text) (w : W)
      → (append_unless run has_cmd is_ipv6 tool ip (run (drop_rule tool (codes "-C") ip) w)).0
        ≡ none
      → ipt.rules tool ip
          (append_unless run has_cmd is_ipv6 tool ip (run (drop_rule tool (codes "-C") ip) w)).1
        ≡ max 1 (ipt.rules tool ip w)
  append_unless-rules tool ip w h =
      let checked = run (drop_rule tool (codes "-C") ip) w in
      ground (
        arith,
        ipt.check_ok tool ip w,
        ipt.check_rules tool ip tool ip w,
        ipt.append_rules tool ip tool ip checked.after,
        list_beq_iff tool tool,
        list_beq_iff ip ip,
      )

  append_unless-le :
      (tool ip t j : Text) (w : W)
      → ipt.rules t j w
        ≤ ipt.rules t j
            (append_unless run has_cmd is_ipv6 tool ip (run (drop_rule tool (codes "-C") ip) w)).1
  append_unless-le tool ip t j w =
      let checked = run (drop_rule tool (codes "-C") ip) w in
      ground (arith, ipt.check_rules tool ip t j w, ipt.append_rules tool ip t j checked.after)

  -- Blocking an address takes no rule away.
  pub block_ip-le :
      (ip j : Text) (w : W)
      → has_cmd (iptables_for run has_cmd is_ipv6 ip) ≡ true
      → rules_for j w ≤ rules_for j (block_ip run has_cmd is_ipv6 linux ip w).1
  unfolding block_ip block_linux
  block_ip-le ip j w c = rw c (append_unless-le (tool_for ip) ip (tool_for j) j w)

  -- Once an address is blocked without an error there is a rule for it, and no second one was added
  -- to rules that were there before.
  pub block_ip-rules :
      (ip : Text) (w : W)
      → has_cmd (iptables_for run has_cmd is_ipv6 ip) ≡ true
      → (block_ip run has_cmd is_ipv6 linux ip w).0 ≡ none
      → rules_for ip (block_ip run has_cmd is_ipv6 linux ip w).1 ≡ max 1 (rules_for ip w)
  unfolding block_ip block_linux
  block_ip-rules ip w c h = rw c (append_unless-rules (tool_for ip) ip w (rw c at h))

  delete_copies-rules :
      (n : ℕ) (tool ip t j : Text) (w : W)
      → ipt.rules t j (delete_copies run has_cmd is_ipv6 n tool ip w)
        ≡ (if (t =? tool) && (j =? ip) then ipt.rules t j w - n else ipt.rules t j w)
  unfolding delete_copies
  delete_copies-rules zero tool ip t j w = ground arith
  delete_copies-rules (suc n) tool ip t j w =
      let r = run (drop_rule tool (codes "-D") ip) w in
      ground (
        arith,
        ipt.delete_ok tool ip w,
        ipt.delete_rules tool ip t j w,
        delete_copies-rules n tool ip t j r.after,
        list_beq_iff t tool,
        list_beq_iff j ip,
      )

  delete_all-rules :
      (tool ip t j : Text) (w : W)
      → ipt.rules t j
          (delete_all run has_cmd is_ipv6 tool ip (run (drop_rule tool (codes "-D") ip) w)).1
        ≡ (if (t =? tool) && (j =? ip) then ipt.rules t j w - 16 else ipt.rules t j w)
  delete_all-rules tool ip t j w =
      let r = run (drop_rule tool (codes "-D") ip) w in
      ground (
        arith,
        ipt.delete_ok tool ip w,
        ipt.delete_rules tool ip t j w,
        delete_copies-rules 15 tool ip t j r.after,
        list_beq_iff t tool,
        list_beq_iff j ip,
      )

  delete_all-error :
      (tool ip : Text) (w : W)
      → ((delete_all run has_cmd is_ipv6 tool ip (run (drop_rule tool (codes "-D") ip) w)).0 ≡ none)
        ↔ (0 < ipt.rules tool ip w)
  delete_all-error tool ip w = ground (arith, ipt.delete_ok tool ip w)

  -- Unblocking an address takes away sixteen of its rules, or all where there are fewer, and is an
  -- error exactly when there was none. The rules for every other address stay.
  pub unblock_ip-rules :
      (ip : Text) (w : W)
      → has_cmd (iptables_for run has_cmd is_ipv6 ip) ≡ true
      → (rules_for ip (unblock_ip run has_cmd is_ipv6 linux ip w).1 ≡ rules_for ip w - 16)
        × (((unblock_ip run has_cmd is_ipv6 linux ip w).0 ≡ none) ↔ (0 < rules_for ip w))
        × ((j : Text)
            → j ≢ ip
            → rules_for j (unblock_ip run has_cmd is_ipv6 linux ip w).1 ≡ rules_for j w)
  unfolding unblock_ip unblock_linux
  unblock_ip-rules ip w c =
      let tool = tool_for ip in
      rw c (
        ground
            (arith, delete_all-rules tool ip tool ip w, list_beq_iff tool tool, list_beq_iff ip ip),
        delete_all-error tool ip w,
        λ j n. ground (arith, delete_all-rules tool ip (tool_for j) j w, list_beq_iff j ip),
      )

  -- An address with at most sixteen rules is blocked and then unblocked: both succeed where the first
  -- does, and no rule for the address is left.
  pub unblock_ip-block_ip :
      (ip : Text) (w : W)
      → has_cmd (iptables_for run has_cmd is_ipv6 ip) ≡ true
      → rules_for ip w ≤ 16
      → (block_ip run has_cmd is_ipv6 linux ip w).0 ≡ none
      → ((unblock_ip run has_cmd is_ipv6 linux ip (block_ip run has_cmd is_ipv6 linux ip w).1).0
          ≡ none)
        × (rules_for ip
              (unblock_ip run has_cmd is_ipv6 linux ip
                (block_ip run has_cmd is_ipv6 linux ip w).1).1
            ≡ 0)
  unblock_ip-block_ip ip w c b h =
      let w1 = (block_ip run has_cmd is_ipv6 linux ip w).1 in
      let (left, fine, others) = unblock_ip-rules ip w1 c in
      let e = block_ip-rules ip w c h in (fine.1 (omega (arith, e)), omega (arith, left, e))
