-- ===== src/Firewall/Rules/Reapply.antt =====
-- The blocks that are made again at a start.
use efe_process_monitor.Common.{
  ℕ, ◌≤◌, ◌<◌, ◌≡◌, inl, inr, Bool, true, [], ◌∷◌, List, list_eq, nat_eq, length, All, arith,
  Option-cases,
}
use efe_process_monitor.Common.Texts.{Text}
use efe_process_monitor.Firewall.{linux, Ran, iptables_for, block_ip, reapply_each, reapply_blocks}
use efe_process_monitor.Firewall.Rules.{Iptables, rules_for, block_ip-le, block_ip-rules}

module _ {W : Type 0} (run : List Text → W → Ran W) (has_cmd : Text → Bool) (is_ipv6 : Text → Bool)
    (ipt : Iptables run)
    (tools : (ip : Text) → has_cmd (iptables_for run has_cmd is_ipv6 ip) ≡ true) where
  abbrev count : Text → W → ℕ
  count ip w = rules_for run has_cmd is_ipv6 ipt ip w

  abbrev blocked : Text → W → W
  blocked ip w = (block_ip run has_cmd is_ipv6 linux ip w).1

  block_ip-count : (ip j : Text) (w : W) → 0 < count j w → 0 < count j (blocked ip w)
  block_ip-count ip j w h = omega (arith, block_ip-le run has_cmd is_ipv6 ipt ip j w (tools ip))

  reapply_each-le :
      (ips : List Text) (j : Text) (w : W)
      → 0 < count j w
      → 0 < count j (reapply_each run has_cmd is_ipv6 linux ips w).1
  unfolding reapply_each
  reapply_each-le [] j w h = h
  reapply_each-le (ip ∷ ips) j w h = reapply_each-le ips j (blocked ip w) (block_ip-count ip j w h)

  reapply_each-length :
      (ips : List Text) (w : W) → (reapply_each run has_cmd is_ipv6 linux ips w).0 ≤ length ips
  unfolding reapply_each
  reapply_each-length [] w = omega arith
  reapply_each-length (ip ∷ ips) w = ground (arith, reapply_each-length ips (blocked ip w))

  reapply_each-rules :
      (ips : List Text) (w : W)
      → (reapply_each run has_cmd is_ipv6 linux ips w).0 ≡ length ips
      → All (λ ip. 0 < count ip (reapply_each run has_cmd is_ipv6 linux ips w).1) ips
  unfolding reapply_each
  reapply_each-rules [] w h = tt
  reapply_each-rules (ip ∷ ips) w h =
      let w1 = blocked ip w in
      let b = reapply_each-length ips w1 in
      elim (Option-cases (block_ip run has_cmd is_ipv6 linux ip w).0) [
        | inl e ↦
            let one = block_ip-rules run has_cmd is_ipv6 ipt ip w (tools ip) e in
            (
              reapply_each-le ips ip w1 (omega (arith, one)),
              reapply_each-rules ips w1 (ground arith),
            )
        | inr (x, e) ↦ absurd (ground arith)
      ]

  -- No more addresses are counted as blocked again than there are; and where all are counted, each has
  -- a rule at the end.
  pub reapply_blocks-rules :
      (ips : List Text) (w : W)
      → ((reapply_blocks run has_cmd is_ipv6 linux true ips w).0 ≤ length ips)
        × ((reapply_blocks run has_cmd is_ipv6 linux true ips w).0 ≡ length ips
            → All
                (λ ip.
                  0
                  < rules_for run has_cmd is_ipv6 ipt ip
                      (reapply_blocks run has_cmd is_ipv6 linux true ips w).1)
                ips)
  unfolding reapply_blocks
  reapply_blocks-rules ips w = (reapply_each-length ips w, reapply_each-rules ips w)
