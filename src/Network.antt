-- ===== src/Network.antt =====
-- connections.go, hostnames.go, lan.go and actions.go: the tests on the text of an address. `Net`
-- is what package net knows of addresses: ParseIP, and the methods of the type IP.
use efe_process_monitor.Common.{
  Bool, true, false, not, ◌&&◌, ◌||◌, Option, none, some, [], list_eq, nat_eq, ◌=?◌, ◌≡◌, arith,
  if◌then◌else◌,
}
use efe_process_monitor.Common.Texts.{Text}

pub record Net : Type 1 where
  pub Ip : Type 0
  pub parse_ip : Text → Option Ip
  pub is_private : Ip → Bool
  pub is_loopback : Ip → Bool
  pub is_link_local_unicast : Ip → Bool
  pub is_unspecified : Ip → Bool
  pub is_multicast : Ip → Bool
  pub is_link_local_multicast : Ip → Bool
  pub is_broadcast : Ip → Bool  -- Equal(net.IPv4bcast)

module _ (net : Net) where
  open net use {
    parse_ip, is_private, is_loopback, is_link_local_unicast, is_unspecified, is_multicast,
    is_link_local_multicast, is_broadcast,
  }

  -- A text that is no address counts as private.
  pub is_private_ip : Text → Bool
  is_private_ip ip = elim (parse_ip ip) [
    | none ↦ true
    | some a ↦ is_private a || is_loopback a || is_link_local_unicast a || is_unspecified a
  ]

  pub is_blockable : Text → Bool
  is_blockable ip = elim (parse_ip ip) [
    | none ↦ false
    | some a ↦ not (
        is_unspecified a
        || is_loopback a
        || is_multicast a
        || is_link_local_multicast a
        || is_broadcast a)
  ]

  pub is_loopback_ip : Text → Bool
  is_loopback_ip ip = elim (parse_ip ip) [ none ↦ false | some a ↦ is_loopback a ]

  pub is_lan : Text → Bool
  is_lan ip = elim (parse_ip ip) [
    | none ↦ false
    | some a ↦
        not (is_loopback a) && not (is_unspecified a) && (is_private a || is_link_local_unicast a)
  ]

  pub valid_ip : Text → Bool
  valid_ip s = if s =? [] then false else elim (parse_ip s) [
    | none ↦ false
    | some a ↦ not (is_unspecified a) && not (is_loopback a)
  ]

  -- A host of the local network counts as private, and is not a loopback address.
  pub is_lan_lem :
      (ip : Text) → is_lan ip ≡ true → (is_private_ip ip ≡ true) × (is_loopback_ip ip ≡ false)
  unfolding is_lan is_private_ip is_loopback_ip
  is_lan_lem ip h = ground arith
