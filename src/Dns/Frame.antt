-- ===== src/Dns/Frame.antt =====
-- dns.go: udpPayloadOfFrame, the userspace side of the BPF filter.
pub mod Payload
use efe_process_monitor.Common.{
  ℕ, ◌+◌, ◌*◌, ◌/◌, ◌%◌, Bool, true, false, not, ◌||◌, Option, none, some, length, ltb, ◌==◌,
  if◌then◌else◌, ◌-◌,
}
use efe_process_monitor.Common.Outcome.{Outcome, ret, ◌>>=◌, index, slice, be16}
use efe_process_monitor.Common.Texts.{Text}

-- What the switch on the version gives: the offset of the UDP header, or the early return of nil.
pub ipv4_header : Text → Outcome (Option ℕ)
ipv4_header f = if ltb (length f) 20 then ret none else do
  proto ← index f 9
  fragment ← be16 f 6
  first ← index f 0
  ret (if not (proto == 17) || not (fragment % 8192 == 0) then none else some (first % 16 * 4))

pub ipv6_header : Text → Outcome (Option ℕ)
ipv6_header f =
    if ltb (length f) 40
    then ret none
    else do proto ← index f 6; ret (if not (proto == 17) then none else some 40)

pub udp_header : Text → ℕ → Outcome (Option ℕ)
udp_header f version =
    if version == 4 then ipv4_header f else if version == 6 then ipv6_header f else ret none

-- The last test and the slice.
pub udp_payload : Text → Option ℕ → Outcome (Option Text)
udp_payload f none = ret none
udp_payload f (some udp) = if ltb (length f) (udp + 8) then ret none else do
  port ← be16 f udp
  payload ← slice f (udp + 8) (length f)
  ret (if not (port == 53) then none else some payload)

-- `none` is nil.
pub udp_payload_of_frame : Text → Outcome (Option Text)
udp_payload_of_frame f =
    if ltb (length f) 1
    then ret none
    else do first ← index f 0; udp ← udp_header f (first / 16); udp_payload f udp
