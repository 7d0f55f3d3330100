-- ===== src/Dns/Frame/Payload.antt =====
-- What udpPayloadOfFrame returns.
use efe_process_monitor.Common.{
  ℕ, ◌+◌, ◌-◌, ◌*◌, ◌/◌, ◌%◌, ◌≤◌, ◌≡◌, ◌⊎◌, refl, Option, none, some, length, arith, take, drop,
  ltb, ◌==◌, if◌then◌else◌, Bool-cases, tests, inl, inr, Bool, true, false, not, ==_iff,
  ltb_false→le,
}
use efe_process_monitor.Common.Outcome.{
  ret, Returns, Returns-bind, byte, word, index-ret, be16-ret, slice-ret,
}
use efe_process_monitor.Common.Texts.{Text}
use efe_process_monitor.Dns.Frame.{
  ipv4_header, ipv6_header, udp_header, udp_payload, udp_payload_of_frame,
}

module _ (f : Text) where
  -- A whole UDP datagram of version 4 whose header ends at `udp`, or one of version 6.
  abbrev pub IsHeader : ℕ → Type 0
  IsHeader udp =
      ((byte f 0 / 16 ≡ 4) × (byte f 9 ≡ 17) × (word f 6 % 8192 ≡ 0) × (udp ≡ byte f 0 % 16 * 4))
      ⊎ ((byte f 0 / 16 ≡ 6) × (byte f 6 ≡ 17) × (udp ≡ 40))

  abbrev HeaderFits : Option ℕ → Type 0
  HeaderFits none = Unit
  HeaderFits (some udp) = IsHeader udp

  -- The payload is all that follows the eight bytes of a UDP header from port 53.
  abbrev pub IsPayload : Option Text → Type 0
  IsPayload none = Unit
  IsPayload (some t) =
      (udp : ℕ) × IsHeader udp
      × (word f udp ≡ 53)
      × (udp + 8 ≤ length f)
      × (t ≡ take (length f - (udp + 8)) (drop (udp + 8) f))

  ipv4_header-Returns : byte f 0 / 16 ≡ 4 → Returns HeaderFits (ipv4_header f)
  unfolding ipv4_header
  ipv4_header-Returns v = ground (arith, index-ret f 9, be16-ret f 6, index-ret f 0)

  ipv6_header-Returns : byte f 0 / 16 ≡ 6 → Returns HeaderFits (ipv6_header f)
  unfolding ipv6_header
  ipv6_header-Returns v = ground (arith, index-ret f 6)

  udp_header-Returns : Returns HeaderFits (udp_header f (byte f 0 / 16))
  unfolding udp_header
  udp_header-Returns = ground (arith, ipv4_header-Returns, ipv6_header-Returns)

  from_port :
      (r : Bool) (t : Text)
      → (r ≡ true → IsPayload (some t))
      → Returns IsPayload (ret (if not r then none else some t))
  from_port true t h = h refl
  from_port false t h = tt

  udp_payload-Returns : (o : Option ℕ) → HeaderFits o → Returns IsPayload (udp_payload f o)
  unfolding udp_payload
  udp_payload-Returns none h = tt
  udp_payload-Returns (some udp) h = elim (Bool-cases (ltb (length f) (udp + 8))) [
    | inl short ↦ rw short tt
    | inr long ↦
        rw
          (
            long,
            be16-ret f udp (omega tests),
            slice-ret f (udp + 8) (length f) (omega tests) (omega arith),
          )
          (from_port (word f udp == 53) _
            (λ e. (udp, h, (==_iff (word f udp) 53).0 e, ltb_false→le _ _ long, refl)))
  ]

  udp_payload_of_frame-Returns : Returns IsPayload (udp_payload_of_frame f)
  unfolding udp_payload_of_frame
  udp_payload_of_frame-Returns = elim (Bool-cases (ltb (length f) 1)) [
    | inl short ↦ rw short tt
    | inr long ↦
        rw (long, index-ret f 0 (omega tests))
          (Returns-bind HeaderFits IsPayload (udp_header f (byte f 0 / 16)) (udp_payload f)
            udp_header-Returns udp_payload-Returns)
  ]

-- On every frame udpPayloadOfFrame returns, with no read out of range. What it returns, if not nil,
-- is all that follows the eight bytes of a UDP header whose source port is 53; the header stands
-- at the end of an IPv4 header with the fragment offset 0, or of an IPv6 header, of protocol 17. A
-- first fragment has that offset too.
pub udp_payload_of_frame_lem : (f : Text) → Returns (IsPayload f) (udp_payload_of_frame f)
udp_payload_of_frame_lem f = udp_payload_of_frame-Returns f
