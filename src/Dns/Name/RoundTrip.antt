-- ===== src/Dns/Name/RoundTrip.antt =====
-- readDNSName on names in wire format: plain, compressed, and pointing at themselves.
use efe_process_monitor.Common.{
  ℕ, zero, suc, ◌+◌, ◌-◌, ◌≤◌, ◌<◌, ◌≡◌, refl, ap, ◌∙◌, none, some, List, ◌∷◌, ◌++◌, length,
  length-append, arith, drop, All,
}
use efe_process_monitor.Common.Outcome.{ret}
use efe_process_monitor.Common.Texts.{Text, join}
use efe_process_monitor.Dns.Name.{NameState, end_or, name_loop, name_start, read_dns_name}
use efe_process_monitor.Dns.Name.Wire.{
  encode_labels, encoded_size, pointer_to, IsLabel, dot, rounds, rounds_lem, after_labels,
  name_loop-labels, name_step-end, name_step-jumps_spent, name_step-pointer, drop-cons,
}

-- A plain name: labels and the closing zero.
name_loop-plain :
    (b : Text) (ts : List Text) (rest : Text) (fuel : ℕ) (s : NameState)
    → All IsLabel ts
    → drop s.off b ≡ encode_labels ts (0 ∷ rest)
    → length s.labels + length ts ≤ 128
    → name_loop (rounds ts (suc fuel)) b s
      ≡ ret (some (join dot (s.labels ++ ts), end_or s.end (s.off + encoded_size ts + 1)))
unfolding name_loop
name_loop-plain b ts rest fuel s h d few =
    let (walk, left) = name_loop-labels b ts (0 ∷ rest) (suc fuel) s h d few in
    walk ∙ rw (name_step-end b (after_labels s ts) rest left)

with_fuel :
    (b : Text) (s : NameState) (ts : List Text) (g : ℕ)
    → 145 ≡ length ts + g
    → name_loop 145 b s ≡ name_loop (rounds ts g) b s
with_fuel b s ts g e = ap (λ f. name_loop f b s) (omega (arith, rounds_lem ts g))

-- A name of at most 128 labels of 1 to 63 bytes, written plainly at any offset of a message, is
-- read back: the labels joined by dots, and the offset just past the closing zero.
pub read_dns_name-encode_labels :
    (b : Text) (off : ℕ) (ts : List Text) (rest : Text)
    → All IsLabel ts
    → length ts ≤ 128
    → drop off b ≡ encode_labels ts (0 ∷ rest)
    → read_dns_name b off ≡ ret (some (join dot ts, off + encoded_size ts + 1))
unfolding read_dns_name
read_dns_name-encode_labels b off ts rest h few d =
    with_fuel b (name_start off) ts (suc (144 - length ts)) (omega arith)
    ∙ name_loop-plain b ts rest (144 - length ts) (name_start off) h d (omega arith)

name_loop-compressed :
    (b : Text) (ts us : List Text) (p : ℕ) (rest rest' : Text) (fuel : ℕ) (s : NameState)
    → All IsLabel ts
    → All IsLabel us
    → drop s.off b ≡ encode_labels ts (pointer_to p rest)
    → drop p b ≡ encode_labels us (0 ∷ rest')
    → p < 16384
    → p < length b
    → s.jumps < 16
    → length s.labels + (length ts + length us) ≤ 128
    → name_loop (rounds ts (suc (rounds us (suc fuel)))) b s
      ≡ ret (some (join dot ((s.labels ++ ts) ++ us), end_or s.end (s.off + encoded_size ts + 2)))
unfolding name_loop
name_loop-compressed b ts us p rest rest' fuel s h g d d' small inside few room =
    let (walk, left) =
      name_loop-labels b ts (pointer_to p rest) (suc (rounds us (suc fuel))) s h d (omega arith) in
    let t = after_labels s ts in
    let t' = record t { off = p; end = some (end_or t.end (t.off + 2)); jumps = t.jumps + 1 } in
    let more = length-append s.labels ts in
    walk
    ∙ rw (name_step-pointer b t p rest left small inside few)
        (name_loop-plain b us rest' fuel t' g d' (omega arith))

-- A compressed name, labels and then a pointer to a plain name anywhere in the message, is read as
-- the labels of both, at most 128; the offset returned is just past the pointer's two bytes.
pub read_dns_name-compressed :
    (b : Text) (off p : ℕ) (ts us : List Text) (rest rest' : Text)
    → All IsLabel ts
    → All IsLabel us
    → length ts + length us ≤ 128
    → drop off b ≡ encode_labels ts (pointer_to p rest)
    → drop p b ≡ encode_labels us (0 ∷ rest')
    → p < 16384
    → p < length b
    → read_dns_name b off ≡ ret (some (join dot (ts ++ us), off + encoded_size ts + 2))
unfolding read_dns_name
read_dns_name-compressed b off p ts us rest rest' h g few d d' small inside =
    let k = 143 - length ts - length us in
    with_fuel b (name_start off) ts (suc (rounds us (suc k))) (omega (arith, rounds_lem us (suc k)))
    ∙ name_loop-compressed b ts us p rest rest' k (name_start off) h g d d' small inside
        (omega arith) (omega arith)

name_loop_self :
    (k fuel : ℕ) (b : Text) (s : NameState) (rest : Text)
    → s.jumps + k ≡ 16
    → k < fuel
    → drop s.off b ≡ pointer_to s.off rest
    → s.off < 16384
    → name_loop fuel b s ≡ ret none
unfolding name_loop
name_loop_self zero zero b s rest j f d small = elim f [ ]
name_loop_self (suc k) zero b s rest j f d small = elim f [ ]
name_loop_self zero (suc fuel) b s rest j f d small =
    rw (name_step-jumps_spent b s s.off rest d small (omega arith))
name_loop_self (suc k) (suc fuel) b s rest j f d small =
    let t = record s { off = s.off; end = some (end_or s.end (s.off + 2)); jumps = s.jumps + 1 } in
    let (lt, first, after) = drop-cons b s.off d in
    rw (name_step-pointer b s s.off rest d small lt (omega arith))
      (name_loop_self k fuel b t rest (omega arith) (omega arith) d small)

-- A compression pointer to itself is refused as malformed: it does not spin.
pub read_dns_name_self :
    (b : Text) (off : ℕ) (rest : Text)
    → drop off b ≡ pointer_to off rest
    → off < 16384
    → read_dns_name b off ≡ ret none
unfolding read_dns_name
read_dns_name_self b off rest d small =
    name_loop_self 16 145 b (name_start off) rest refl (omega arith) d small
