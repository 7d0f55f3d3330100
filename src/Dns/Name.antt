-- ===== src/Dns/Name.antt =====
-- dns.go: readDNSName, over the bytes of a message.
-- An index out of range is `crash`, as a panic is in Go, and so is the end of the fuel.
pub mod Total
pub mod Range
pub mod Wire
pub mod RoundTrip
use efe_process_monitor.Common.{
  ℕ, zero, suc, ◌+◌, ◌*◌, ◌/◌, ◌%◌, Bool, true, false, ◌&&◌, ◌||◌, not, Option, none, some, List,
  [], ◌∷◌, ◌++◌, length, ltb, leb, ◌==◌, if◌then◌else◌,
}
use efe_process_monitor.Common.Outcome.{Outcome, ret, crash, ◌>>=◌, index, slice, be16}
use efe_process_monitor.Common.Texts.{Text, join}

-- The variables of the loop of readDNSName; `end` is -1 in Go where it is `none` here.
pub record NameState : Type 0 where
  pub off : ℕ
  pub labels : List Text
  pub end : Option ℕ
  pub jumps : ℕ

-- One round of the loop: it goes on, or returns a name with its end, or returns false.
pub data NameStep : Type 0 where
  next : NameState → NameStep
  found : Text → ℕ → NameStep
  malformed : NameStep

abbrev pub end_or : Option ℕ → ℕ → ℕ
end_or none d = d
end_or (some e) d = e

-- case l&0xC0 == 0xC0
pub pointer_step : Text → NameState → Outcome NameStep
pointer_step b s = if leb (length b) (s.off + 1) then ret malformed else do
  v ← be16 b s.off
  let ptr = v % 16384
  let s' = record s { off = ptr; end = some (end_or s.end (s.off + 2)); jumps = s.jumps + 1 }
  ret (if ltb 16 (s.jumps + 1) || leb (length b) ptr then malformed else next s')

-- the default case, for a label of l bytes
pub label_step : Text → NameState → ℕ → Outcome NameStep
label_step b s l =
    if ltb (length b) (s.off + 1 + l) || ltb 127 (length s.labels) then ret malformed else do
      t ← slice b (s.off + 1) (s.off + 1 + l)
      ret (next (record s { off = s.off + 1 + l; labels = s.labels ++ t ∷ [] }))

-- the switch on the length byte
pub length_step : Text → NameState → ℕ → Outcome NameStep
length_step b s l =
    if l == 0
    then ret (found (join (b'.' ∷ []) s.labels) (end_or s.end (s.off + 1)))
    else if (l / 64) % 4 == 3
    then pointer_step b s
    else if ltb 63 l
    then ret malformed
    else label_step b s l

pub name_step : Text → NameState → Outcome NameStep
name_step b s =
    if leb (length b) s.off then ret malformed else do l ← index b s.off; length_step b s l

-- What readDNSName returns: the name with its end, or `none` for "", 0, false.
abbrev pub NameResult : Type 0
NameResult = Option (Text × ℕ)

-- What follows a round: the next one, given as a function, or the result.
abbrev pub then_loop : (NameState → Outcome NameResult) → Outcome NameStep → Outcome NameResult
then_loop again crash = crash
then_loop again (ret (next s)) = again s
then_loop again (ret (found n e)) = ret (some (n, e))
then_loop again (ret malformed) = ret none

pub name_loop : ℕ → Text → NameState → Outcome NameResult
name_loop zero b s = crash
name_loop (suc fuel) b s = then_loop (name_loop fuel b) (name_step b s)

abbrev pub name_start : ℕ → NameState
name_start off = record { off = off; labels = []; end = none; jumps = 0 }

-- At most 16 jumps and 128 labels, and the round that returns.
abbrev pub name_fuel : ℕ
name_fuel = 145

pub read_dns_name : Text → ℕ → Outcome NameResult
read_dns_name b off = name_loop name_fuel b (name_start off)
