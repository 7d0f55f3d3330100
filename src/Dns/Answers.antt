-- ===== src/Dns/Answers.antt =====
-- dns.go: parseDNSAnswers. `ip_string` is net.IP's String, over the 4 or 16 bytes of an address.
pub mod Total
pub mod Message
pub mod RoundTrip
use efe_process_monitor.Common.{
  ℕ, zero, suc, ◌+◌, ◌/◌, ◌%◌, Bool, true, false, not, ◌&&◌, ◌||◌, Option, none, some, List, [],
  ◌∷◌, ◌++◌, length, ltb, ◌==◌, if◌then◌else◌,
}
use efe_process_monitor.Common.Outcome.{Outcome, ret, crash, ◌>>=◌, slice, be16}
use efe_process_monitor.Common.Texts.{Text}
use efe_process_monitor.Dns.Name.{NameResult, read_dns_name}

-- The first loop. The flag is i == 0; `none` stands for the early return of "", nil.
abbrev pub then_question :
    Text → Text → Bool → (Text → ℕ → Outcome NameResult) → Outcome NameResult → Outcome NameResult
then_question b qname first again crash = crash
then_question b qname first again (ret none) = ret none
then_question b qname first again (ret (some (name, next))) =
    if ltb (length b) (next + 4) then ret none else again (if first then name else qname) (next + 4)

pub questions : ℕ → Text → Bool → Text → ℕ → Outcome NameResult
questions zero b first qname off = ret (some (qname, off))
questions (suc n) b first qname off =
    then_question b qname first (questions n b false) (read_dns_name b off)

-- flags&0x8000 is bit 15, and flags&0x000f the four low bits.
abbrev pub is_refused : ℕ → Bool
is_refused flags = (flags / 32768) % 2 == 0 || not (flags % 16 == 0)

module _ (ip_string : Text → Text) where
  pub add_address : Text → ℕ → ℕ → List Text → Outcome (List Text)
  add_address b off size ips = do t ← slice b off (off + size); ret (ips ++ ip_string t ∷ [])

  -- The switch on the record's type and length: the addresses so far, and perhaps one more.
  pub take_address : Text → ℕ → ℕ → ℕ → List Text → Outcome (List Text)
  take_address b typ rdlen off ips =
      if typ == 1 && rdlen == 4
      then add_address b off 4 ips
      else if typ == 28 && rdlen == 16
      then add_address b off 16 ips
      else ret ips

  -- The data of one record, of which type and length are known.
  pub record_data :
      Text → ℕ → List Text → (List Text → ℕ → Outcome (List Text)) → ℕ → ℕ → Outcome (List Text)
  record_data b next ips again typ rdlen =
      if ltb (length b) (next + 10 + rdlen)
      then ret ips
      else do ips' ← take_address b typ rdlen (next + 10) ips; again ips' (next + 10 + rdlen)

  -- The fixed part of one record, once its name has been read up to `next`.
  pub read_record :
      Text → ℕ → List Text → (List Text → ℕ → Outcome (List Text)) → Outcome (List Text)
  read_record b next ips again =
      if ltb (length b) (next + 10)
      then ret ips
      else do typ ← be16 b next; rdlen ← be16 b (next + 8); record_data b next ips again typ rdlen

  abbrev pub then_record :
      Text
      → List Text
      → (List Text → ℕ → Outcome (List Text))
      → Outcome NameResult
      → Outcome (List Text)
  then_record b ips again crash = crash
  then_record b ips again (ret none) = ret ips
  then_record b ips again (ret (some (name, next))) = read_record b next ips again

  -- The second loop; a break returns the addresses found so far.
  pub answers : ℕ → Text → List Text → ℕ → Outcome (List Text)
  answers zero b ips off = ret ips
  answers (suc n) b ips off = then_record b ips (answers n b) (read_dns_name b off)

  abbrev pub then_answers : ℕ → Text → NameResult → Outcome (Text × List Text)
  then_answers an b none = ret ([], [])
  then_answers an b (some (qname, off)) = do ips ← answers an b [] off; ret (qname, ips)

  -- What follows the test on the flags.
  pub parse_counts : Text → Outcome (Text × List Text)
  parse_counts b = do
    qd ← be16 b 4
    an ← be16 b 6
    q ← questions qd b true [] 12
    then_answers an b q

  pub parse_dns_answers : Text → Outcome (Text × List Text)
  parse_dns_answers b =
      if ltb (length b) 12
      then ret ([], [])
      else do flags ← be16 b 2; (if is_refused flags then ret ([], []) else parse_counts b)
