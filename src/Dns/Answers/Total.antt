-- ===== src/Dns/Answers/Total.antt =====
-- parseDNSAnswers on any bytes: it returns, and each address comes from 4 or 16 of them.
use efe_process_monitor.Common.{
  ℕ, zero, suc, ◌+◌, ◌-◌, ◌≤◌, ◌<◌, ◌≡◌, ◌⊎◌, inl, inr, refl, Bool, true, false, none, some, List,
  [], ◌∷◌, length, length-take, drop-length, arith, take, drop, All, All-append, ltb, if◌then◌else◌,
  Bool-cases, tests,
}
use efe_process_monitor.Common.Outcome.{
  Outcome, ret, crash, be16-ret, slice-ret, word, Returns, Returns-bind,
}
use efe_process_monitor.Common.Texts.{Text}
use efe_process_monitor.Dns.Name.{NameResult, read_dns_name}
use efe_process_monitor.Dns.Name.Total.{read_dns_name-total}
use efe_process_monitor.Dns.Answers.{
  questions, then_question, add_address, take_address, record_data, read_record, then_record,
  parse_counts, is_refused, answers, then_answers, parse_dns_answers,
}

abbrev Any {ℓ} : {A : Type ℓ} → A → Type 0
Any a = Unit

then_question-Returns :
    (b qname : Text) (first : Bool) (again : Text → ℕ → Outcome NameResult) (o : Outcome NameResult)
    → ((name : Text) (next : ℕ) → Returns Any (again name next))
    → Returns Any o
    → Returns Any (then_question b qname first again o)
then_question-Returns b qname first again crash ih h = absurd h
then_question-Returns b qname first again (ret none) ih h = tt
then_question-Returns b qname first again (ret (some (name, next))) ih h =
    ground (arith, ih (if first then name else qname) (next + 4))

read_dns_name-Returns : (b : Text) (off : ℕ) → Returns Any (read_dns_name b off)
read_dns_name-Returns b off = let (r, e) = read_dns_name-total b off in rw e tt

questions-Returns :
    (n : ℕ) (b : Text) (first : Bool) (qname : Text) (off : ℕ)
    → Returns Any (questions n b first qname off)
unfolding questions
questions-Returns zero b first qname off = tt
questions-Returns (suc n) b first qname off =
    then_question-Returns b qname first (questions n b false) (read_dns_name b off)
      (questions-Returns n b false) (read_dns_name-Returns b off)

module _ (ip_string : Text → Text) where
  -- The address is the text of 4 or 16 bytes.
  abbrev pub IsAddress : Text → Type 0
  IsAddress ip = (t : Text) × (ip ≡ ip_string t) × ((length t ≡ 4) ⊎ (length t ≡ 16))

  module _ (b : Text) where
    add_address-Returns :
        (off size : ℕ) (ips : List Text)
        → off + size ≤ length b
        → (size ≡ 4) ⊎ (size ≡ 16)
        → All IsAddress ips
        → Returns (All IsAddress) (add_address ip_string b off size ips)
    unfolding add_address
    add_address-Returns off size ips fits four h =
        let t = take (off + size - off) (drop off b) in
        let full : length t ≡ size =
          omega (arith, length-take (off + size - off) (drop off b), drop-length b off) in
        rw (slice-ret b off (off + size) (omega arith) fits)
          (All-append IsAddress ips (ip_string t ∷ []) h ((t, refl, omega arith), tt))

    take_address-Returns :
        (typ rdlen off : ℕ) (ips : List Text)
        → off + rdlen ≤ length b
        → All IsAddress ips
        → Returns (All IsAddress) (take_address ip_string b typ rdlen off ips)
    unfolding take_address
    take_address-Returns typ rdlen off ips fits h = ground (
      arith,
      λ (e : rdlen ≡ 4). add_address-Returns off 4 ips (omega arith) (inl refl) h,
      λ (e : rdlen ≡ 16). add_address-Returns off 16 ips (omega arith) (inr refl) h,
    )

    module _ (again : List Text → ℕ → Outcome (List Text))
        (ih : (ips : List Text) (off : ℕ)
          → All IsAddress ips
          → Returns (All IsAddress) (again ips off))
        (ips : List Text) (h : All IsAddress ips) where
      record_data-Returns :
          (next typ rdlen : ℕ)
          → Returns (All IsAddress) (record_data ip_string b next ips again typ rdlen)
      unfolding record_data
      record_data-Returns next typ rdlen = elim (Bool-cases (ltb (length b) (next + 10 + rdlen))) [
        | inl short ↦ rw short h
        | inr whole ↦ rw whole (
            Returns-bind (All IsAddress) (All IsAddress)
              (take_address ip_string b typ rdlen (next + 10) ips)
              (λ ips'. again ips' (next + 10 + rdlen))
              (take_address-Returns typ rdlen (next + 10) ips (omega tests) h)
              (λ ips' h'. ih ips' (next + 10 + rdlen) h'))
      ]

      read_record-Returns :
          (next : ℕ) → Returns (All IsAddress) (read_record ip_string b next ips again)
      unfolding read_record
      read_record-Returns next = elim (Bool-cases (ltb (length b) (next + 10))) [
        | inl short ↦ rw short h
        | inr whole ↦
            rw (whole, be16-ret b next (omega tests), be16-ret b (next + 8) (omega tests))
              (record_data-Returns next (word b next) (word b (next + 8)))
      ]

      then_record-Returns :
          (o : Outcome NameResult)
          → Returns Any o
          → Returns (All IsAddress) (then_record ip_string b ips again o)
      then_record-Returns crash r = absurd r
      then_record-Returns (ret none) r = h
      then_record-Returns (ret (some (name, next))) r = read_record-Returns next

    answers-Returns :
        (n : ℕ) (ips : List Text) (off : ℕ)
        → All IsAddress ips
        → Returns (All IsAddress) (answers ip_string n b ips off)
    unfolding answers
    answers-Returns zero ips off h = h
    answers-Returns (suc n) ips off h =
        then_record-Returns (answers ip_string n b) (answers-Returns n) ips h (read_dns_name b off)
          (read_dns_name-Returns b off)

    abbrev pub Addresses : Text × List Text → Type 0
    Addresses (name, ips) = All IsAddress ips

    then_answers-Returns :
        (n : ℕ) (o : NameResult) → Returns Addresses (then_answers ip_string n b o)
    then_answers-Returns n none = tt
    then_answers-Returns n (some (qname, off)) =
        Returns-bind (All IsAddress) Addresses (answers ip_string n b [] off)
          (λ ips. ret (qname, ips)) (answers-Returns n [] off tt) (λ ips h. h)

    parse_counts-Returns : 11 < length b → Returns Addresses (parse_counts ip_string b)
    unfolding parse_counts
    parse_counts-Returns long =
        rw (be16-ret b 4 (omega arith), be16-ret b 6 (omega arith))
          (Returns-bind Any Addresses (questions (word b 4) b true [] 12)
            (then_answers ip_string (word b 6) b) (questions-Returns (word b 4) b true [] 12)
            (λ q h. then_answers-Returns (word b 6) q))

    refused_or :
        (r : Bool)
        → Returns Addresses (parse_counts ip_string b)
        → Returns Addresses (if r then ret ([], []) else parse_counts ip_string b)
    refused_or true h = tt
    refused_or false h = h

    -- On every message parseDNSAnswers returns: no read is out of range and every loop ends. Each
    -- address that it returns is the text of 4 or 16 bytes.
    pub parse_dns_answers-Returns : Returns Addresses (parse_dns_answers ip_string b)
    unfolding parse_dns_answers
    parse_dns_answers-Returns = elim (Bool-cases (ltb (length b) 12)) [
      | inl short ↦ rw short tt
      | inr long ↦
          rw (long, be16-ret b 2 (omega tests))
            (refused_or (is_refused (word b 2)) (parse_counts-Returns (omega tests)))
    ]
