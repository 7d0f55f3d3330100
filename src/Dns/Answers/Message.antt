-- ===== src/Dns/Answers/Message.antt =====
-- Responses in wire format: one question, and A and AAAA records whose names are pointers to it,
-- with the loop of parseDNSAnswers over such records.
use efe_process_monitor.Common.{
  ℕ, ◌+◌, ◌*◌, ◌≤◌, ◌<◌, ◌≡◌, sym, ap, ◌∙◌, false, List, [], ◌∷◌, ◌++◌, length, map, length-append,
  drop-length, drop_at, drop_add, drop-append, take-append, arith, take, drop, All, ltb,
  append_assoc, append-nil,
}
use efe_process_monitor.Common.Outcome.{Outcome, ret, be16-ret, slice-ret, be16, slice}
use efe_process_monitor.Common.Texts.{Text}
use efe_process_monitor.Dns.Name.Wire.{encode_labels, encoded_size, pointer_to, IsLabel, drop-cons}
use efe_process_monitor.Dns.Name.RoundTrip.{read_dns_name-compressed}
use efe_process_monitor.Dns.Answers.{add_address, take_address, record_data, read_record, answers}

-- The address of a record, and its bytes.
pub data Address : Type 0 where
  v4 : ℕ → ℕ → ℕ → ℕ → Address
  v6 : (t : Text) → length t ≡ 16 → Address

abbrev pub address_bytes : Address → Text
address_bytes (v4 a b c d) = a ∷ b ∷ c ∷ d ∷ []
address_bytes (v6 t e) = t

abbrev pub record_type : Address → ℕ
record_type (v4 a b c d) = 1
record_type (v6 t e) = 28

-- Records with the name of the question, of class IN and with a time to live of 60 seconds.
unfoldable pub encode_records : List Address → Text → Text
encode_records [] rest = rest
encode_records (a ∷ more) rest = pointer_to 12 (
    0
    ∷ record_type a
    ∷ 0
    ∷ 1
    ∷ 0
    ∷ 0
    ∷ 0
    ∷ 60
    ∷ 0
    ∷ length (address_bytes a)
    ∷ (address_bytes a ++ encode_records more rest))

encode_labels_pos : (ts : List Text) (r : Text) → 0 < length (encode_labels ts (0 ∷ r))
unfolding encode_labels
encode_labels_pos [] r = omega arith
encode_labels_pos (t ∷ ts) r = omega arith

module _ (b : Text) where
  pub be16_at : (i : ℕ) {x y : ℕ} {r : Text} → drop i b ≡ x ∷ (y ∷ r) → be16 b i ≡ ret (x * 256 + y)
  be16_at i d =
      let (lt, first, after) = drop-cons b i d in
      let (lt', second, after') = drop-cons b (i + 1) after in ground (arith, be16-ret b i)

  -- A word below 256.
  pub be16_low : (i : ℕ) {y : ℕ} {r : Text} → drop i b ≡ 0 ∷ (y ∷ r) → be16 b i ≡ ret y
  be16_low i {y} d = be16_at i d ∙ ap ret {y = y} (omega arith)

  pub drop_at_add : (i k : ℕ) {t : Text} → drop i b ≡ t → drop (i + k) b ≡ drop k t
  drop_at_add i k d = drop_add b i k ∙ ap (drop k) d

  -- A text that stands at an offset fits the message.
  pub fits_at : (i : ℕ) (t r : Text) → 0 < length t → drop i b ≡ t ++ r → i + length t ≤ length b
  fits_at i t r h d = omega (arith, ap length d, length-append t r, drop-length b i)

  slice_at :
      (i : ℕ) (t r : Text) → 0 < length t → drop i b ≡ t ++ r → slice b i (i + length t) ≡ ret t
  slice_at i t r h d =
      slice-ret b i (i + length t) (omega arith) (fits_at i t r h d)
      ∙ ap (λ n. ret (take n (drop i b))) {y = length t} (omega arith)
      ∙ ap (λ u. ret (take (length t) u)) d
      ∙ ap ret (take-append t r)

  module _ (ip_string : Text → Text) where
    add_address_at :
        (i : ℕ) (t r : Text) (ips : List Text)
        → 0 < length t
        → drop i b ≡ t ++ r
        → add_address ip_string b i (length t) ips ≡ ret (ips ++ ip_string t ∷ [])
    unfolding add_address
    add_address_at i t r ips h d = rw (slice_at i t r h d)

    take_address_at :
        (a : Address) (i : ℕ) (r : Text) (ips : List Text)
        → drop i b ≡ address_bytes a ++ r
        → take_address ip_string b (record_type a) (length (address_bytes a)) i ips
          ≡ ret (ips ++ ip_string (address_bytes a) ∷ [])
    unfolding take_address
    take_address_at (v4 x y z w) i r ips d =
        add_address_at i (x ∷ y ∷ z ∷ w ∷ []) r ips (omega arith) d
    take_address_at (v6 t e) i r ips d = rw e (rw e at (add_address_at i t r ips (omega arith) d))

    address_fits :
        (a : Address) (i : ℕ) (r : Text)
        → drop i b ≡ address_bytes a ++ r
        → i + length (address_bytes a) ≤ length b
    address_fits (v4 x y z w) i r d = fits_at i (x ∷ y ∷ z ∷ w ∷ []) r (omega arith) d
    address_fits (v6 t e) i r d = fits_at i t r (omega arith) d

    read_record_at :
        (a : Address) (next : ℕ) (r : Text) (ips : List Text)
        (again : List Text → ℕ → Outcome (List Text))
        → drop next b
          ≡ 0
            ∷ record_type a
            ∷ 0
            ∷ 1
            ∷ 0
            ∷ 0
            ∷ 0
            ∷ 60
            ∷ 0
            ∷ length (address_bytes a)
            ∷ (address_bytes a ++ r)
        → read_record ip_string b next ips again
          ≡ again (ips ++ ip_string (address_bytes a) ∷ []) (next + 10 + length (address_bytes a))
    unfolding read_record record_data
    read_record_at a next r ips again d =
        let size = length (address_bytes a) in
        let d' : drop (next + 10) b ≡ address_bytes a ++ r = drop_at_add next 10 d in
        let (lt, first, after) = drop-cons b (next + 9) (drop_at_add next 9 d) in
        let long : ltb (length b) (next + 10) ≡ false = ground arith in
        let whole : ltb (length b) (next + 10 + size) ≡ false =
          ground (arith, address_fits a (next + 10) r d') in
        rw (long, be16_low next d, be16_low (next + 8) (drop_at_add next 8 d))
          (rw whole (rw (take_address_at a (next + 10) r ips d')))

    -- The loop over the records, with the question's name at offset 12.
    module _ (labels : List Text) (rest : Text) (named : All IsLabel labels)
        (few : length labels ≤ 128) (question : drop 12 b ≡ encode_labels labels (0 ∷ rest)) where
      pub answers_at :
          (rs : List Address) (ips : List Text) (off : ℕ) (tail : Text)
          → drop off b ≡ encode_records rs tail
          → answers ip_string (length rs) b ips off
            ≡ ret (ips ++ map (λ a. ip_string (address_bytes a)) rs)
      unfolding answers encode_records encode_labels encoded_size
      answers_at [] ips off tail d = ap ret (sym (append-nil ips))
      answers_at (a ∷ rs) ips off tail d =
          let inside : 12 < length b =
            omega (arith, ap length question, drop-length b 12, encode_labels_pos labels rest) in
          let read =
            read_dns_name-compressed b off 12 [] labels (drop 2 (encode_records (a ∷ rs) tail)) rest
              tt named (omega arith) d question (omega arith) inside in
          let bytes = address_bytes a in
          let next : off + 0 + 2 ≡ off + 2 = omega arith in
          let d' = drop_at b next ∙ drop_at_add off 2 d in
          let step =
            read_record_at a (off + 0 + 2) (encode_records rs tail) ips
              (answers ip_string (length rs) b) d' in
          let left : drop (off + 0 + 2 + 10 + length bytes) b ≡ encode_records rs tail =
            drop_at_add (off + 0 + 2 + 10) (length bytes) (drop_at_add (off + 0 + 2) 10 d')
            ∙ drop-append bytes (encode_records rs tail) in
          rw read (
            step
            ∙ answers_at rs (ips ++ ip_string bytes ∷ []) (off + 0 + 2 + 10 + length bytes) tail
                left
            ∙ ap ret (
                append_assoc ips (ip_string bytes ∷ [])
                  (map (λ a. ip_string (address_bytes a)) rs)))
