-- ===== src/Dns/Answers/RoundTrip.antt =====
-- parseDNSAnswers on whole responses in wire format.
use efe_process_monitor.Common.{
  ℕ, ◌+◌, ◌/◌, ◌%◌, ◌≤◌, ◌<◌, ◌≡◌, refl, ap, ◌∙◌, true, false, some, List, [], ◌∷◌, length, map,
  arith, drop, All, ltb,
}
use efe_process_monitor.Common.Outcome.{ret, be16}
use efe_process_monitor.Common.Texts.{Text, join}
use efe_process_monitor.Dns.Name.Wire.{
  encode_labels, encoded_size, IsLabel, dot, drop-encode_labels,
}
use efe_process_monitor.Dns.Name.RoundTrip.{read_dns_name-encode_labels}
use efe_process_monitor.Dns.Answers.Message.{
  Address, address_bytes, encode_records, answers_at, be16_at, fits_at, drop_at_add,
}
use efe_process_monitor.Dns.Answers.{questions, parse_counts, parse_dns_answers}

-- A successful response: its identifier, the flags of a recursive answer, one question of type A
-- and class IN, and the records.
pub encode_response : ℕ → ℕ → List Text → List Address → Text
encode_response id id' labels rs =
    id
    ∷ id'
    ∷ 129
    ∷ 128
    ∷ 0
    ∷ 1
    ∷ length rs / 256
    ∷ length rs % 256
    ∷ 0
    ∷ 0
    ∷ 0
    ∷ 0
    ∷ encode_labels labels (0 ∷ 0 ∷ 1 ∷ 0 ∷ 1 ∷ encode_records rs [])

module _ (b : Text) (labels : List Text) (rest : Text) (named : All IsLabel labels)
    (few : length labels ≤ 128)
    (question : drop 12 b ≡ encode_labels labels (0 ∷ 0 ∷ 1 ∷ 0 ∷ 1 ∷ rest)) where
  -- The question is read up to the records.
  question_at :
      (questions 1 b true [] 12 ≡ ret (some (join dot labels, 12 + encoded_size labels + 1 + 4)))
      × (drop (12 + encoded_size labels + 1 + 4) b ≡ rest)
  unfolding questions
  question_at =
      let read =
        read_dns_name-encode_labels b 12 labels (0 ∷ 1 ∷ 0 ∷ 1 ∷ rest) named few question in
      let at_end = drop-encode_labels b labels (0 ∷ 0 ∷ 1 ∷ 0 ∷ 1 ∷ rest) 12 question in
      let typed = drop_at_add b (12 + encoded_size labels) 1 at_end in
      let inside =
        fits_at b (12 + encoded_size labels + 1) (0 ∷ 1 ∷ 0 ∷ 1 ∷ []) rest (omega arith) typed in
      let long : ltb (length b) (12 + encoded_size labels + 1 + 4) ≡ false = ground arith in
      (rw read (rw long), drop_at_add b (12 + encoded_size labels + 1) 4 typed)

-- A well-formed response to a question of at most 128 labels, with fewer than 65536 address
-- records named by a pointer to the question, is parsed to the question's name and to the
-- addresses in their order.
pub parse_dns_answers-encode_response :
    (ip_string : Text → Text) (id id' : ℕ) (labels : List Text) (rs : List Address)
    → All IsLabel labels
    → length labels ≤ 128
    → length rs < 65536
    → parse_dns_answers ip_string (encode_response id id' labels rs)
      ≡ ret (join dot labels, map (λ a. ip_string (address_bytes a)) rs)
unfolding parse_dns_answers parse_counts encode_response
parse_dns_answers-encode_response ip_string id id' labels rs named few room =
    let b = encode_response id id' labels rs in
    let (asked, left) = question_at b labels (encode_records rs []) named few refl in
    let count : be16 b 6 ≡ ret (length rs) = be16_at b 6 refl ∙ ap ret (omega arith) in
    let found =
      answers_at b ip_string labels (0 ∷ 1 ∷ 0 ∷ 1 ∷ encode_records rs []) named few refl rs []
        (12 + encoded_size labels + 1 + 4) [] left in
    let long : ltb (length b) 12 ≡ false = ground arith in
    rw (long, be16_at b 2 refl, be16_at b 4 refl, count) (rw asked (rw found))
