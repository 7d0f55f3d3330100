-- ===== src/Tests/Dns.antt =====
-- DNS messages: a query for ab.c, a response to it, and a frame around it.
use efe_process_monitor.Common.{◌+◌, ◌≡◌, refl, some, [], ◌∷◌, ◌++◌, List, map, All, arith}
use efe_process_monitor.Common.Outcome.{ret, Returns}
use efe_process_monitor.Common.Texts.{Text, join, codes}
use efe_process_monitor.Dns.Name.{NameResult, read_dns_name}
use efe_process_monitor.Dns.Name.Total.{read_dns_name-total}
use efe_process_monitor.Dns.Name.Wire.{encode_labels, encoded_size, IsLabel, dot}
use efe_process_monitor.Dns.Name.RoundTrip.{read_dns_name-compressed}
use efe_process_monitor.Dns.Answers.{parse_dns_answers}
use efe_process_monitor.Dns.Answers.Total.{Addresses, parse_dns_answers-Returns}
use efe_process_monitor.Dns.Answers.Message.{Address, address_bytes, v4}
use efe_process_monitor.Dns.Answers.RoundTrip.{encode_response, parse_dns_answers-encode_response}
use efe_process_monitor.Dns.Frame.{udp_payload_of_frame}
use efe_process_monitor.Dns.Frame.Payload.{IsPayload, udp_payload_of_frame_lem}
use efe_process_monitor.Tests.Samples.{same_text}

abbrev names : List Text
names = codes "ab" ∷ codes "c" ∷ []

names_short : All IsLabel names
names_short = ((omega arith, omega arith), ((omega arith, omega arith), tt))

-- ab.c at 0, and w followed by a pointer to it at 6.
abbrev message : Text
message = 2 ∷ 97 ∷ 98 ∷ 1 ∷ 99 ∷ 0 ∷ 1 ∷ 119 ∷ 192 ∷ 0 ∷ []

read_dns_name-total_example : (r : NameResult) × (read_dns_name message 6 ≡ ret r)
read_dns_name-total_example = read_dns_name-total message 6

read_dns_name-compressed_example :
    read_dns_name message 6
    ≡ ret (some (join dot ((codes "w" ∷ []) ++ names), 6 + encoded_size (codes "w" ∷ []) + 2))
unfolding encode_labels
read_dns_name-compressed_example =
    read_dns_name-compressed message 6 0 (codes "w" ∷ []) names [] (1 ∷ 119 ∷ 192 ∷ 0 ∷ [])
      ((omega arith, omega arith), tt) names_short (omega arith) refl refl (omega arith)
      (omega arith)

parse_dns_answers-Returns_example :
    Returns (Addresses same_text message) (parse_dns_answers same_text message)
parse_dns_answers-Returns_example = parse_dns_answers-Returns same_text message

abbrev addresses : List Address
addresses = v4 192 0 2 1 ∷ v4 192 0 2 2 ∷ []

parse_dns_answers-encode_response_example :
    parse_dns_answers same_text (encode_response 7 7 names addresses)
    ≡ ret (join dot names, map (λ a. same_text (address_bytes a)) addresses)
parse_dns_answers-encode_response_example =
    parse_dns_answers-encode_response same_text 7 7 names addresses names_short (omega arith)
      (omega arith)

-- IPv4, 20 bytes of header, UDP from port 53, and two bytes of payload.
abbrev frame : Text
frame =
    69 ∷ 0 ∷ 0 ∷ 30 ∷ 0 ∷ 0 ∷ 0 ∷ 0 ∷ 64 ∷ 17 ∷ 0 ∷ 0 ∷ 192 ∷ 0 ∷ 2 ∷ 1 ∷ 192 ∷ 0 ∷ 2 ∷ 2 ∷ 0 ∷ 53
    ∷ 4 ∷ 0 ∷ 0 ∷ 10 ∷ 0 ∷ 0 ∷ 5 ∷ 6 ∷ []

udp_payload_of_frame_lem_example : Returns (IsPayload frame) (udp_payload_of_frame frame)
udp_payload_of_frame_lem_example = udp_payload_of_frame_lem frame
