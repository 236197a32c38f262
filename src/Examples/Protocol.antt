-- ===== src/Examples/Protocol.antt =====
-- Frames of both planes.
use looplink.Base.{◌≡◌, some, true, [], ◌∷◌, arith}
use looplink.Text.{codes}
use looplink.Frames.{object, ok}
use looplink.Forwarding.{response_start, many}
use looplink.Protocol.{ProtocolMessage, create_tunnel_message, http_message, parse_protocol_message}
use looplink.Protocol.Laws
use looplink.Protocol.Laws.{IsValid, fields_of}
use looplink.Protocol.Sound

abbrev sent : ProtocolMessage
sent = create_tunnel_message (codes "r1") 3000 (some (codes "t1"))

sent-IsValid : IsValid sent
sent-IsValid = (λ p. ground arith, omega arith, omega arith, λ p. ground arith)

abbrev answered : ProtocolMessage
answered = http_message (
    response_start (record { request_id = codes "r2"; tunnel_id = codes "t1" })
      (record {
        status_code = 200;
        headers = (codes "vary", many (codes "accept" ∷ codes "origin" ∷ [])) ∷ [];
        set_cookies = [];
        has_body = true;
      }))

answered-IsValid : IsValid answered
answered-IsValid = ((λ p. ground arith, λ p. ground arith), omega arith)

parse-fields_of_example : parse_protocol_message (object (fields_of answered)) ≡ ok answered
parse-fields_of_example = Laws.parse-fields_of answered answered-IsValid

parse-IsValid_example : IsValid sent
parse-IsValid_example =
    Sound.parse-IsValid (object (fields_of sent)) sent (Laws.parse-fields_of sent sent-IsValid)
