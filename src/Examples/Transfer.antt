-- ===== src/Examples/Transfer.antt =====
-- A request whose frames arrive among those of another one, and a response.
use looplink.Base.{
  ◌<◌, ◌≤◌, length, All, ℕ, ◌≡◌, refl, false, ◌++◌, none, some, List, [], ◌∷◌, keep,
}
use looplink.JsMap
use looplink.Text.{Text, codes, text_key, text_dec}
use looplink.Forwarding.{HttpMessage, BodyEncoding, Meta, post, request_end, cancel}
use looplink.Exchanges.Entry.{Bytes}
use looplink.Bodies.{
  send_request_frames, stream_response, joined, split_bytes, split_from, chunk_frames,
  encode_body_chunk,
}
use looplink.Bodies.Responses
use looplink.Bodies.Laws as BodyLaws
use looplink.RequestForwarder.{forwarder, handle_all}
use looplink.RequestForwarder.Gathering
use looplink.RequestForwarder.Gathering.{of_request, of_local, sent_request}

-- The text of bytes is the list of them.
abbrev as_text : Bytes → Text
as_text bytes = bytes

abbrev as_bytes : BodyEncoding → Text → Bytes
as_bytes encoding text = text

abbrev meta : Meta
meta = record { request_id = codes "q1"; tunnel_id = codes "t" }

abbrev other : Meta
other = record { request_id = codes "q2"; tunnel_id = codes "t" }

abbrev frames : List HttpMessage
frames = send_request_frames as_text meta post (codes "/echo") [] [] [] (some (codes "ping"))

abbrev arriving : List HttpMessage
arriving = cancel other none ∷ frames ++ request_end other ∷ []

transfer_run : Unit {0}
unfolding send_request_frames chunk_frames split_bytes split_from encode_body_chunk text_dec
transfer_run = tt

gathers_request_example :
    (JsMap.get (codes "q1") (handle_all as_bytes forwarder arriving).pending ≡ none)
    × (keep (of_local (codes "q1")) (handle_all as_bytes forwarder arriving).handed_over
        ≡ keep (of_local (codes "q1")) forwarder.handed_over
          ++ sent_request as_bytes
              (codes "q1")
              as_text
              (λ b. refl)
              meta
              post
              (codes "/echo")
              []
              []
              []
              (some (codes "ping"))
            ∷ [])
gathers_request_example =
    Gathering.gathers_request as_bytes as_text (λ b. refl) meta post (codes "/echo") [] [] []
      (some (codes "ping")) forwarder arriving (unfold transfer_run in refl)

abbrev answer : List HttpMessage
answer = stream_response as_text (λ round. false) meta 200 [] [] (codes "po" ∷ codes "ng" ∷ [])

stream_response-whole_example :
    (Responses.carried as_bytes as_text (λ b. refl) answer ≡ joined (codes "po" ∷ codes "ng" ∷ []))
    × (count : ℕ) × (Responses.sequences answer ≡ Responses.counting 0 count)
stream_response-whole_example =
    Responses.stream_response-whole as_bytes as_text (λ b. refl) meta (λ round. false) 200 [] []
      (codes "po" ∷ codes "ng" ∷ []) (λ k. refl)

split_bytes-joined_example :
    (joined (split_bytes 3 (codes "seven b")) ≡ codes "seven b")
    × All (λ chunk. (0 < length chunk) × (length chunk ≤ 3)) (split_bytes 3 (codes "seven b"))
split_bytes-joined_example = BodyLaws.split_bytes-joined 2 (codes "seven b")

three_chunks : split_bytes 3 (codes "seven b") ≡ codes "sev" ∷ codes "en " ∷ codes "b" ∷ []
unfolding transfer_run
three_chunks = refl
