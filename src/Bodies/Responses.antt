-- ===== src/Bodies/Responses.antt =====
-- The frames of a response carry its whole body, numbered without a gap.
use looplink.Base.{
  ℕ, zero, suc, ◌+◌, ◌≡◌, refl, sym, ap, ◌∙◌, Bool, false, List, [], ◌∷◌, ◌++◌, length, arith,
}
use mathlib.Core.List.{append_assoc}
use looplink.Text.{Text}
use looplink.Exchanges.Entry.{Bytes}
use looplink.Forwarding.{
  HttpMessage, HttpHeaders, Meta, BodyEncoding, base64, request_start, request_chunk, request_end,
  response_start, response_chunk, response_end, cancel,
}
use looplink.Bodies.{
  chunk_frames, encode_body_chunk, stream_response, response_rounds, split_bytes, joined,
  default_body_chunk_size,
}
use looplink.Bodies.Laws.{split_bytes-joined}

-- The numbers of the chunks of a response, in order.
abbrev pub sequences : List HttpMessage → List ℕ
sequences [] = []
sequences (response_chunk meta chunk ∷ ms) = chunk.sequence ∷ sequences ms
sequences (request_start meta head ∷ ms) = sequences ms
sequences (request_chunk meta chunk ∷ ms) = sequences ms
sequences (request_end meta ∷ ms) = sequences ms
sequences (response_start meta head ∷ ms) = sequences ms
sequences (response_end meta ∷ ms) = sequences ms
sequences (cancel meta reason ∷ ms) = sequences ms

-- `length` numbers from `first` on.
abbrev pub counting : (first length : ℕ) → List ℕ
counting first zero = []
counting first (suc k) = first ∷ counting (suc first) k

counting-append : (n a b : ℕ) → counting n a ++ counting (n + a) b ≡ counting n (a + b)
counting-append n zero b =
    let p : n + 0 ≡ n = omega arith in
    let q : b ≡ 0 + b = omega arith in ap (λ k. counting k b) p ∙ ap (counting n) q
counting-append n (suc a) b =
    let p : n + suc a ≡ suc n + a = omega arith in
    let q : suc (a + b) ≡ suc a + b = omega arith in
    ap (λ k. n ∷ counting (suc n) a ++ counting k b) p
    ∙ ap (λ t. n ∷ t) (counting-append (suc n) a b)
    ∙ ap (counting n) q

module _ (decode : BodyEncoding → Text → Bytes) (to_base64 : Bytes → Text)
    (round_trip : (bytes : Bytes) → decode base64 (to_base64 bytes) ≡ bytes) where
  -- The bytes that the chunks of a response carry.
  abbrev pub carried : List HttpMessage → Bytes
  carried [] = []
  carried (response_chunk meta chunk ∷ ms) = decode chunk.encoding chunk.content ++ carried ms
  carried (request_start meta head ∷ ms) = carried ms
  carried (request_chunk meta chunk ∷ ms) = carried ms
  carried (request_end meta ∷ ms) = carried ms
  carried (response_start meta head ∷ ms) = carried ms
  carried (response_end meta ∷ ms) = carried ms
  carried (cancel meta reason ∷ ms) = carried ms

  module _ (meta : Meta) where
    carried-chunks :
        (n : ℕ) (pieces : List Bytes) (later : List HttpMessage)
        → carried (chunk_frames to_base64 (response_chunk meta) n pieces ++ later)
          ≡ joined pieces ++ carried later
    unfolding chunk_frames encode_body_chunk joined
    carried-chunks n [] later = refl
    carried-chunks n (piece ∷ pieces) later =
        ap
          (λ b. b ++ carried (chunk_frames to_base64 (response_chunk meta) (suc n) pieces ++ later))
          (round_trip piece)
        ∙ ap (λ t. piece ++ t) (carried-chunks (suc n) pieces later)
        ∙ sym (append_assoc piece (joined pieces) (carried later))

    sequences-chunks :
        (n : ℕ) (pieces : List Bytes) (later : List HttpMessage)
        → sequences (chunk_frames to_base64 (response_chunk meta) n pieces ++ later)
          ≡ counting n (length pieces) ++ sequences later
    unfolding chunk_frames encode_body_chunk
    sequences-chunks n [] later = refl
    sequences-chunks n (piece ∷ pieces) later =
        ap (λ t. n ∷ t) (sequences-chunks (suc n) pieces later)

    rounds :
        (aborted : ℕ → Bool) (round n : ℕ) (chunks : List Bytes)
        → ((k : ℕ) → aborted k ≡ false)
        → (carried (response_rounds to_base64 aborted meta round n chunks) ≡ joined chunks)
          × (count : ℕ) × (sequences (response_rounds to_base64 aborted meta round n chunks)
              ≡ counting n count)
    unfolding response_rounds joined
    rounds aborted round n [] h = (refl, 0, refl)
    rounds aborted round n (chunk ∷ chunks) h =
        let pieces = split_bytes default_body_chunk_size chunk in
        let (bytes, count, numbers) = rounds aborted (suc round) (n + length pieces) chunks h in
        let later = response_rounds to_base64 aborted meta (suc round) (n + length pieces) chunks in
        rw (h round) (
          carried-chunks n pieces later
              ∙ ap (λ t. t ++ carried later) (split_bytes-joined 65535 chunk).0
              ∙ ap (λ t. chunk ++ t) bytes,
          length pieces + count,
          sequences-chunks n pieces later
              ∙ ap (λ t. counting n (length pieces) ++ t) numbers
              ∙ counting-append n (length pieces) count,
        )

    -- Where reading a chunk's text undoes its writing and the exchange is not aborted, the chunks of
    -- a response carry exactly the bytes that came from the local server, in their order, and are
    -- numbered from 0 without a gap.
    pub stream_response-whole :
        (aborted : ℕ → Bool) (status_code : ℕ) (headers : HttpHeaders) (set_cookies : List Text)
        (chunks : List Bytes)
        → ((k : ℕ) → aborted k ≡ false)
        → let frames =
            stream_response to_base64 aborted meta status_code headers set_cookies chunks in
          (carried frames ≡ joined chunks) × (count : ℕ) × (sequences frames ≡ counting 0 count)
    unfolding stream_response
    stream_response-whole aborted status_code headers set_cookies chunks h =
        rounds aborted 0 0 chunks h
