-- ===== src/Bodies.antt =====
-- body-codec.ts of the server and of the command line: how a body is cut into chunks and put
-- together again; and the frames of a request, from http-forwarding.service.ts, and of a response,
-- from request-forwarder.ts. The platform's writing of bytes as text is an argument.
pub mod Laws
pub mod Responses
use looplink.Base.{
  ℕ, zero, suc, ◌+◌, Bool, true, false, not, ◌==◌, Option, none, some, List, [], ◌∷◌, ◌++◌, length,
  take, drop, is_empty, if◌then◌else◌,
}
use looplink.Text.{Text}
use looplink.Exchanges.Entry.{Bytes}
use looplink.Forwarding.{
  HttpMessage, Meta, RequestHead, ResponseHead, Chunk, BodyEncoding, HttpMethod, HttpHeaders,
  HttpCookies, base64, request_start, request_chunk, request_end, response_start, response_chunk,
  response_end,
}

abbrev pub default_body_chunk_size : ℕ
default_body_chunk_size = 65536

-- The loop of `splitBytes`: each round takes one chunk, so the length of the bytes is enough fuel
-- where a chunk is not empty.
unfoldable pub split_from : ℕ → ℕ → Bytes → List Bytes
split_from zero chunk_size bytes = []
split_from (suc fuel) chunk_size [] = []
split_from (suc fuel) chunk_size (b ∷ bs) =
    take chunk_size (b ∷ bs) ∷ split_from fuel chunk_size (drop chunk_size (b ∷ bs))

unfoldable pub split_bytes : ℕ → Bytes → List Bytes
unfolding split_from
split_bytes chunk_size bytes = split_from (length bytes) chunk_size bytes

unfoldable pub joined : List Bytes → Bytes
joined [] = []
joined (chunk ∷ chunks) = chunk ++ joined chunks

abbrev pub unless_empty : Bytes → Option Bytes
unless_empty [] = none
unless_empty (b ∷ bs) = some (b ∷ bs)

unfoldable pub concat_chunks : List Bytes → Option Bytes
unfolding joined
concat_chunks chunks = unless_empty (joined chunks)

-- A body of no bytes is none.
abbrev pub body_bytes : Option Bytes → Bytes
body_bytes none = []
body_bytes (some bytes) = bytes

module _ (to_base64 : Bytes → Text) where
  unfoldable pub encode_body_chunk : ℕ → Bytes → Chunk
  encode_body_chunk sequence bytes = record {
    sequence = sequence;
    encoding = base64;
    content = to_base64 bytes;
  }

  -- The frames of chunks, numbered from `sequence` on.
  unfoldable pub chunk_frames : (Chunk → HttpMessage) → ℕ → List Bytes → List HttpMessage
  unfolding encode_body_chunk
  chunk_frames frame sequence [] = []
  chunk_frames frame sequence (chunk ∷ chunks) =
      frame (encode_body_chunk sequence chunk) ∷ chunk_frames frame (suc sequence) chunks

  -- `sendRequestFrames`, with its messages in the order in which they are sent.
  unfoldable pub send_request_frames :
      Meta
      → HttpMethod
      → Text
      → (query headers : HttpHeaders) → HttpCookies
      → Option Bytes
      → List HttpMessage
  unfolding chunk_frames split_bytes
  send_request_frames meta method path query headers cookies body =
      request_start meta (record {
        method = method;
        path = path;
        query = query;
        headers = headers;
        cookies = cookies;
        has_body = not (is_empty (body_bytes body));
      })
        ∷ chunk_frames (request_chunk meta) 0
            (split_bytes default_body_chunk_size (body_bytes body))
      ++ request_end meta ∷ []

  -- The chunks of a response as they come from the local server, each cut before it is sent; with
  -- the next number. `aborted` says in which round the exchange was found aborted.
  unfoldable pub response_rounds :
      (ℕ → Bool) → Meta → (round sequence : ℕ) → List Bytes → List HttpMessage
  unfolding chunk_frames split_bytes
  response_rounds aborted meta round sequence [] = response_end meta ∷ []
  response_rounds aborted meta round sequence (current ∷ rest) =
      let pieces = split_bytes default_body_chunk_size current in
      let later = response_rounds aborted meta (suc round) (sequence + length pieces) rest in
      if aborted round then [] else chunk_frames (response_chunk meta) sequence pieces ++ later

  unfoldable pub stream_response :
      (ℕ → Bool)
      → Meta
      → (status_code : ℕ) → HttpHeaders
      → List Text
      → List Bytes
      → List HttpMessage
  unfolding response_rounds
  stream_response aborted meta status_code headers set_cookies chunks =
      response_start meta (record {
        status_code = status_code;
        headers = headers;
        set_cookies = set_cookies;
        has_body = not (is_empty chunks);
      })
      ∷ response_rounds aborted meta 0 0 chunks
