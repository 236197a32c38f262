-- ===== src/RequestForwarder/Gathering.antt =====
-- The frames of one request, however they are mixed with those of others, give its request.
use looplink.Base.{
  ℕ, suc, ◌≡◌, refl, ap, ◌∙◌, Bool, not, is_empty, Option, none, some, List, [], ◌∷◌, ◌++◌, keep,
  arith, Option-cases, Bool-cases, inl, inr, if◌then◌else◌,
}
use mathlib.Core.List.{append-nil, append_assoc}
use looplink.JsMap
use looplink.JsMap.{JsMap}
use looplink.JsMap.Laws.{get-set, get-delete}
use looplink.Text.{Text, text_key, ◌===◌}
use looplink.Exchanges.Entry.{Bytes}
use looplink.Forwarding.{
  HttpMessage, HttpMethod, HttpHeaders, HttpCookies, Meta, RequestHead, Chunk, BodyEncoding, base64,
  request_start, request_chunk, request_end, response_start, response_chunk, response_end, cancel,
}
use looplink.Bodies.{
  send_request_frames, chunk_frames, encode_body_chunk, split_bytes, concat_chunks, body_bytes,
  unless_empty, default_body_chunk_size,
}
use looplink.Bodies.Laws.{split_bytes-joined}
use looplink.RequestForwarder.{
  RequestForwarder, PendingExchange, LocalRequest, handle, handle_all, on_start, on_chunk,
  chunk_found, on_end, end_found, respond, on_cancel, cancel_found,
}

abbrev pub meta_of : HttpMessage → Meta
meta_of (request_start meta head) = meta
meta_of (request_chunk meta chunk) = meta
meta_of (request_end meta) = meta
meta_of (response_start meta head) = meta
meta_of (response_chunk meta chunk) = meta
meta_of (response_end meta) = meta
meta_of (cancel meta reason) = meta

abbrev pub of_request : Text → HttpMessage → Bool
of_request id m = (meta_of m).request_id === id

abbrev pub of_local : Text → LocalRequest → Bool
of_local id r = r.request_id === id

-- What the forwarder holds of one request: what it gathers, and what it has handed over.
pub record Seen : Type 0 where
  pub gathered : Option PendingExchange
  pub handed : List LocalRequest

abbrev pub seen : Text → RequestForwarder → Seen
seen id f = record { gathered = JsMap.get id f.pending; handed = keep (of_local id) f.handed_over }

abbrev local_of : Text → PendingExchange → LocalRequest
local_of id e = record {
  request_id = id;
  tunnel_id = e.meta.tunnel_id;
  start = e.start;
  body = concat_chunks e.chunks;
}

keep-snoc :
    (id : Text) (rs : List LocalRequest) (r : LocalRequest)
    → keep (of_local id) (rs ++ r ∷ [])
      ≡ keep (of_local id) rs ++ (if of_local id r then r ∷ [] else [])
keep-snoc id [] r = refl
keep-snoc id (x ∷ rs) r = ground (arith, keep-snoc id rs r)

module _ (decode : BodyEncoding → Text → Bytes) (id : Text) where
  abbrev more : Chunk → Option PendingExchange → Option PendingExchange
  more chunk none = none
  more chunk (some e) =
      some (record e { chunks = e.chunks ++ decode chunk.encoding chunk.content ∷ [] })

  abbrev finished : Seen → Option PendingExchange → Seen
  finished s none = s
  finished s (some e) = record { gathered = none; handed = s.handed ++ local_of id e ∷ [] }

  -- What a frame of the request does to what is held of it.
  abbrev frame_step : Seen → HttpMessage → Seen
  frame_step s (request_start meta start) = record s {
    gathered = some (record { meta = meta; start = start; chunks = [] });
  }
  frame_step s (request_chunk meta chunk) = record s { gathered = more chunk s.gathered }
  frame_step s (request_end meta) = finished s s.gathered
  frame_step s (cancel meta reason) = record s { gathered = none }
  frame_step s (response_start meta head) = s
  frame_step s (response_chunk meta chunk) = s
  frame_step s (response_end meta) = s

  abbrev frame_steps : Seen → List HttpMessage → Seen
  frame_steps s [] = s
  frame_steps s (m ∷ ms) = frame_steps (frame_step s m) ms

  frame_steps-append :
      (s : Seen) (ms ns : List HttpMessage)
      → frame_steps s (ms ++ ns) ≡ frame_steps (frame_steps s ms) ns
  frame_steps-append s [] ns = refl
  frame_steps-append s (m ∷ ms) ns = frame_steps-append (frame_step s m) ms ns

  abbrev step_if : Seen → HttpMessage → Seen
  step_if s m = if of_request id m then frame_step s m else s

  module _ (f : RequestForwarder) where
    seen-start :
        (meta : Meta) (start : RequestHead)
        → seen id (on_start f meta start) ≡ step_if (seen id f) (request_start meta start)
    unfolding on_start
    seen-start meta start =
        let fresh : PendingExchange = record { meta = meta; start = start; chunks = [] } in
        ground (arith, get-set meta.request_id id fresh f.pending)

    seen-chunk :
        (meta : Meta) (chunk : Chunk) (x : Option PendingExchange)
        → JsMap.get meta.request_id f.pending ≡ x
        → seen id (chunk_found decode f meta.request_id chunk x)
          ≡ step_if (seen id f) (request_chunk meta chunk)
    unfolding chunk_found
    seen-chunk meta chunk none e = ground arith
    seen-chunk meta chunk (some x) e =
        let longer : PendingExchange = record x {
          chunks = x.chunks ++ decode chunk.encoding chunk.content ∷ [];
        } in
        ground (arith, get-set meta.request_id id longer f.pending)

    seen-end :
        (meta : Meta) (x : Option PendingExchange)
        → JsMap.get meta.request_id f.pending ≡ x
        → seen id (end_found f meta.request_id x) ≡ step_if (seen id f) (request_end meta)
    unfolding end_found respond
    seen-end meta none e = ground arith
    seen-end meta (some x) e = ground (
      arith,
      get-delete meta.request_id id f.pending,
      keep-snoc id f.handed_over (local_of meta.request_id x),
      append-nil (keep (of_local id) f.handed_over),
    )

    seen-cancel :
        (meta : Meta) (reason : Option Text) (x : Option PendingExchange)
        → JsMap.get meta.request_id f.pending ≡ x
        → seen id (cancel_found f meta.request_id x) ≡ step_if (seen id f) (cancel meta reason)
    unfolding cancel_found
    seen-cancel meta reason none e = elim (Option-cases (JsMap.get meta.request_id f.in_flight)) [
      | inl p ↦ rw p (ground arith)
      | inr (b, p) ↦ rw p (ground arith)
    ]
    seen-cancel meta reason (some x) e = ground (arith, get-delete meta.request_id id f.pending)

  seen-handle :
      (f : RequestForwarder) (m : HttpMessage) → seen id (handle decode f m) ≡ step_if (seen id f) m
  unfolding handle on_chunk on_end on_cancel
  seen-handle f (request_start meta start) = seen-start f meta start
  seen-handle f (request_chunk meta chunk) =
      seen-chunk f meta chunk (JsMap.get meta.request_id f.pending) refl
  seen-handle f (request_end meta) = seen-end f meta (JsMap.get meta.request_id f.pending) refl
  seen-handle f (cancel meta reason) =
      seen-cancel f meta reason (JsMap.get meta.request_id f.pending) refl
  seen-handle f (response_start meta head) = ground arith
  seen-handle f (response_chunk meta chunk) = ground arith
  seen-handle f (response_end meta) = ground arith

  steps_if :
      (s : Seen) (m : HttpMessage) (ms : List HttpMessage)
      → frame_steps (step_if s m) (keep (of_request id) ms)
        ≡ frame_steps s (keep (of_request id) (m ∷ ms))
  steps_if s m ms = elim (Bool-cases (of_request id m)) [ inl e ↦ rw e refl | inr e ↦ rw e refl ]

  seen-handle_all :
      (f : RequestForwarder) (ms : List HttpMessage)
      → seen id (handle_all decode f ms) ≡ frame_steps (seen id f) (keep (of_request id) ms)
  unfolding handle_all
  seen-handle_all f [] = refl
  seen-handle_all f (m ∷ ms) =
      seen-handle_all (handle decode f m) ms
      ∙ ap (λ s. frame_steps s (keep (of_request id) ms)) (seen-handle f m)
      ∙ steps_if (seen id f) m ms

  module _ (to_base64 : Bytes → Text)
      (round_trip : (bytes : Bytes) → decode base64 (to_base64 bytes) ≡ bytes) where
    frame_steps-chunks :
        (meta : Meta) (n : ℕ) (pieces : List Bytes) (e : PendingExchange)
        (handed : List LocalRequest)
        → frame_steps
            (record { gathered = some e; handed = handed })
            (chunk_frames to_base64 (request_chunk meta) n pieces)
          ≡ record { gathered = some (record e { chunks = e.chunks ++ pieces }); handed = handed }
    unfolding chunk_frames encode_body_chunk
    frame_steps-chunks meta n [] e handed = rw (append-nil e.chunks) refl
    frame_steps-chunks meta n (piece ∷ pieces) e handed =
        let with_chunks : List Bytes → Seen =
          λ cs. record { gathered = some (record e { chunks = cs }); handed = handed } in
        ap
          (λ b.
            frame_steps (with_chunks (e.chunks ++ b ∷ []))
              (chunk_frames to_base64 (request_chunk meta) (suc n) pieces))
          (round_trip piece)
        ∙ frame_steps-chunks meta (suc n) pieces (record e { chunks = e.chunks ++ piece ∷ [] })
            handed
        ∙ ap with_chunks (append_assoc e.chunks (piece ∷ []) pieces)

    module _ (meta : Meta) (method : HttpMethod) (path : Text) (query headers : HttpHeaders)
        (cookies : HttpCookies) (body : Option Bytes) where
      abbrev sent_frames : List HttpMessage
      sent_frames = send_request_frames to_base64 meta method path query headers cookies body

      -- The request that the server sent, with no body where it has no bytes.
      abbrev pub sent_request : LocalRequest
      sent_request = record {
        request_id = id;
        tunnel_id = meta.tunnel_id;
        start = record {
          method = method;
          path = path;
          query = query;
          headers = headers;
          cookies = cookies;
          has_body = not (is_empty (body_bytes body));
        };
        body = unless_empty (body_bytes body);
      }

      abbrev pieces : List Bytes
      pieces = split_bytes default_body_chunk_size (body_bytes body)

      abbrev gathering : List Bytes → PendingExchange
      gathering chunks = record { meta = meta; start = sent_request.start; chunks = chunks }

      frame_steps-sent :
          (s : Seen)
          → frame_steps s sent_frames
            ≡ record { gathered = none; handed = s.handed ++ sent_request ∷ [] }
      unfolding send_request_frames concat_chunks
      frame_steps-sent s =
          frame_steps-append (record { gathered = some (gathering []); handed = s.handed })
            (chunk_frames to_base64 (request_chunk meta) 0 pieces) (request_end meta ∷ [])
          ∙ ap (λ t. frame_steps t (request_end meta ∷ []))
              (frame_steps-chunks meta 0 pieces (gathering []) s.handed)
          ∙ ap (λ b. handed_with b) (split_bytes-joined 65535 (body_bytes body)).0
        where
          handed_with : Bytes → Seen
          handed_with b = record {
            gathered = none;
            handed = s.handed ++ record sent_request { body = unless_empty b } ∷ [];
          }

-- Where reading a chunk's text undoes its writing, and the frames of one request arrive in the order
-- in which the server sends them, mixed in any way with frames of other requests, the forwarder hands
-- over just that request, once: with its tunnel, its head and its whole body, or no body where it
-- has no bytes; and it gathers no more of it.
pub gathers_request :
    (decode : BodyEncoding → Text → Bytes) (to_base64 : Bytes → Text)
    (round_trip : (bytes : Bytes) → decode base64 (to_base64 bytes) ≡ bytes) (meta : Meta)
    (method : HttpMethod) (path : Text) (query headers : HttpHeaders) (cookies : HttpCookies)
    (body : Option Bytes) (f : RequestForwarder) (arriving : List HttpMessage)
    → keep (of_request meta.request_id) arriving
      ≡ send_request_frames to_base64 meta method path query headers cookies body
    → let f' = handle_all decode f arriving in
      (JsMap.get meta.request_id f'.pending ≡ none)
      × (keep (of_local meta.request_id) f'.handed_over
          ≡ keep (of_local meta.request_id) f.handed_over
            ++ sent_request decode meta.request_id to_base64 round_trip meta method path query
                headers cookies body
              ∷ [])
gathers_request decode to_base64 round_trip meta method path query headers cookies body f arriving
      h =
    let id = meta.request_id in
    let all =
      seen-handle_all decode id f arriving
      ∙ ap (frame_steps decode id (seen id f)) h
      ∙ frame_steps-sent decode id to_base64 round_trip meta method path query headers cookies body
          (seen id f) in
    (ap (λ s. s.gathered) all, ap (λ s. s.handed) all)
