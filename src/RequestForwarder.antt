-- ===== src/RequestForwarder.antt =====
-- request-forwarder.ts of the command line: the frames of a request are gathered, and the request
-- is handed to the local server when its last frame has come. The abort of an exchange that is
-- still gathered has no effect but its removal; that of one in flight is kept with it.
pub mod Gathering
use looplink.Base.{ℕ, Bool, true, false, Option, none, some, List, [], ◌∷◌, ◌++◌}
use looplink.JsMap
use looplink.JsMap.{JsMap}
use looplink.Text.{Text, text_key}
use looplink.Exchanges.Entry.{Bytes}
use looplink.Forwarding.{
  HttpMessage, Meta, RequestHead, Chunk, BodyEncoding, request_start, request_chunk, request_end,
  response_start, response_chunk, response_end, cancel,
}
use looplink.Bodies.{concat_chunks}

pub record PendingExchange : Type 0 where
  pub meta : Meta
  pub start : RequestHead
  pub chunks : List Bytes

-- What is handed to the local server.
pub record LocalRequest : Type 0 where
  pub request_id : Text
  pub tunnel_id : Text
  pub start : RequestHead
  pub body : Option Bytes

pub record RequestForwarder : Type 0 where
  pub pending : JsMap Text PendingExchange
  -- The requests in flight, and whether each was aborted.
  pub in_flight : JsMap Text Bool
  pub handed_over : List LocalRequest

unfoldable pub forwarder : RequestForwarder
forwarder = record { pending = []; in_flight = []; handed_over = [] }

unfoldable pub on_start : RequestForwarder → Meta → RequestHead → RequestForwarder
on_start f meta start = record f {
  pending =
      JsMap.set meta.request_id (record { meta = meta; start = start; chunks = [] }) f.pending;
}

-- `respond` up to its wait for the local server.
unfoldable pub respond : RequestForwarder → Text → PendingExchange → RequestForwarder
unfolding concat_chunks
respond f request_id exchange = record f {
  in_flight = JsMap.set request_id false f.in_flight;
  handed_over =
      f.handed_over
      ++ record {
        request_id = request_id;
        tunnel_id = exchange.meta.tunnel_id;
        start = exchange.start;
        body = concat_chunks exchange.chunks;
      }
        ∷ [];
}

unfoldable pub end_found : RequestForwarder → Text → Option PendingExchange → RequestForwarder
unfolding respond
end_found f request_id none = f
end_found f request_id (some exchange) =
    respond (record f { pending = JsMap.delete request_id f.pending }) request_id exchange

unfoldable pub on_end : RequestForwarder → Text → RequestForwarder
unfolding end_found
on_end f request_id = end_found f request_id (JsMap.get request_id f.pending)

abbrev abort_in_flight : RequestForwarder → Text → Option Bool → RequestForwarder
abort_in_flight f request_id none = f
abort_in_flight f request_id (some aborted) = record f {
  in_flight = JsMap.set request_id true f.in_flight;
}

unfoldable pub cancel_found : RequestForwarder → Text → Option PendingExchange → RequestForwarder
cancel_found f request_id (some exchange) = record f { pending = JsMap.delete request_id f.pending }
cancel_found f request_id none = abort_in_flight f request_id (JsMap.get request_id f.in_flight)

unfoldable pub on_cancel : RequestForwarder → Text → RequestForwarder
unfolding cancel_found
on_cancel f request_id = cancel_found f request_id (JsMap.get request_id f.pending)

-- The end of `respond`, whatever became of it.
unfoldable pub responded : RequestForwarder → Text → RequestForwarder
responded f request_id = record f { in_flight = JsMap.delete request_id f.in_flight }

module _ (decode : BodyEncoding → Text → Bytes) where
  unfoldable pub chunk_found :
      RequestForwarder → Text → Chunk → Option PendingExchange → RequestForwarder
  chunk_found f request_id chunk none = f
  chunk_found f request_id chunk (some exchange) = record f {
    pending =
        JsMap.set request_id
          (record exchange { chunks = exchange.chunks ++ decode chunk.encoding chunk.content ∷ [] })
          f.pending;
  }

  unfoldable pub on_chunk : RequestForwarder → Text → Chunk → RequestForwarder
  unfolding chunk_found
  on_chunk f request_id chunk = chunk_found f request_id chunk (JsMap.get request_id f.pending)

  unfoldable pub handle : RequestForwarder → HttpMessage → RequestForwarder
  unfolding on_start on_chunk on_end on_cancel
  handle f (request_start meta start) = on_start f meta start
  handle f (request_chunk meta chunk) = on_chunk f meta.request_id chunk
  handle f (request_end meta) = on_end f meta.request_id
  handle f (cancel meta reason) = on_cancel f meta.request_id
  handle f (response_start meta start) = f
  handle f (response_chunk meta chunk) = f
  handle f (response_end meta) = f

  unfoldable pub handle_all : RequestForwarder → List HttpMessage → RequestForwarder
  unfolding handle
  handle_all f [] = f
  handle_all f (m ∷ ms) = handle_all (handle f m) ms
