-- ===== src/Exchanges.antt =====
-- http-exchange.coordinator.ts: public requests that wait for the frames of their response. An
-- exchange is an object that the table of pending requests and its reader share, so it stands in a
-- store under a handle.
pub mod Entry
pub mod Table
pub mod Frames
pub mod Runs
pub mod Waiting
use looplink.Base.{
  ℕ, suc, Bool, true, false, Option, none, some, [], leb, if◌then◌else◌, length, is_some,
}
use looplink.JsMap
use looplink.JsMap.{JsMap, nat_key}
use looplink.Forwarding.{
  BodyEncoding, HttpMessage, request_start, request_chunk, request_end, response_start,
  response_chunk, response_end, cancel,
}
use looplink.Text.{Text, text_key}
use Entry.{
  InternalPending, Bytes, new_entry, on_response_start, on_response_chunk, on_response_end,
  on_cancel, fail_exchange, pull, resume, Read, suspended, Failure, reported, cancelled_by_peer,
}

-- What is delivered: a message of the data plane, or an error that may name its request.
pub data Message : Type 0 where
  frame : HttpMessage → Message
  error : Option Text → Text → Message

pub record Coordinator : Type 0 where
  pub max_pending : ℕ
  pub max_buffer_bytes : ℕ
  pub pending : JsMap Text ℕ
  pub entries : JsMap ℕ InternalPending
  pub next_handle : ℕ

unfoldable pub coordinator : ℕ → ℕ → Coordinator
coordinator max_pending max_buffer_bytes = record {
  max_pending = max_pending;
  max_buffer_bytes = max_buffer_bytes;
  pending = [];
  entries = [];
  next_handle = 0;
}

pub data Begun : Type 0 where
  already_pending too_many : Begun
  begun : ℕ → Begun

unfoldable pub begin : Coordinator → Text → Coordinator × Begun
begin c request_id =
    if is_some (JsMap.get request_id c.pending)
    then (c, already_pending)
    else if leb c.max_pending (length c.pending)
    then (c, too_many)
    else (
      record c {
        pending = JsMap.set request_id c.next_handle c.pending;
        entries = JsMap.set c.next_handle (new_entry request_id) c.entries;
        next_handle = suc c.next_handle;
      },
      begun c.next_handle,
    )

-- A handler leaves the exchange as it is given, and says whether the request is no longer pending.
unfoldable pub put_back : Coordinator → ℕ → InternalPending × Bool → Coordinator
put_back c handle (entry, dropped) = record c {
  entries = JsMap.set handle entry c.entries;
  pending = (if dropped then JsMap.delete entry.request_id c.pending else c.pending);
}

unfoldable pub handle_at :
    Coordinator
    → ℕ
    → Option InternalPending
    → (InternalPending → InternalPending × Bool)
    → Coordinator
unfolding put_back
handle_at c handle none f = c
handle_at c handle (some entry) f = put_back c handle (f entry)

unfoldable pub handle_found :
    Coordinator → Option ℕ → (InternalPending → InternalPending × Bool) → Coordinator × Bool
unfolding handle_at
handle_found c none f = (c, false)
handle_found c (some handle) f = (handle_at c handle (JsMap.get handle c.entries) f, true)

-- `this.pending.get(requestId)`, with the handler for the exchange that it finds.
unfoldable pub handle_pending :
    Coordinator → Text → (InternalPending → InternalPending × Bool) → Coordinator × Bool
unfolding handle_found
handle_pending c request_id f = handle_found c (JsMap.get request_id c.pending) f

abbrev pub cancel_reason : Option Text → Failure
cancel_reason none = cancelled_by_peer
cancel_reason (some reason) = reported reason

-- `decode` stands for the platform's reading of a chunk's text.
module _ (decode : BodyEncoding → Text → Bytes) where
  unfoldable pub deliver : Coordinator → Message → Coordinator × Bool
  unfolding handle_pending
  deliver c (error none message) = (c, false)
  deliver c (error (some request_id) message) =
      handle_pending c request_id (λ e. fail_exchange e (reported message))
  deliver c (frame (response_start m head)) =
      handle_pending c m.request_id (λ e. on_response_start e head)
  deliver c (frame (response_chunk m chunk)) =
      handle_pending c m.request_id
        (λ e. on_response_chunk c.max_buffer_bytes e (decode chunk.encoding chunk.content))
  deliver c (frame (response_end m)) = handle_pending c m.request_id on_response_end
  deliver c (frame (cancel m reason)) =
      handle_pending c m.request_id (λ e. on_cancel e (cancel_reason reason))
  deliver c (frame (request_start m head)) = (c, false)
  deliver c (frame (request_chunk m chunk)) = (c, false)
  deliver c (frame (request_end m)) = (c, false)

unfoldable pub complete : Coordinator → Text → Coordinator
complete c request_id = record c { pending = JsMap.delete request_id c.pending }

-- The handle's `fail`.
unfoldable pub fail : Coordinator → ℕ → Failure → Coordinator
unfolding handle_at
fail c handle message =
    handle_at c handle (JsMap.get handle c.entries) (λ e. fail_exchange e message)

unfoldable pub read_at :
    Coordinator
    → ℕ
    → Option InternalPending
    → (InternalPending → InternalPending × Read)
    → Coordinator × Read
read_at c handle none f = (c, suspended)
read_at c handle (some entry) f =
    let (entry', r) = f entry in (record c { entries = JsMap.set handle entry' c.entries }, r)

-- The reader asks for the next chunk, or goes on when its wait is settled.
unfoldable pub read : Coordinator → ℕ → ℕ → Coordinator × Read
unfolding read_at
read c handle ticket = read_at c handle (JsMap.get handle c.entries) (λ e. pull e ticket)

unfoldable pub read_on : Coordinator → ℕ → ℕ → Coordinator × Read
unfolding read_at
read_on c handle ticket = read_at c handle (JsMap.get handle c.entries) (λ e. resume e ticket)
