-- ===== src/Exchanges/Entry.antt =====
-- One exchange: the state of `InternalPending`, its handlers, and the steps of `iterateBody`.
pub mod Order
pub mod Bounds
use looplink.Base.{
  ℕ, suc, ◌+◌, ◌-◌, Bool, true, false, ◌||◌, Option, none, some, List, [], ◌∷◌, ◌++◌, ltb,
  if◌then◌else◌, length, is_some,
}
use looplink.JsMap
use looplink.JsMap.{JsMap, nat_key}
use looplink.Forwarding.{ResponseHead}
use looplink.Text.{Text}

abbrev pub Bytes : Type 0
Bytes = List ℕ

-- The errors that an exchange fails with.
pub data Failure : Type 0 where
  reported : Text → Failure
  cancelled_by_peer duplicate_start : Failure
  buffer_exceeded : ℕ → Failure

-- The promise of the response's head. Its resolve and reject functions are there while it waits.
pub data Start : Type 0 where
  waiting : Start
  resolved : ResponseHead → Start
  rejected : Failure → Start

-- A waiter is the number of the read that made it. `settled` holds what the waiters were given:
-- a chunk, or none for the end.
pub record InternalPending : Type 0 where
  pub request_id : Text
  pub start : Start
  pub chunk_waiters : List ℕ
  pub chunk_buffer : List Bytes
  pub buffered_bytes : ℕ
  pub body_ended : Bool
  pub failed : Option Failure
  pub settled : JsMap ℕ (Option Bytes)

unfoldable pub new_entry : Text → InternalPending
new_entry request_id = record {
  request_id = request_id;
  start = waiting;
  chunk_waiters = [];
  chunk_buffer = [];
  buffered_bytes = 0;
  body_ended = false;
  failed = none;
  settled = [];
}

-- Every waiter is told that the body is over.
unfoldable pub settle_all : List ℕ → JsMap ℕ (Option Bytes) → JsMap ℕ (Option Bytes)
settle_all [] s = s
settle_all (w ∷ ws) s = settle_all ws (JsMap.set w none s)

abbrev pub reject_start : Start → Failure → Start
reject_start waiting message = rejected message
reject_start s message = s

abbrev pub finished_entry : InternalPending → InternalPending
finished_entry e = record e {
  body_ended = true;
  chunk_waiters = [];
  settled = settle_all e.chunk_waiters e.settled;
}

unfoldable pub fail_exchange : InternalPending → Failure → InternalPending × Bool
fail_exchange e message = if is_some e.failed then (e, false) else (
  record e {
    failed = some message;
    start = reject_start e.start message;
    body_ended = true;
    chunk_waiters = [];
    settled = settle_all e.chunk_waiters e.settled;
  },
  true,
)

abbrev pub is_waiting : Start → Bool
is_waiting waiting = true
is_waiting (resolved head) = false
is_waiting (rejected message) = false

unfoldable pub on_response_start : InternalPending → ResponseHead → InternalPending × Bool
unfolding fail_exchange
on_response_start e head =
    if is_waiting e.start
    then (record e { start = resolved head }, false)
    else fail_exchange e duplicate_start

-- `this.pushChunk`: a waiting reader gets the chunk, else it is buffered while there is room.
unfoldable pub push_chunk : ℕ → InternalPending → Bytes → List ℕ → InternalPending × Bool
unfolding fail_exchange
push_chunk max e chunk (waiter ∷ rest) =
    (record e { chunk_waiters = rest; settled = JsMap.set waiter (some chunk) e.settled }, false)
push_chunk max e chunk [] =
    if ltb max (e.buffered_bytes + length chunk) then fail_exchange e (buffer_exceeded max) else (
      record e {
        chunk_buffer = e.chunk_buffer ++ chunk ∷ [];
        buffered_bytes = e.buffered_bytes + length chunk;
      },
      false,
    )

unfoldable pub on_response_chunk : ℕ → InternalPending → Bytes → InternalPending × Bool
unfolding push_chunk
on_response_chunk max e chunk =
    if e.body_ended || is_some e.failed then (e, false) else push_chunk max e chunk e.chunk_waiters

unfoldable pub on_response_end : InternalPending → InternalPending × Bool
on_response_end e = if e.body_ended then (e, false) else (finished_entry e, true)

unfoldable pub on_cancel : InternalPending → Failure → InternalPending × Bool
unfolding fail_exchange
on_cancel e reason = fail_exchange e reason

-- What a read of the body comes to.
pub data Read : Type 0 where
  threw : Failure → Read
  yielded : Bytes → Read
  done : Read
  suspended : Read

unfoldable pub pull_buffered : InternalPending → ℕ → List Bytes → InternalPending × Read
pull_buffered e ticket (chunk ∷ rest) = (
  record e { chunk_buffer = rest; buffered_bytes = e.buffered_bytes - length chunk },
  yielded chunk,
)
pull_buffered e ticket [] =
    if e.body_ended
    then (e, done)
    else (record e { chunk_waiters = e.chunk_waiters ++ ticket ∷ [] }, suspended)

unfoldable pub pull_failed : InternalPending → ℕ → Option Failure → InternalPending × Read
unfolding pull_buffered
pull_failed e ticket (some message) = (e, threw message)
pull_failed e ticket none = pull_buffered e ticket e.chunk_buffer

-- One round of the loop up to its `yield`, its end, or its wait.
unfoldable pub pull : InternalPending → ℕ → InternalPending × Read
unfolding pull_failed
pull e ticket = pull_failed e ticket e.failed

abbrev pub after_wait : Option Failure → Option (Option Bytes) → Read
after_wait failed none = suspended
after_wait (some message) (some result) = threw message
after_wait none (some none) = done
after_wait none (some (some chunk)) = yielded chunk

-- What follows the wait, once the waiter is settled.
unfoldable pub resume : InternalPending → ℕ → InternalPending × Read
resume e ticket = (e, after_wait e.failed (JsMap.get ticket e.settled))
