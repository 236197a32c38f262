-- ===== src/Examples/Exchanges.antt =====
-- Runs of the coordinator and of sessions, and the theorems at them.
use looplink.Base.{
  some, String, ℕ_discrete, false, none, ◌≤◌, ◌≡◌, ◌≢◌, ◌⊎◌, refl, List, [], ◌∷◌, ◌++◌, none,
}
use looplink.JsMap
use looplink.JsMap.{nat_key}
use looplink.Forwarding.{BodyEncoding, utf8, Meta, Chunk, response_chunk, response_end}
use looplink.Text.{Text, codes, text_key, text_dec}
use looplink.Exchanges.{
  Coordinator, read_on, coordinator, begin, deliver, handle_pending, handle_found, handle_at,
  put_back, read, read_at, frame,
}
use looplink.Exchanges.Entry.{
  suspended, yielded, InternalPending, Bytes, waiting, new_entry, on_response_chunk,
  on_response_end, push_chunk, fail_exchange, settle_all, pull, pull_failed, pull_buffered, resume,
}
use looplink.Exchanges.Entry.Bounds.{total}
use looplink.Exchanges.Entry.Order.{
  Event, chunk_arrives, end_arrives, goes_on, session, opened, occur, go_on, note,
}
use looplink.Exchanges.Entry.Order.Delivery.{taken_in_order, nothing_lost}
use looplink.Exchanges.Runs.{
  Call, beginning, delivering, reading, run, call, buffer-within, pending-Live,
}
use looplink.Exchanges.Table.{Live}
use looplink.Exchanges.Waiting.{Unready, no_wakeup_lost}

abbrev as_is : BodyEncoding → Text → Bytes
as_is encoding text = text

abbrev of : String → Meta
of id = record { request_id = codes id; tunnel_id = codes "t" }

abbrev xyz : Chunk
xyz = record { sequence = 0; encoding = utf8; content = codes "xyz" }

abbrev a_run : List Call
a_run =
    beginning (codes "a")
    ∷ beginning (codes "b")
    ∷ beginning (codes "c")
    ∷ delivering (frame (response_chunk (of "a") xyz))
    ∷ reading 1 0
    ∷ delivering (frame (response_end (of "b")))
    ∷ []

abbrev buffered : InternalPending
buffered = record {
  request_id = codes "a";
  start = waiting;
  chunk_waiters = [];
  chunk_buffer = codes "xyz" ∷ [];
  buffered_bytes = 3;
  body_ended = false;
  failed = none;
  settled = [];
}

exchanging : Unit {0}
unfolding run call coordinator begin deliver handle_pending handle_found handle_at put_back
    new_entry on_response_chunk on_response_end push_chunk fail_exchange settle_all pull pull_failed
    pull_buffered resume read read_at text_dec ℕ_discrete JsMap.get JsMap.set JsMap.delete session
    occur opened go_on note
exchanging = tt

buffer-within_example :
    (buffered.buffered_bytes ≡ total buffered.chunk_buffer) × (total buffered.chunk_buffer ≤ 8)
buffer-within_example = buffer-within as_is 2 8 a_run 0 buffered (unfold exchanging in refl)

-- A read that has to wait, of an exchange whose first chunk comes afterwards.
abbrev earlier : List Call
earlier = beginning (codes "a") ∷ beginning (codes "b") ∷ []

abbrev afterwards : List Call
afterwards = reading 1 6 ∷ delivering (frame (response_chunk (of "a") xyz)) ∷ []

abbrev resulting : Coordinator
resulting = run as_is (coordinator 2 8) (earlier ++ reading 0 7 ∷ afterwards)

no_wakeup_lost_example :
    (e : InternalPending) × (JsMap.get 0 resulting.entries ≡ some e)
    × (((read_on resulting 0 7).1 ≢ suspended) ⊎ Unready 7 e)
no_wakeup_lost_example =
    no_wakeup_lost as_is 2 8 earlier 0 7 (new_entry (codes "a")) (unfold exchanging in refl)
      (unfold exchanging in refl) afterwards

goes_on_with_chunk : (read_on resulting 0 7).1 ≡ yielded (codes "xyz")
unfolding exchanging read_on
goes_on_with_chunk = refl

pending-Live_example : Live (run as_is (coordinator 2 8) a_run).entries (codes "a") 0
pending-Live_example = pending-Live as_is 2 8 a_run (codes "a") 0 (unfold exchanging in refl)

abbrev frames : List Event
frames =
    goes_on
    ∷ chunk_arrives (1 ∷ [])
    ∷ chunk_arrives (2 ∷ 3 ∷ [])
    ∷ goes_on
    ∷ goes_on
    ∷ end_arrives
    ∷ goes_on
    ∷ []

taken_in_order_example :
    (rest : List Bytes) × ((session 8 (opened (codes "a")) frames).arrived
      ≡ (session 8 (opened (codes "a")) frames).taken ++ rest)
taken_in_order_example = taken_in_order 8 (codes "a") frames

nothing_lost_example :
    (session 8 (opened (codes "a")) frames).arrived ≡ (session 8 (opened (codes "a")) frames).taken
nothing_lost_example = nothing_lost 8 (codes "a") frames (unfold exchanging in refl)
