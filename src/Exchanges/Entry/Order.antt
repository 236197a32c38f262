-- ===== src/Exchanges/Entry/Order.antt =====
-- One exchange with the reader of its body: a session, in which frames arrive and the reader goes on
-- in any order. What arrived and what the reader took are recorded.
pub mod Flow
pub mod Closing
pub mod Chunks
pub mod Reads
pub mod Delivery
use looplink.Base.{
  length, ltb, Bool-cases, ap, ◌∙◌, subst, ℕ, suc, ◌+◌, ◌≤◌, ◌<◌, ◌≡◌, ◌≢◌, refl, sym, ◌⊎◌, inl,
  inr, Bool, true, false, ◌||◌, Option, none, some, List, [], ◌∷◌, ◌++◌, if◌then◌else◌, is_some,
  arith, ℕ_discrete,
}
use mathlib.Core.List.{append-nil, append_assoc}
use looplink.JsMap
use looplink.JsMap.{JsMap, nat_key}
use looplink.JsMap.Laws
use looplink.Forwarding.{ResponseHead}
use looplink.Text.{Text}
use looplink.Exchanges.Entry.{
  resolved, duplicate_start, buffer_exceeded, InternalPending, Start, Bytes, Failure, Read, threw,
  yielded, done, suspended, new_entry, fail_exchange, settle_all, reject_start, finished_entry,
  after_wait, on_response_start, push_chunk, on_response_chunk, on_response_end, pull_buffered,
  pull_failed, pull, resume,
}
use looplink.Exchanges.Entry.Bounds.{
  IsValid, new_entry-IsValid, fail_exchange-IsValid, on_response_end-IsValid,
  on_response_start-IsValid, on_response_chunk-IsValid, pull-IsValid,
}

pub data Reader : Type 0 where
  between over broken : Reader
  awaiting : ℕ → Reader

pub record Session : Type 0 where
  pub entry : InternalPending
  pub reader : Reader
  pub next_ticket : ℕ
  pub arrived : List Bytes
  pub taken : List Bytes

pub data Event : Type 0 where
  head_arrives : ResponseHead → Event
  chunk_arrives : Bytes → Event
  end_arrives goes_on : Event
  fails : Failure → Event

unfoldable pub opened : Text → Session
opened id = record {
  entry = new_entry id;
  reader = between;
  next_ticket = 0;
  arrived = [];
  taken = [];
}

unfoldable pub note : Session → ℕ → InternalPending × Read → Session
note s ticket (e, threw failure) = record s { entry = e; reader = broken }
note s ticket (e, yielded b) = record s { entry = e; reader = between; taken = s.taken ++ b ∷ [] }
note s ticket (e, done) = record s { entry = e; reader = over }
note s ticket (e, suspended) = record s { entry = e; reader = awaiting ticket }

unfoldable pub go_on : Session → Reader → Session
unfolding note
go_on s between =
    note (record s { next_ticket = suc s.next_ticket }) s.next_ticket (pull s.entry s.next_ticket)
go_on s (awaiting ticket) = note s ticket (resume s.entry ticket)
go_on s over = s
go_on s broken = s

unfoldable pub occur : ℕ → Session → Event → Session
unfolding go_on
occur max s (head_arrives head) = record s { entry = (on_response_start s.entry head).0 }
occur max s (chunk_arrives b) = record s {
  entry = (on_response_chunk max s.entry b).0;
  arrived =
      (if s.entry.body_ended || is_some s.entry.failed then s.arrived else s.arrived ++ b ∷ []);
}
occur max s end_arrives = record s { entry = (on_response_end s.entry).0 }
occur max s (fails failure) = record s { entry = (fail_exchange s.entry failure).0 }
occur max s goes_on = go_on s s.reader

unfoldable pub session : ℕ → Session → List Event → Session
unfolding occur
session max s [] = s
session max s (x ∷ xs) = session max (occur max s x) xs
