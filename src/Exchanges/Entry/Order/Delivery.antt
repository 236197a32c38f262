-- ===== src/Exchanges/Entry/Order/Delivery.antt =====
-- What the reader of a body takes, in every order of frames and reads.
use looplink.Exchanges.Entry.Order.{
  opened, session, Reader, between, over, broken, awaiting, Session, Event, head_arrives,
  chunk_arrives, end_arrives, goes_on, fails, occur, session,
}
use looplink.Exchanges.Entry.Order.Chunks.{chunk-Flow}
use looplink.Exchanges.Entry.Order.Closing.{end-Flow, fail-Flow, head-Flow}
use looplink.Exchanges.Entry.Order.Flow.{opened-Flow, Place, Flow}
use looplink.Exchanges.Entry.Order.Reads.{go_on-Flow}
use looplink.Base.{ℕ, ◌≡◌, List, [], ◌∷◌, ◌++◌, arith}
use mathlib.Core.List.{append-nil}
use looplink.JsMap.{nat_key}
use looplink.Text.{Text}
use looplink.Exchanges.Entry.{Bytes}

module _ (max : ℕ) (s : Session) (fl : Flow max s) where
  occur-Flow : (x : Event) → Flow max (occur max s x)
  unfolding occur
  occur-Flow (head_arrives head) = head-Flow max s fl head
  occur-Flow (chunk_arrives b) = chunk-Flow max s fl b
  occur-Flow end_arrives = end-Flow max s fl
  occur-Flow goes_on = go_on-Flow max s fl s.reader fl.place
  occur-Flow (fails failure) = fail-Flow max s fl failure

all_taken :
    (max : ℕ) (s : Session) (fl : Flow max s) (r : Reader)
    → r ≡ over
    → Place r s.entry s.next_ticket fl.flight fl.lost
    → s.arrived ≡ s.taken
all_taken max s fl over p (w, f, c, d, e) = ground (arith, fl.balance, append-nil s.taken)
all_taken max s fl between p q = ground arith
all_taken max s fl broken p q = ground arith
all_taken max s fl (awaiting t) p q = ground arith

session-Flow : (max : ℕ) (s : Session) (xs : List Event) → Flow max s → Flow max (session max s xs)
unfolding session
session-Flow max s [] fl = fl
session-Flow max s (x ∷ xs) fl = session-Flow max (occur max s x) xs (occur-Flow max s fl x)

-- Whatever arrives at a new exchange and however its reader goes on, what the reader took is a
-- prefix, in order, of the chunks that arrived before the body ended.
pub taken_in_order :
    (max : ℕ) (id : Text) (xs : List Event)
    → (rest : List Bytes) × ((session max (opened id) xs).arrived
        ≡ (session max (opened id) xs).taken ++ rest)
taken_in_order max id xs =
    let fl = session-Flow max (opened id) xs (opened-Flow max id) in
    (fl.flight ++ ((session max (opened id) xs).entry.chunk_buffer ++ fl.lost), fl.balance)

-- A reader that comes to the regular end of a body took every chunk that arrived before that end.
pub nothing_lost :
    (max : ℕ) (id : Text) (xs : List Event)
    → (session max (opened id) xs).reader ≡ over
    → (session max (opened id) xs).arrived ≡ (session max (opened id) xs).taken
nothing_lost max id xs p =
    let fl = session-Flow max (opened id) xs (opened-Flow max id) in
    all_taken max (session max (opened id) xs) fl (session max (opened id) xs).reader p fl.place
