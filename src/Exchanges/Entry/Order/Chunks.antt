-- ===== src/Exchanges/Entry/Order/Chunks.antt =====
-- A chunk that arrives is ignored, handed to the reader, refused, or stored.
use looplink.Exchanges.Entry.Order.{
  Reader, between, over, broken, awaiting, Session, chunk_arrives, occur,
}
use looplink.Exchanges.Entry.Order.Closing.{append4, closed-Flow, failed_entry}
use looplink.Exchanges.Entry.Order.Flow.{nothing_yet, a_chunk, the_end, Place, Flow}
use looplink.Base.{
  length, ltb, Bool-cases, subst, ℕ, ◌+◌, ◌<◌, ◌≡◌, refl, sym, inl, inr, true, false, ◌||◌, some,
  List, [], ◌∷◌, ◌++◌, if◌then◌else◌, is_some, arith,
}
use mathlib.Core.List.{append-nil}
use looplink.JsMap
use looplink.JsMap.{JsMap, nat_key}
use looplink.JsMap.Laws
use looplink.Exchanges.Entry.{
  buffer_exceeded, InternalPending, Bytes, fail_exchange, reject_start, push_chunk,
  on_response_chunk,
}
use looplink.Exchanges.Entry.Bounds.{IsValid, on_response_chunk-IsValid}

abbrev given_entry : InternalPending → ℕ → List ℕ → Bytes → InternalPending
given_entry e t rest b = record e { chunk_waiters = rest; settled = JsMap.set t (some b) e.settled }

abbrev buffered_entry : InternalPending → Bytes → InternalPending
buffered_entry e b = record e {
  chunk_buffer = e.chunk_buffer ++ b ∷ [];
  buffered_bytes = e.buffered_bytes + length b;
}

-- What comes of a chunk.
data Chunked (max : ℕ) (e : InternalPending) (b : Bytes) : Type 0 where
  ignored :
      (e.body_ended || is_some e.failed) ≡ true
      → (on_response_chunk max e b).0 ≡ e
      → Chunked max e b
  handed_over :
      (t : ℕ) (rest : List ℕ)
      → (e.body_ended || is_some e.failed) ≡ false
      → e.chunk_waiters ≡ t ∷ rest
      → (on_response_chunk max e b).0 ≡ given_entry e t rest b
      → Chunked max e b
  refused :
      (e.body_ended || is_some e.failed) ≡ false
      → e.chunk_waiters ≡ []
      → (on_response_chunk max e b).0 ≡ failed_entry e (buffer_exceeded max)
      → Chunked max e b
  stored :
      (e.body_ended || is_some e.failed) ≡ false
      → e.chunk_waiters ≡ []
      → (on_response_chunk max e b).0 ≡ buffered_entry e b
      → Chunked max e b

live_not_failed :
    (e : InternalPending)
    → (e.body_ended || is_some e.failed) ≡ false
    → (e.body_ended ≡ false) × (is_some e.failed ≡ false)
live_not_failed e h = ground arith

push_chunk-Chunked :
    (max : ℕ) (e : InternalPending) (b : Bytes) (ws : List ℕ)
    → e.chunk_waiters ≡ ws
    → (e.body_ended || is_some e.failed) ≡ false
    → (on_response_chunk max e b).0 ≡ (push_chunk max e b ws).0
    → Chunked max e b
unfolding push_chunk fail_exchange
push_chunk-Chunked max e b (t ∷ rest) p live q = handed_over t rest live p q
push_chunk-Chunked max e b [] p live q = elim (Bool-cases (ltb max (e.buffered_bytes + length b))) [
  | inl full ↦ refused live p (ground (arith, live_not_failed e live))
  | inr room ↦ stored live p (ground arith)
]

on_response_chunk-Chunked : (max : ℕ) (e : InternalPending) (b : Bytes) → Chunked max e b
unfolding on_response_chunk
on_response_chunk-Chunked max e b = elim (Bool-cases (e.body_ended || is_some e.failed)) [
  | inl h ↦ ignored h (ground arith)
  | inr h ↦ push_chunk-Chunked max e b e.chunk_waiters refl h (ground arith)
]

handed_balance :
    (a t f k l : List Bytes) (b : Bytes)
    → a ≡ t ++ (f ++ (k ++ l))
    → f ≡ []
    → k ≡ []
    → l ≡ []
    → a ++ b ∷ [] ≡ t ++ (b ∷ [] ++ (k ++ l))
handed_balance a t f k l b p pf pk pl = ground (arith, append-nil t)

stored_balance :
    (a t f k l : List Bytes) (b : Bytes)
    → a ≡ t ++ (f ++ (k ++ l))
    → l ≡ []
    → a ++ b ∷ [] ≡ t ++ (f ++ ((k ++ b ∷ []) ++ l))
stored_balance a t f k l b p pl = ground (arith, append4 t f k l (b ∷ []), append-nil (k ++ b ∷ []))

module _ (max : ℕ) (s : Session) (fl : Flow max s) where
  arrived_live :
      (b : Bytes)
      → (s.entry.body_ended || is_some s.entry.failed) ≡ false
      → (if s.entry.body_ended || is_some s.entry.failed then s.arrived else s.arrived ++ b ∷ [])
        ≡ s.arrived ++ b ∷ []
  arrived_live b h = ground arith

  handed-Place :
      (b : Bytes) (t : ℕ) (rest : List ℕ) (r : Reader) (flight lost : List Bytes)
      → s.entry.chunk_waiters ≡ t ∷ rest
      → Place r s.entry s.next_ticket flight lost
      → (t < s.next_ticket)
        × (flight ≡ [])
        × Place r (given_entry s.entry t rest b) s.next_ticket (b ∷ []) lost
  handed-Place b t rest between flight lost w p = ground arith
  handed-Place b t rest over flight lost w p = ground arith
  handed-Place b t rest broken flight lost w p = ground arith
  handed-Place b t rest (awaiting u) flight lost w (h, nothing_yet x g) = (
    ground arith,
    refl,
    (h, a_chunk b (ground arith) (ground (arith, Laws.get-set t u (some b) s.entry.settled))),
  )
  handed-Place b t rest (awaiting u) flight lost w (h, a_chunk c x g) = ground arith
  handed-Place b t rest (awaiting u) flight lost w (h, the_end x g d e) = ground arith

  handed-Flow :
      (b : Bytes) (t : ℕ) (rest : List ℕ)
      → (s.entry.body_ended || is_some s.entry.failed) ≡ false
      → s.entry.chunk_waiters ≡ t ∷ rest
      → IsValid max (given_entry s.entry t rest b)
      → Flow max (record s { entry = given_entry s.entry t rest b; arrived = s.arrived ++ b ∷ [] })
  handed-Flow b t rest h w v =
      let (below, none_given, place') =
        handed-Place b t rest s.reader fl.flight fl.lost w fl.place in
      record {
        valid = v;
        fresh =
            λ x k. ground (arith, fl.fresh x k, Laws.get-set t x (some b) s.entry.settled, below);
        flight = b ∷ [];
        lost = fl.lost;
        balance =
            handed_balance s.arrived s.taken fl.flight s.entry.chunk_buffer fl.lost b fl.balance
              none_given (ground (arith, fl.valid.one_side))
              (fl.lossless (live_not_failed s.entry h).1);
        lossless = fl.lossless;
        place = place';
      }

  stored-Place :
      (b : Bytes) (r : Reader) (flight lost : List Bytes)
      → (s.entry.body_ended ≡ false) × (is_some s.entry.failed ≡ false)
      → s.entry.chunk_waiters ≡ []
      → Place r s.entry s.next_ticket flight lost
      → Place r (buffered_entry s.entry b) s.next_ticket flight lost
  stored-Place b between flight lost h w p = p
  stored-Place b over flight lost h w p = ground arith
  stored-Place b broken flight lost h w p = p
  stored-Place b (awaiting u) flight lost h w (k, nothing_yet x g) = ground arith
  stored-Place b (awaiting u) flight lost h w (k, a_chunk c x g) = (k, a_chunk c x g)
  stored-Place b (awaiting u) flight lost h w (k, the_end x g d e) = ground arith

  stored-Flow :
      (b : Bytes)
      → (s.entry.body_ended || is_some s.entry.failed) ≡ false
      → s.entry.chunk_waiters ≡ []
      → IsValid max (buffered_entry s.entry b)
      → Flow max (record s { entry = buffered_entry s.entry b; arrived = s.arrived ++ b ∷ [] })
  stored-Flow b h w v = record {
    valid = v;
    fresh = fl.fresh;
    flight = fl.flight;
    lost = fl.lost;
    balance =
        stored_balance s.arrived s.taken fl.flight s.entry.chunk_buffer fl.lost b fl.balance
          (fl.lossless (live_not_failed s.entry h).1);
    lossless = fl.lossless;
    place = stored-Place b s.reader fl.flight fl.lost (live_not_failed s.entry h) w fl.place;
  }

  refused-Flow :
      (b : Bytes)
      → (s.entry.body_ended || is_some s.entry.failed) ≡ false
      → IsValid max (failed_entry s.entry (buffer_exceeded max))
      → Flow max (record s {
        entry = failed_entry s.entry (buffer_exceeded max);
        arrived = s.arrived ++ b ∷ [];
      })
  refused-Flow b h v =
      closed-Flow max s fl (reject_start s.entry.start (buffer_exceeded max))
        (some (buffer_exceeded max)) (b ∷ []) (s.arrived ++ b ∷ []) refl (λ k. refl) (λ k. cc)
        (λ k. ground (arith, live_not_failed s.entry h)) v

  arrives_as :
      (b : Bytes) (e : InternalPending) (a : List Bytes)
      → (on_response_chunk max s.entry b).0 ≡ e
      → (if s.entry.body_ended || is_some s.entry.failed then s.arrived else s.arrived ++ b ∷ [])
        ≡ a
      → Flow max (record s { entry = e; arrived = a })
      → Flow max (occur max s (chunk_arrives b))
  unfolding occur
  arrives_as b e a p q w =
      subst
        (λ x. Flow max (record s {
          entry = x;
          arrived =
              (if s.entry.body_ended || is_some s.entry.failed
                then s.arrived
                else s.arrived ++ b ∷ []);
        }))
        (sym p) (subst (λ x. Flow max (record s { entry = e; arrived = x })) (sym q) w)

  pub chunk-Flow : (b : Bytes) → Flow max (occur max s (chunk_arrives b))
  chunk-Flow b =
      let v = on_response_chunk-IsValid max s.entry fl.valid b in
      elim (on_response_chunk-Chunked max s.entry b) [
        | ignored h p ↦ arrives_as b s.entry s.arrived p (ground arith) fl
        | handed_over t rest h w p ↦
            arrives_as b (given_entry s.entry t rest b) (s.arrived ++ b ∷ []) p (arrived_live b h)
              (handed-Flow b t rest h w (subst (IsValid max) p v))
        | refused h w p ↦
            arrives_as b (failed_entry s.entry (buffer_exceeded max)) (s.arrived ++ b ∷ []) p
              (arrived_live b h) (refused-Flow b h (subst (IsValid max) p v))
        | stored h w p ↦
            arrives_as b (buffered_entry s.entry b) (s.arrived ++ b ∷ []) p (arrived_live b h)
              (stored-Flow b h w (subst (IsValid max) p v))
      ]
