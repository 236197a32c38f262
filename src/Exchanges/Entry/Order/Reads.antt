-- ===== src/Exchanges/Entry/Order/Reads.antt =====
-- The reader asks for a chunk, or goes on after its wait.
use looplink.Exchanges.Entry.Order.{Reader, between, over, broken, awaiting, Session, go_on, note}
use looplink.Exchanges.Entry.Order.Flow.{Given, nothing_yet, a_chunk, the_end, Place, Flow}
use looplink.Base.{
  ap, ◌∙◌, ℕ, suc, ◌<◌, ◌≡◌, refl, Bool, true, false, Option, none, some, List, [], ◌∷◌, ◌++◌,
  if◌then◌else◌, is_some, arith,
}
use mathlib.Core.List.{append_assoc}
use looplink.JsMap
use looplink.JsMap.{JsMap, nat_key}
use looplink.Exchanges.Entry.{
  InternalPending, Bytes, Failure, Read, done, suspended, after_wait, pull_buffered, pull_failed,
  pull, resume,
}
use looplink.Exchanges.Entry.Bounds.{IsValid, pull-IsValid}

taken_balance :
    (a t f k l bs : List Bytes) (b : Bytes)
    → a ≡ t ++ (f ++ (k ++ l))
    → f ++ k ≡ b ∷ bs
    → a ≡ (t ++ b ∷ []) ++ ([] ++ (bs ++ l))
taken_balance a t f k l bs b p q =
    ground (arith, append_assoc t (b ∷ []) (bs ++ l), append_assoc f k l)

module _ (max : ℕ) (s : Session) (fl : Flow max s) where
  -- The session whose reader has taken its next ticket.
  abbrev asked : Session
  asked = record s { next_ticket = suc s.next_ticket }

  abbrev dry : Bool → InternalPending × Read
  dry c = if c then (s.entry, done) else (
    record s.entry { chunk_waiters = s.entry.chunk_waiters ++ s.next_ticket ∷ [] },
    suspended,
  )

  dry-Flow :
      (c : Bool)
      → s.entry.body_ended ≡ c
      → s.entry.chunk_buffer ≡ []
      → is_some s.entry.failed ≡ false
      → (s.entry.chunk_waiters ≡ []) × (fl.flight ≡ [])
      → IsValid max (dry c).0
      → Flow max (note asked s.next_ticket (dry c))
  unfolding note
  dry-Flow true h k live p v = record {
    valid = fl.valid;
    fresh = λ t n. fl.fresh t (omega (arith, n));
    flight = fl.flight;
    lost = fl.lost;
    balance = fl.balance;
    lossless = fl.lossless;
    place = (p.0, p.1, k, h, fl.lossless live);
  }
  dry-Flow false h k live p v = record {
    valid = v;
    fresh = λ t n. fl.fresh t (omega (arith, n));
    flight = [];
    lost = fl.lost;
    balance = ground (arith, fl.balance, p.1);
    lossless = fl.lossless;
    place = (omega arith, nothing_yet (ground (arith, p.0)) (fl.fresh s.next_ticket (omega arith)));
  }

  buffered-Flow :
      (bs : List Bytes)
      → s.entry.chunk_buffer ≡ bs
      → is_some s.entry.failed ≡ false
      → (s.entry.chunk_waiters ≡ []) × (fl.flight ≡ [])
      → IsValid max (pull_buffered s.entry s.next_ticket bs).0
      → Flow max (note asked s.next_ticket (pull_buffered s.entry s.next_ticket bs))
  unfolding pull_buffered note
  buffered-Flow [] k live p v = dry-Flow s.entry.body_ended refl k live p v
  buffered-Flow (b ∷ bs) k live p v = record {
    valid = v;
    fresh = λ t n. fl.fresh t (omega (arith, n));
    flight = [];
    lost = fl.lost;
    balance =
        taken_balance s.arrived s.taken fl.flight s.entry.chunk_buffer fl.lost bs b fl.balance
          (ap (λ x. x ++ s.entry.chunk_buffer) p.1 ∙ k);
    lossless = fl.lossless;
    place = (p.0, refl);
  }

  pull-Flow :
      (o : Option Failure)
      → s.entry.failed ≡ o
      → (s.entry.chunk_waiters ≡ []) × (fl.flight ≡ [])
      → IsValid max (pull_failed s.entry s.next_ticket o).0
      → Flow max (note asked s.next_ticket (pull_failed s.entry s.next_ticket o))
  unfolding pull_failed note
  pull-Flow none q p v = buffered-Flow s.entry.chunk_buffer refl (ap (λ x. is_some x) q) p v
  pull-Flow (some failure) q p v = record {
    valid = fl.valid;
    fresh = λ t n. fl.fresh t (omega (arith, n));
    flight = fl.flight;
    lost = fl.lost;
    balance = fl.balance;
    lossless = fl.lossless;
    place = (p.0, ap (λ x. is_some x) q);
  }

  waiters_settled :
      (t : ℕ) (flight : List Bytes) (result : Option Bytes)
      → JsMap.get t s.entry.settled ≡ some result
      → Given s.entry t flight
      → s.entry.chunk_waiters ≡ []
  waiters_settled t flight result g (nothing_yet w n) = ground arith
  waiters_settled t flight result g (a_chunk b w n) = w
  waiters_settled t flight result g (the_end w n h k) = w

  end_settled :
      (t : ℕ) (flight : List Bytes)
      → JsMap.get t s.entry.settled ≡ some none
      → Given s.entry t flight
      → (s.entry.chunk_waiters ≡ [])
        × (flight ≡ [])
        × (s.entry.chunk_buffer ≡ [])
        × (s.entry.body_ended ≡ true)
  end_settled t flight g (nothing_yet w n) = ground arith
  end_settled t flight g (a_chunk b w n) = ground arith
  end_settled t flight g (the_end w n h k) = (w, refl, k, h)

  chunk_settled :
      (t : ℕ) (flight : List Bytes) (b : Bytes)
      → JsMap.get t s.entry.settled ≡ some (some b)
      → Given s.entry t flight
      → flight ≡ b ∷ []
  chunk_settled t flight b g (nothing_yet w n) = ground arith
  chunk_settled t flight b g (a_chunk c w n) = ground arith
  chunk_settled t flight b g (the_end w n h k) = ground arith

  -- The reader goes on after its wait.
  resume-Flow :
      (t : ℕ) (o : Option Failure) (got : Option (Option Bytes)) (flight : List Bytes)
      → s.entry.failed ≡ o
      → JsMap.get t s.entry.settled ≡ got
      → t < s.next_ticket
      → Given s.entry t flight
      → fl.flight ≡ flight
      → Flow max (note s t (s.entry, after_wait o got))
  unfolding note
  resume-Flow t o none flight q g below given e = record {
    valid = fl.valid;
    fresh = fl.fresh;
    flight = flight;
    lost = fl.lost;
    balance = ground (arith, fl.balance, e);
    lossless = fl.lossless;
    place = (below, given);
  }
  resume-Flow t (some failure) (some result) flight q g below given e = record {
    valid = fl.valid;
    fresh = fl.fresh;
    flight = fl.flight;
    lost = fl.lost;
    balance = fl.balance;
    lossless = fl.lossless;
    place = (waiters_settled t flight result g given, ap (λ x. is_some x) q);
  }
  resume-Flow t none (some none) flight q g below given e = record {
    valid = fl.valid;
    fresh = fl.fresh;
    flight = fl.flight;
    lost = fl.lost;
    balance = fl.balance;
    lossless = fl.lossless;
    place =
        let (w, none_left, k, h) = end_settled t flight g given in
        (w, e ∙ none_left, k, h, fl.lossless (ap (λ x. is_some x) q));
  }
  resume-Flow t none (some (some b)) flight q g below given e = record {
    valid = fl.valid;
    fresh = fl.fresh;
    flight = [];
    lost = fl.lost;
    balance =
        taken_balance s.arrived s.taken fl.flight s.entry.chunk_buffer fl.lost s.entry.chunk_buffer
          b fl.balance (ap (λ x. x ++ s.entry.chunk_buffer) (e ∙ chunk_settled t flight b g given));
    lossless = fl.lossless;
    place = (waiters_settled t flight (some b) g given, refl);
  }

  pub go_on-Flow :
      (r : Reader) → Place r s.entry s.next_ticket fl.flight fl.lost → Flow max (go_on s r)
  unfolding go_on pull resume
  go_on-Flow between p =
      pull-Flow s.entry.failed refl p (pull-IsValid max s.entry fl.valid s.next_ticket)
  go_on-Flow over p = fl
  go_on-Flow broken p = fl
  go_on-Flow (awaiting t) (h, given) =
      resume-Flow t s.entry.failed (JsMap.get t s.entry.settled) fl.flight refl refl h given refl
