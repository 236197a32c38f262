-- ===== src/Exchanges/Entry/Order/Flow.antt =====
-- What holds of a session throughout: where every chunk that arrived is now.
use looplink.Exchanges.Entry.Order.{Reader, between, over, broken, awaiting, Session, opened}
use looplink.Base.{ℕ, ◌≤◌, ◌<◌, ◌≡◌, refl, true, false, none, some, List, [], ◌∷◌, ◌++◌, is_some}
use looplink.JsMap
use looplink.JsMap.{JsMap, nat_key}
use looplink.Text.{Text}
use looplink.Exchanges.Entry.{InternalPending, Bytes, new_entry}
use looplink.Exchanges.Entry.Bounds.{IsValid, new_entry-IsValid}

-- What a waiting reader was given: nothing yet, a chunk, or the end.
pub data Given (e : InternalPending) (t : ℕ) : List Bytes → Type 0 where
  nothing_yet : e.chunk_waiters ≡ t ∷ [] → JsMap.get t e.settled ≡ none → Given e t []
  a_chunk :
      (b : Bytes)
      → e.chunk_waiters ≡ []
      → JsMap.get t e.settled ≡ some (some b)
      → Given e t (b ∷ [])
  the_end :
      e.chunk_waiters ≡ []
      → JsMap.get t e.settled ≡ some none
      → e.body_ended ≡ true
      → e.chunk_buffer ≡ []
      → Given e t []

abbrev pub Place : Reader → InternalPending → ℕ → List Bytes → List Bytes → Type 0
Place between e n flight lost = (e.chunk_waiters ≡ []) × (flight ≡ [])
Place over e n flight lost =
    (e.chunk_waiters ≡ [])
    × (flight ≡ [])
    × (e.chunk_buffer ≡ [])
    × (e.body_ended ≡ true)
    × (lost ≡ [])
Place broken e n flight lost = (e.chunk_waiters ≡ []) × (is_some e.failed ≡ true)
Place (awaiting t) e n flight lost = (t < n) × Given e t flight

-- What arrived is what was taken, what the reader was given in its wait, what is buffered, and what
-- was lost, in this order. Only an exchange that failed has lost anything.
pub record Flow (max : ℕ) (s : Session) : Type 0 where
  pub valid : IsValid max s.entry
  pub fresh : (t : ℕ) → s.next_ticket ≤ t → JsMap.get t s.entry.settled ≡ none
  pub flight : List Bytes
  pub lost : List Bytes
  pub balance : s.arrived ≡ s.taken ++ (flight ++ (s.entry.chunk_buffer ++ lost))
  pub lossless : is_some s.entry.failed ≡ false → lost ≡ []
  pub place : Place s.reader s.entry s.next_ticket flight lost

pub opened-Flow : (max : ℕ) (id : Text) → Flow max (opened id)
unfolding opened new_entry JsMap.get
opened-Flow max id = record {
  valid = new_entry-IsValid max id;
  fresh = λ t h. refl;
  flight = [];
  lost = [];
  balance = refl;
  lossless = λ h. refl;
  place = (refl, refl);
}
