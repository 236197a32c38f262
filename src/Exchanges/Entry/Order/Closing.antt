-- ===== src/Exchanges/Entry/Order/Closing.antt =====
-- The frames that answer the head, end the body, or fail the exchange.
use looplink.Forwarding.{ResponseHead}
use looplink.Exchanges.Entry.Order.{Reader, between, over, broken, awaiting, Session}
use looplink.Exchanges.Entry.Order.Flow.{Given, nothing_yet, a_chunk, the_end, Place, Flow}
use looplink.Base.{
  Bool-cases, ap, ◌∙◌, subst, ℕ, ◌≤◌, ◌<◌, ◌≡◌, refl, sym, ◌⊎◌, inl, inr, true, false, Option, none,
  some, List, [], ◌∷◌, ◌++◌, is_some, arith,
}
use mathlib.Core.List.{append-nil, append_assoc}
use looplink.JsMap
use looplink.JsMap.{JsMap, nat_key}
use looplink.JsMap.Laws
use looplink.Exchanges.Entry.{
  resolved, duplicate_start, InternalPending, Start, Bytes, Failure, fail_exchange, settle_all,
  reject_start, finished_entry, on_response_start, on_response_end,
}
use looplink.Exchanges.Entry.Bounds.{
  IsValid, fail_exchange-IsValid, on_response_end-IsValid, on_response_start-IsValid,
}

-- An exchange that ends: its waiters are settled.
abbrev closed : InternalPending → Start → Option Failure → InternalPending
closed e start' failed' = record (finished_entry e) { start = start'; failed = failed' }

abbrev pub failed_entry : InternalPending → Failure → InternalPending
failed_entry e failure = closed e (reject_start e.start failure) (some failure)

abbrev resolved_entry : InternalPending → ResponseHead → InternalPending
resolved_entry e head = record e { start = resolved head }

fail_exchange-cases :
    (e : InternalPending) (failure : Failure)
    → ((fail_exchange e failure).0 ≡ e) ⊎ ((fail_exchange e failure).0 ≡ failed_entry e failure)
unfolding fail_exchange
fail_exchange-cases e failure = ground arith

on_response_end-cases :
    (e : InternalPending) → ((on_response_end e).0 ≡ e) ⊎ ((on_response_end e).0 ≡ finished_entry e)
unfolding on_response_end
on_response_end-cases e = ground arith

on_response_start-cases :
    (e : InternalPending) (head : ResponseHead)
    → ((on_response_start e head).0 ≡ resolved_entry e head)
      ⊎ ((on_response_start e head).0 ≡ (fail_exchange e duplicate_start).0)
unfolding on_response_start
on_response_start-cases e head = ground arith

pub append4 : (t f b l x : List Bytes) → (t ++ (f ++ (b ++ l))) ++ x ≡ t ++ (f ++ (b ++ (l ++ x)))
append4 t f b l x = simp (append_assoc)

settle_nobody : (ws : List ℕ) (m : JsMap ℕ (Option Bytes)) → ws ≡ [] → settle_all ws m ≡ m
unfolding settle_all
settle_nobody [] m p = refl
settle_nobody (w ∷ ws) m p = ground arith

settle_one :
    (t : ℕ) (ws : List ℕ) (m : JsMap ℕ (Option Bytes))
    → ws ≡ t ∷ []
    → settle_all ws m ≡ JsMap.set t none m
unfolding settle_all
settle_one t [] m p = ground arith
settle_one t (w ∷ []) m p = ground arith
settle_one t (w ∷ x ∷ ws) m p = ground arith

settled_at :
    (t : ℕ) (ws : List ℕ) (m : JsMap ℕ (Option Bytes))
    → ws ≡ t ∷ []
    → JsMap.get t (settle_all ws m) ≡ some none
settled_at t ws m p = ground (arith, settle_one t ws m p, Laws.get-set_self t none m)

module _ (max : ℕ) (s : Session) (fl : Flow max s) where
  closed-Given :
      (t : ℕ) (start' : Start) (failed' : Option Failure) (flight : List Bytes)
      → Given s.entry t flight
      → Given (closed s.entry start' failed') t flight
  unfolding settle_all
  closed-Given t start' failed' flight (nothing_yet w g) =
      the_end refl (settled_at t s.entry.chunk_waiters s.entry.settled w) refl
        (ground (arith, w, fl.valid.one_side))
  closed-Given t start' failed' flight (a_chunk b w g) =
      a_chunk b refl (ground (arith, w, g, settle_nobody s.entry.chunk_waiters s.entry.settled w))
  closed-Given t start' failed' flight (the_end w g d b) =
      the_end refl (ground (arith, w, g, settle_nobody s.entry.chunk_waiters s.entry.settled w))
        refl b

  waiters_known :
      (r : Reader) (flight lost : List Bytes)
      → Place r s.entry s.next_ticket flight lost
      → (s.entry.chunk_waiters ≡ [])
        ⊎ ((t : ℕ) × (t < s.next_ticket) × (s.entry.chunk_waiters ≡ t ∷ []))
  waiters_known between flight lost p = inl p.0
  waiters_known over flight lost p = inl p.0
  waiters_known broken flight lost p = inl p.0
  waiters_known (awaiting t) flight lost (h, nothing_yet w g) = inr (t, h, w)
  waiters_known (awaiting t) flight lost (h, a_chunk b w g) = inl w
  waiters_known (awaiting t) flight lost (h, the_end w g d b) = inl w

  closed-fresh :
      (t : ℕ)
      → s.next_ticket ≤ t
      → JsMap.get t (settle_all s.entry.chunk_waiters s.entry.settled) ≡ none
  closed-fresh t h = elim (waiters_known s.reader fl.flight fl.lost fl.place) [
    | inl w ↦ ground (arith, settle_nobody s.entry.chunk_waiters s.entry.settled w, fl.fresh t h)
    | inr (u, below, w) ↦ ground (
      arith,
      settle_one u s.entry.chunk_waiters s.entry.settled w,
      fl.fresh t h,
      Laws.get-set u t none s.entry.settled,
    )
  ]

  no_loss :
      (failed' : Option Failure) (extra : List Bytes)
      → (is_some s.entry.failed ≡ true → is_some failed' ≡ true)
      → (is_some failed' ≡ false → extra ≡ [])
      → is_some failed' ≡ false
      → fl.lost ++ extra ≡ []
  no_loss failed' extra k a h = elim (Bool-cases (is_some s.entry.failed)) [
    | inl was ↦ ground (arith, k was, h)
    | inr not ↦ ap (λ l. l ++ extra) (fl.lossless not) ∙ a h
  ]

  more_lost :
      (r : Reader) (flight lost extra : List Bytes)
      → (s.entry.body_ended ≡ true → extra ≡ [])
      → Place r s.entry s.next_ticket flight lost
      → Place r s.entry s.next_ticket flight (lost ++ extra)
  more_lost between flight lost extra b p = p
  more_lost over flight lost extra b (w, f, c, d, e) = (w, f, c, d, ap (λ l. l ++ extra) e ∙ b d)
  more_lost broken flight lost extra b p = p
  more_lost (awaiting t) flight lost extra b p = p

  closed-Place :
      (r : Reader) (start' : Start) (failed' : Option Failure) (flight lost : List Bytes)
      → (is_some s.entry.failed ≡ true → is_some failed' ≡ true)
      → Place r s.entry s.next_ticket flight lost
      → Place r (closed s.entry start' failed') s.next_ticket flight lost
  unfolding settle_all
  closed-Place between start' failed' flight lost k p = (refl, p.1)
  closed-Place over start' failed' flight lost k (a, b, c, d, e) = (refl, b, c, refl, e)
  closed-Place broken start' failed' flight lost k p = (refl, k p.1)
  closed-Place (awaiting t) start' failed' flight lost k (h, g) =
      (h, closed-Given t start' failed' flight g)

  resolved-Place :
      (head : ResponseHead) (r : Reader) (flight lost : List Bytes)
      → Place r s.entry s.next_ticket flight lost
      → Place r (resolved_entry s.entry head) s.next_ticket flight lost
  resolved-Place head between flight lost p = p
  resolved-Place head over flight lost p = p
  resolved-Place head broken flight lost p = p
  resolved-Place head (awaiting t) flight lost (h, nothing_yet w g) = (h, nothing_yet w g)
  resolved-Place head (awaiting t) flight lost (h, a_chunk b w g) = (h, a_chunk b w g)
  resolved-Place head (awaiting t) flight lost (h, the_end w g d b) = (h, the_end w g d b)

  -- Ending an exchange, with the chunk that it has no room for.
  pub closed-Flow :
      (start' : Start) (failed' : Option Failure) (extra arrived' : List Bytes)
      → arrived' ≡ s.arrived ++ extra
      → (is_some s.entry.failed ≡ true → is_some failed' ≡ true)
      → (is_some failed' ≡ false → extra ≡ [])
      → (s.entry.body_ended ≡ true → extra ≡ [])
      → IsValid max (closed s.entry start' failed')
      → Flow max (record s { entry = closed s.entry start' failed'; arrived = arrived' })
  closed-Flow start' failed' extra arrived' p k a b v = record {
    valid = v;
    fresh = closed-fresh;
    flight = fl.flight;
    lost = fl.lost ++ extra;
    balance =
        p
        ∙ ap (λ l. l ++ extra) fl.balance
        ∙ append4 s.taken fl.flight s.entry.chunk_buffer fl.lost extra;
    lossless = λ h. no_loss failed' extra k a h;
    place =
        closed-Place s.reader start' failed' fl.flight (fl.lost ++ extra) k
          (more_lost s.reader fl.flight fl.lost extra b fl.place);
  }

  closed_same-Flow :
      (start' : Start) (failed' : Option Failure)
      → (is_some s.entry.failed ≡ true → is_some failed' ≡ true)
      → IsValid max (closed s.entry start' failed')
      → Flow max (record s { entry = closed s.entry start' failed' })
  closed_same-Flow start' failed' k v =
      closed-Flow start' failed' [] s.arrived (sym (append-nil s.arrived)) k (λ h. refl) (λ h. refl)
        v

  entry_as :
      (e e' : InternalPending)
      → e ≡ e'
      → Flow max (record s { entry = e' })
      → Flow max (record s { entry = e })
  entry_as e e' p w = subst (λ x. Flow max (record s { entry = x })) (sym p) w

  pub fail-Flow :
      (failure : Failure) → Flow max (record s { entry = (fail_exchange s.entry failure).0 })
  fail-Flow failure = elim (fail_exchange-cases s.entry failure) [
    | inl p ↦ entry_as (fail_exchange s.entry failure).0 s.entry p fl
    | inr p ↦ entry_as (fail_exchange s.entry failure).0 (failed_entry s.entry failure) p (
        closed_same-Flow (reject_start s.entry.start failure) (some failure) (λ h. refl)
          (subst (IsValid max) p (fail_exchange-IsValid max s.entry fl.valid failure)))
  ]

  pub end-Flow : Flow max (record s { entry = (on_response_end s.entry).0 })
  end-Flow = elim (on_response_end-cases s.entry) [
    | inl p ↦ entry_as (on_response_end s.entry).0 s.entry p fl
    | inr p ↦ entry_as (on_response_end s.entry).0 (finished_entry s.entry) p (
        closed_same-Flow s.entry.start s.entry.failed (λ h. h)
          (subst (IsValid max) p (on_response_end-IsValid max s.entry fl.valid)))
  ]

  resolved-Flow :
      (head : ResponseHead)
      → IsValid max (resolved_entry s.entry head)
      → Flow max (record s { entry = resolved_entry s.entry head })
  resolved-Flow head v = record {
    valid = v;
    fresh = fl.fresh;
    flight = fl.flight;
    lost = fl.lost;
    balance = fl.balance;
    lossless = fl.lossless;
    place = resolved-Place head s.reader fl.flight fl.lost fl.place;
  }

  pub head-Flow :
      (head : ResponseHead) → Flow max (record s { entry = (on_response_start s.entry head).0 })
  head-Flow head = elim (on_response_start-cases s.entry head) [
    | inl p ↦ entry_as (on_response_start s.entry head).0 (resolved_entry s.entry head) p (
        resolved-Flow head
          (subst (IsValid max) p (on_response_start-IsValid max s.entry fl.valid head)))
    | inr p ↦
        entry_as (on_response_start s.entry head).0 (fail_exchange s.entry duplicate_start).0 p
          (fail-Flow duplicate_start)
  ]
