-- ===== src/Exchanges/Waiting.antt =====
-- No wake-up is lost: a read of a body that waits is kept among the waiters until it is settled.
use looplink.Base.{
  ℕ, ◌≡◌, ◌≢◌, refl, sym, ◌∙◌, subst, Bool-cases, ◌⊎◌, inl, inr, Bool, true, false, Option, none,
  some, List, [], ◌∷◌, ◌++◌, ◌+◌, ◌||◌, length, ltb, if◌then◌else◌, is_some, ℕ_discrete, arith,
  Option-cases,
}
use mathlib.Core.List.{Memᴰ}
use mathlib.Core.List.Memᴰ
use mathlib.Core.List.Memᴰ.{head, tail}
use looplink.JsMap
use looplink.JsMap.{JsMap, nat_key}
use looplink.JsMap.Laws
use looplink.Forwarding.{
  BodyEncoding, ResponseHead, request_start, request_chunk, request_end, response_start,
  response_chunk, response_end, cancel,
}
use looplink.Text.{Text, text_key}
use looplink.Exchanges.{
  Coordinator, Message, coordinator, begin, put_back, handle_at, handle_found, handle_pending,
  deliver, complete, fail, read_at, read, read_on, error, frame, cancel_reason,
}
use looplink.Exchanges.Entry.{
  InternalPending, Failure, Bytes, Read, done, suspended, reported, new_entry, settle_all,
  fail_exchange, on_response_start, push_chunk, on_response_chunk, on_response_end, on_cancel, pull,
  pull_failed, pull_buffered, resume, after_wait, is_waiting, duplicate_start, buffer_exceeded,
}
use looplink.Exchanges.Entry.Bounds
use looplink.Exchanges.Table.{IsValid}
use looplink.Exchanges.Runs.{
  Call, beginning, finishing, delivering, failing, reading, reading_on, call, run, call-IsValid,
  run-IsValid, started-IsValid,
}

module _ (ticket : ℕ) where
  -- The read waits, or what it waited for has been settled.
  abbrev Awaited : InternalPending → Type 0
  Awaited e = Memᴰ ticket e.chunk_waiters ⊎ (is_some (JsMap.get ticket e.settled) ≡ true)

  settled-set :
      (w : ℕ) (v : Option Bytes) (s : JsMap ℕ (Option Bytes))
      → is_some (JsMap.get ticket s) ≡ true
      → is_some (JsMap.get ticket (JsMap.set w v s)) ≡ true
  settled-set w v s h = ground (arith, Laws.get-set w ticket v s)

  settle_all-settled :
      (ws : List ℕ) (s : JsMap ℕ (Option Bytes))
      → Memᴰ ticket ws ⊎ (is_some (JsMap.get ticket s) ≡ true)
      → is_some (JsMap.get ticket (settle_all ws s)) ≡ true
  unfolding settle_all
  settle_all-settled [] s (inl m) = elim m [ ]
  settle_all-settled [] s (inr h) = h
  settle_all-settled (w ∷ ws) s (inl (tail m)) = settle_all-settled ws (JsMap.set w none s) (inl m)
  settle_all-settled (w ∷ ws) s (inl (head same)) =
      settle_all-settled ws (JsMap.set w none s)
        (inr (ground (arith, Laws.get-set w ticket none s)))
  settle_all-settled (w ∷ ws) s (inr h) =
      settle_all-settled ws (JsMap.set w none s) (inr (settled-set w none s h))

  either-Awaited :
      (b : Bool) (x y : InternalPending × Bool)
      → Awaited x.0
      → Awaited y.0
      → Awaited (if◌then◌else◌ {A = InternalPending × Bool} b x y).0
  either-Awaited true x y h k = h
  either-Awaited false x y h k = k

  module _ (e : InternalPending) (a : Awaited e) where
    all_settled : is_some (JsMap.get ticket (settle_all e.chunk_waiters e.settled)) ≡ true
    all_settled = settle_all-settled e.chunk_waiters e.settled a

    fail_exchange-Awaited : (failure : Failure) → Awaited (fail_exchange e failure).0
    unfolding fail_exchange
    fail_exchange-Awaited failure = either-Awaited (is_some e.failed) _ _ a (inr all_settled)

    on_response_end-Awaited : Awaited (on_response_end e).0
    unfolding on_response_end
    on_response_end-Awaited = either-Awaited e.body_ended _ _ a (inr all_settled)

    on_response_start-Awaited : (start : ResponseHead) → Awaited (on_response_start e start).0
    unfolding on_response_start
    on_response_start-Awaited start =
        either-Awaited (is_waiting e.start) _ _ a (fail_exchange-Awaited duplicate_start)

    push_chunk-Awaited :
        (max : ℕ) (chunk : Bytes) (ws : List ℕ)
        → e.chunk_waiters ≡ ws
        → Awaited (push_chunk max e chunk ws).0
    unfolding push_chunk
    push_chunk-Awaited max chunk [] p =
        either-Awaited (ltb max (e.buffered_bytes + length chunk)) _ _
          (fail_exchange-Awaited (buffer_exceeded max)) a
    push_chunk-Awaited max chunk (w ∷ ws) p = go a
      where
        first :
            Memᴰ ticket (w ∷ ws)
            → Memᴰ ticket ws
              ⊎ (is_some (JsMap.get ticket (JsMap.set w (some chunk) e.settled)) ≡ true)
        first (head same) = inr (ground (arith, Laws.get-set w ticket (some chunk) e.settled))
        first (tail m) = inl m

        go :
            Awaited e
            → Memᴰ ticket ws
              ⊎ (is_some (JsMap.get ticket (JsMap.set w (some chunk) e.settled)) ≡ true)
        go (inl m) = first (subst (λ x. Memᴰ ticket x) p m)
        go (inr h) = inr (settled-set w (some chunk) e.settled h)

    on_response_chunk-Awaited :
        (max : ℕ) (chunk : Bytes) → Awaited (on_response_chunk max e chunk).0
    unfolding on_response_chunk
    on_response_chunk-Awaited max chunk =
        either-Awaited (e.body_ended || is_some e.failed) _ _ a
          (push_chunk-Awaited max chunk e.chunk_waiters refl)

    pull_buffered-Awaited : (t : ℕ) (bs : List Bytes) → Awaited (pull_buffered e t bs).0
    unfolding pull_buffered
    pull_buffered-Awaited t (b ∷ bs) = a
    pull_buffered-Awaited t [] = elim (Bool-cases e.body_ended) [
      | inl p ↦ rw p a
      | inr p ↦ rw p (joined a)
    ]
      where
        joined : Awaited e → Awaited (record e { chunk_waiters = e.chunk_waiters ++ t ∷ [] })
        joined (inl m) = inl (Memᴰ.append_left (t ∷ []) m)
        joined (inr h) = inr h

    pull-Awaited : (t : ℕ) → Awaited (pull e t).0
    unfolding pull
    pull-Awaited t = go e.failed
      where
        go : (o : Option Failure) → Awaited (pull_failed e t o).0
        go none = unfold pull_failed in pull_buffered-Awaited t e.chunk_buffer
        go (some failure) = unfold pull_failed in a

  -- A read that does not come to anything is a waiter from then on.
  pull-suspended : (e : InternalPending) → (pull e ticket).1 ≡ suspended → Awaited (pull e ticket).0
  unfolding pull
  pull-suspended e h = go e.failed h
    where
      answer : Bool → Read
      answer true = done
      answer false = suspended

      answered : (b : Bool) → e.body_ended ≡ b → (pull_buffered e ticket []).1 ≡ answer b
      answered true p = unfold pull_buffered in rw p refl
      answered false p = unfold pull_buffered in rw p refl

      waits :
          (b : Bool)
          → e.body_ended ≡ b
          → (pull_buffered e ticket []).1 ≡ suspended
          → Awaited (pull_buffered e ticket []).0
      waits true p q = let stopped : done ≡ suspended = sym (answered true p) ∙ q in absurd (cc)
      waits false p q =
          unfold pull_buffered in rw p (inl (Memᴰ.append_right e.chunk_waiters (head refl)))

      buffered :
          (bs : List Bytes)
          → (pull_buffered e ticket bs).1 ≡ suspended
          → Awaited (pull_buffered e ticket bs).0
      buffered (b ∷ bs) q = absurd (unfold pull_buffered in cc)
      buffered [] q = waits e.body_ended refl q

      go :
          (o : Option Failure)
          → (pull_failed e ticket o).1 ≡ suspended
          → Awaited (pull_failed e ticket o).0
      go none q = unfold pull_failed in buffered e.chunk_buffer (unfold pull_failed in q)
      go (some failure) q = absurd (unfold pull_failed in cc)

  -- The exchange under `h` is there, and the read of it is awaited.
  abbrev Held : ℕ → Coordinator → Type 0
  Held h c = (e : InternalPending) × (JsMap.get h c.entries ≡ some e) × Awaited e

  module _ (h : ℕ) (c : Coordinator) (held : Held h c) where
    set-Held :
        (i : ℕ) (e e' : InternalPending)
        → JsMap.get i c.entries ≡ some e
        → (Awaited e → Awaited e')
        → (x : InternalPending) × (JsMap.get h (JsMap.set i e' c.entries) ≡ some x) × Awaited x
    set-Held i e e' p k = elim (ℕ_discrete i h) [
      | yes at ↦
          let same : held.0 ≡ e = ground arith in
          (e', ground (arith, Laws.get-set i h e' c.entries), k (subst Awaited same held.2))
      | no away ↦ (held.0, Laws.get-set_ne i h e' c.entries away ∙ held.1, held.2)
    ]

    put_back-Held :
        (i : ℕ) (e : InternalPending) (r : InternalPending × Bool)
        → JsMap.get i c.entries ≡ some e
        → (Awaited e → Awaited r.0)
        → Held h (put_back c i r)
    unfolding put_back
    put_back-Held i e (e', dropped) p k = set-Held i e e' p k

    handle_at-Held :
        (i : ℕ) (o : Option InternalPending) (f : InternalPending → InternalPending × Bool)
        → JsMap.get i c.entries ≡ o
        → ((e : InternalPending) → Awaited e → Awaited (f e).0)
        → Held h (handle_at c i o f)
    unfolding handle_at
    handle_at-Held i none f p k = held
    handle_at-Held i (some e) f p k = put_back-Held i e (f e) p (k e)

    handle_pending-Held :
        (id : Text) (f : InternalPending → InternalPending × Bool)
        → ((e : InternalPending) → Awaited e → Awaited (f e).0)
        → Held h (handle_pending c id f).0
    unfolding handle_pending
    handle_pending-Held id f k = go (JsMap.get id c.pending)
      where
        go : (o : Option ℕ) → Held h (handle_found c o f).0
        go none = unfold handle_found in held
        go (some i) = unfold handle_found in handle_at-Held i (JsMap.get i c.entries) f refl k

    read_at-Held :
        (i : ℕ) (o : Option InternalPending) (f : InternalPending → InternalPending × Read)
        → JsMap.get i c.entries ≡ o
        → ((e : InternalPending) → Awaited e → Awaited (f e).0)
        → Held h (read_at c i o f).0
    unfolding read_at
    read_at-Held i none f p k = held
    read_at-Held i (some e) f p k = set-Held i e (f e).0 p (k e)

    begin-Held : (id : Text) → IsValid c → Held h (begin c id).0
    unfolding begin
    begin-Held id v = (
      held.0,
      ground (
        arith,
        held.1,
        v.allocated h held.0 held.1,
        Laws.get-set c.next_handle h (new_entry id) c.entries,
      ),
      held.2,
    )

    module _ (decode : BodyEncoding → Text → Bytes) where
      deliver-Held : (m : Message) → Held h (deliver decode c m).0
      unfolding deliver on_cancel
      deliver-Held (error none message) = held
      deliver-Held (error (some id) message) =
          handle_pending-Held id (λ e. fail_exchange e (reported message))
            (λ e a. fail_exchange-Awaited e a (reported message))
      deliver-Held (frame (response_start m start)) =
          handle_pending-Held m.request_id (λ e. on_response_start e start)
            (λ e a. on_response_start-Awaited e a start)
      deliver-Held (frame (response_chunk m chunk)) =
          handle_pending-Held m.request_id
            (λ e. on_response_chunk c.max_buffer_bytes e (decode chunk.encoding chunk.content))
            (λ e a.
              on_response_chunk-Awaited e a c.max_buffer_bytes
                (decode chunk.encoding chunk.content))
      deliver-Held (frame (response_end m)) =
          handle_pending-Held m.request_id on_response_end (λ e a. on_response_end-Awaited e a)
      deliver-Held (frame (cancel m reason)) =
          handle_pending-Held m.request_id (λ e. on_cancel e (cancel_reason reason))
            (λ e a. fail_exchange-Awaited e a (cancel_reason reason))
      deliver-Held (frame (request_start m start)) = held
      deliver-Held (frame (request_chunk m chunk)) = held
      deliver-Held (frame (request_end m)) = held

      call-Held : (x : Call) → IsValid c → Held h (call decode c x)
      unfolding call complete fail read read_on resume
      call-Held (beginning id) v = begin-Held id v
      call-Held (finishing id) v = held
      call-Held (delivering m) v = deliver-Held m
      call-Held (failing i failure) v =
          handle_at-Held i (JsMap.get i c.entries) (λ e. fail_exchange e failure) refl
            (λ e a. fail_exchange-Awaited e a failure)
      call-Held (reading i t) v =
          read_at-Held i (JsMap.get i c.entries) (λ e. pull e t) refl (λ e a. pull-Awaited e a t)
      call-Held (reading_on i t) v =
          read_at-Held i (JsMap.get i c.entries) (λ e. resume e t) refl (λ e a. a)

  run-Held :
      (decode : BodyEncoding → Text → Bytes) (h : ℕ) (c : Coordinator) (xs : List Call)
      → IsValid c
      → Held h c
      → Held h (run decode c xs)
  unfolding run
  run-Held decode h c [] v held = held
  run-Held decode h c (x ∷ xs) v held =
      run-Held decode h (call decode c x) xs (call-IsValid decode c x v)
        (call-Held h c held decode x v)

run-append :
    (decode : BodyEncoding → Text → Bytes) (c : Coordinator) (xs ys : List Call)
    → run decode c (xs ++ ys) ≡ run decode (run decode c xs) ys
unfolding run
run-append decode c [] ys = refl
run-append decode c (x ∷ xs) ys = run-append decode (call decode c x) xs ys

after_wait-settled :
    (failed : Option Failure) (o : Option (Option Bytes))
    → is_some o ≡ true
    → after_wait failed o ≢ suspended
after_wait-settled failed none h q = absurd (cc)
after_wait-settled none (some none) h q = absurd (cc)
after_wait-settled none (some (some b)) h q = absurd (cc)
after_wait-settled (some f) (some b) h q = absurd (cc)

read_on-settled :
    (c : Coordinator) (h ticket : ℕ) (e : InternalPending)
    → JsMap.get h c.entries ≡ some e
    → is_some (JsMap.get ticket e.settled) ≡ true
    → (read_on c h ticket).1 ≢ suspended
unfolding read_on read_at resume
read_on-settled c h ticket e p q w =
    after_wait-settled e.failed (JsMap.get ticket e.settled) q
      (subst (λ o. (read_at c h o (λ x. resume x ticket)).1 ≡ suspended) p w)

-- A waiter of an exchange that is in order.
abbrev pub Unready : ℕ → InternalPending → Type 0
Unready ticket e =
    Memᴰ ticket e.chunk_waiters × (e.chunk_buffer ≡ []) × (e.body_ended ≡ false) × (e.failed ≡ none)

waiter-Unready :
    (max ticket : ℕ) (e : InternalPending)
    → Bounds.IsValid max e
    → Memᴰ ticket e.chunk_waiters
    → Unready ticket e
waiter-Unready max ticket e v m = (m, buffer v.one_side, running, healthy)
  where
    present : e.chunk_waiters ≢ []
    present p = elim (subst (λ ws. Memᴰ ticket ws) p m) [ ]

    buffer : (e.chunk_waiters ≡ []) ⊎ (e.chunk_buffer ≡ []) → e.chunk_buffer ≡ []
    buffer (inl p) = absurd (present p)
    buffer (inr p) = p

    running : e.body_ended ≡ false
    running = elim (Bool-cases e.body_ended) [ inl p ↦ absurd (present (v.ended p)) | inr p ↦ p ]

    healthy : e.failed ≡ none
    healthy = elim (Option-cases e.failed) [
      | inl p ↦ p
      | inr (f, p) ↦ absurd (present (v.ended (v.failing (rw p refl))))
    ]

module _ (decode : BodyEncoding → Text → Bytes) (max_pending max_bytes : ℕ) (xs : List Call)
    (h ticket : ℕ) (e : InternalPending)
    (there : JsMap.get h (run decode (coordinator max_pending max_bytes) xs).entries ≡ some e)
    (waits : (read (run decode (coordinator max_pending max_bytes) xs) h ticket).1
      ≡ suspended) where
  abbrev before : Coordinator
  before = run decode (coordinator max_pending max_bytes) xs

  read-Held : Held ticket h (call decode before (reading h ticket))
  unfolding call read read_at
  read-Held =
      subst
        (λ o.
          (x : InternalPending) × (JsMap.get h (read_at before h o (λ y. pull y ticket)).0.entries
            ≡ some x)
          × Awaited ticket x)
        (sym there)
        (
          (pull e ticket).0,
          Laws.get-set_self h (pull e ticket).0 before.entries,
          pull-suspended ticket e
              (subst (λ o. (read_at before h o (λ x. pull x ticket)).1 ≡ suspended) there waits),
        )

  settled_or_waits :
      (c : Coordinator)
      → IsValid c
      → Held ticket h c
      → (e' : InternalPending) × (JsMap.get h c.entries ≡ some e')
        × (((read_on c h ticket).1 ≢ suspended) ⊎ Unready ticket e')
  settled_or_waits c v (e', at, inr settled) =
      (e', at, inl (read_on-settled c h ticket e' at settled))
  settled_or_waits c v (e', at, inl m) =
      (e', at, inr (waiter-Unready c.max_buffer_bytes ticket e' (v.entry_valid h e' at) m))

  -- Whatever was called before, once a read of an exchange's body has to wait, and whatever is called
  -- after it: either its wait has been settled, so that the reader goes on and comes to a chunk, to
  -- the end or to an error; or it still stands among the waiters, and then the exchange has no chunk
  -- in its buffer, has not ended and has not failed. No wake-up is lost.
  pub no_wakeup_lost :
      (ys : List Call)
      → let c = run decode (coordinator max_pending max_bytes) (xs ++ reading h ticket ∷ ys) in
        (e' : InternalPending) × (JsMap.get h c.entries ≡ some e')
        × (((read_on c h ticket).1 ≢ suspended) ⊎ Unready ticket e')
  unfolding run
  no_wakeup_lost ys =
      rw (run-append decode (coordinator max_pending max_bytes) xs (reading h ticket ∷ ys)) (
        settled_or_waits (run decode before (reading h ticket ∷ ys))
          (run-IsValid decode before (reading h ticket ∷ ys) in_order)
          (run-Held ticket decode h (call decode before (reading h ticket)) ys
            (call-IsValid decode before (reading h ticket) in_order) read-Held))
    where
      in_order : IsValid before
      in_order = started-IsValid decode max_pending max_bytes xs
