-- ===== src/Exchanges/Runs.antt =====
-- The coordinator from its start on, under every sequence of calls and reads.
use looplink.Base.{ℕ, ◌≤◌, ◌≡◌, some, List, [], ◌∷◌, length, refl, ◌∙◌, arith}
use looplink.JsMap
use looplink.JsMap.{JsMap, nat_key}
use looplink.Forwarding.{BodyEncoding}
use looplink.Text.{Text, text_key}
use looplink.Exchanges.{
  Coordinator, Message, coordinator, begin, deliver, complete, fail, read, read_on, read_at,
  handle_pending, handle_found, handle_at, put_back,
}
use looplink.Exchanges.Entry.{InternalPending, Bytes, Failure}
use looplink.Exchanges.Entry.Bounds.{total}
use looplink.Exchanges.Table.{
  IsValid, Live, coordinator-IsValid, begin-IsValid, complete-IsValid, fail-IsValid, read-IsValid,
  read_on-IsValid,
}
use looplink.Exchanges.Frames.{deliver-IsValid}

pub data Call : Type 0 where
  beginning finishing : Text → Call
  delivering : Message → Call
  failing : ℕ → Failure → Call
  reading reading_on : ℕ → ℕ → Call

module _ (decode : BodyEncoding → Text → Bytes) where
  unfoldable pub call : Coordinator → Call → Coordinator
  call c (beginning id) = (begin c id).0
  call c (finishing id) = complete c id
  call c (delivering m) = (deliver decode c m).0
  call c (failing h failure) = fail c h failure
  call c (reading h ticket) = (read c h ticket).0
  call c (reading_on h ticket) = (read_on c h ticket).0

  unfoldable pub run : Coordinator → List Call → Coordinator
  unfolding call
  run c [] = c
  run c (x ∷ xs) = run (call c x) xs

  call-limits :
      (c : Coordinator) (x : Call)
      → ((call c x).max_pending ≡ c.max_pending)
        × ((call c x).max_buffer_bytes ≡ c.max_buffer_bytes)
  unfolding call begin complete deliver fail read read_on read_at handle_pending handle_found
      handle_at put_back
  call-limits c x = ground arith

  run-limits :
      (c : Coordinator) (xs : List Call)
      → ((run c xs).max_pending ≡ c.max_pending)
        × ((run c xs).max_buffer_bytes ≡ c.max_buffer_bytes)
  unfolding run
  run-limits c [] = (refl, refl)
  run-limits c (x ∷ xs) =
      let (a, b) = call-limits c x in let (p, q) = run-limits (call c x) xs in (p ∙ a, q ∙ b)

  pub call-IsValid : (c : Coordinator) (x : Call) → IsValid c → IsValid (call c x)
  unfolding call
  call-IsValid c (beginning id) v = begin-IsValid c v id
  call-IsValid c (finishing id) v = complete-IsValid c v id
  call-IsValid c (delivering m) v = deliver-IsValid decode c v m
  call-IsValid c (failing h failure) v = fail-IsValid c v h failure
  call-IsValid c (reading h ticket) v = read-IsValid c v h ticket
  call-IsValid c (reading_on h ticket) v = read_on-IsValid c v h ticket

  pub run-IsValid : (c : Coordinator) (xs : List Call) → IsValid c → IsValid (run c xs)
  unfolding run
  run-IsValid c [] v = v
  run-IsValid c (x ∷ xs) v = run-IsValid (call c x) xs (call-IsValid c x v)

  module _ (max_pending max_bytes : ℕ) (xs : List Call) where
    pub started-IsValid : IsValid (run (coordinator max_pending max_bytes) xs)
    started-IsValid =
        run-IsValid (coordinator max_pending max_bytes) xs
          (coordinator-IsValid max_pending max_bytes)

    max_pending_kept : (run (coordinator max_pending max_bytes) xs).max_pending ≡ max_pending
    unfolding coordinator
    max_pending_kept = (run-limits (coordinator max_pending max_bytes) xs).0

    max_bytes_kept : (run (coordinator max_pending max_bytes) xs).max_buffer_bytes ≡ max_bytes
    unfolding coordinator
    max_bytes_kept = (run-limits (coordinator max_pending max_bytes) xs).1

    -- Whatever is called, never more requests are pending than the coordinator was made for.
    pub pending-within : length (run (coordinator max_pending max_bytes) xs).pending ≤ max_pending
    pending-within = omega (arith, started-IsValid.within, max_pending_kept)

    -- Whatever is called, the bytes that an exchange buffers never exceed the limit, and the count
    -- that it keeps of them is exact.
    pub buffer-within :
        (h : ℕ) (e : InternalPending)
        → JsMap.get h (run (coordinator max_pending max_bytes) xs).entries ≡ some e
        → (e.buffered_bytes ≡ total e.chunk_buffer) × (total e.chunk_buffer ≤ max_bytes)
    buffer-within h e p =
        let w = started-IsValid.entry_valid h e p in
        (w.counted, omega (arith, w.counted, w.bounded, max_bytes_kept))

    -- Whatever is called, an id that is pending leads to an exchange of that id whose body has not
    -- ended: what has ended or failed is never found by a later frame.
    pub pending-Live :
        (id : Text) (h : ℕ)
        → JsMap.get id (run (coordinator max_pending max_bytes) xs).pending ≡ some h
        → Live (run (coordinator max_pending max_bytes) xs).entries id h
    pending-Live id h p = started-IsValid.live id h p
