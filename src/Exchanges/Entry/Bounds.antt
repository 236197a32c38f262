-- ===== src/Exchanges/Entry/Bounds.antt =====
-- What holds of an exchange after any handler and any read.
use looplink.Base.{
  ℕ, ◌+◌, ◌≤◌, ◌≡◌, refl, ◌⊎◌, inl, Bool, true, false, List, [], ◌∷◌, ◌++◌, length, is_some, arith,
}
use looplink.Forwarding.{ResponseHead}
use looplink.Text.{Text}
use looplink.Exchanges.Entry.{
  InternalPending, Failure, Bytes, new_entry, fail_exchange, on_response_start, push_chunk,
  on_response_chunk, on_response_end, pull_buffered, pull_failed, pull, resume,
}

pub total : List Bytes → ℕ
total [] = 0
total (b ∷ bs) = length b + total bs

pub total-append : (bs : List Bytes) (b : Bytes) → total (bs ++ b ∷ []) ≡ total bs + length b
unfolding total
total-append [] b = omega arith
total-append (c ∷ bs) b = omega (arith, total-append bs b)

pub record IsValid (max : ℕ) (e : InternalPending) : Type 0 where
  pub counted : e.buffered_bytes ≡ total e.chunk_buffer
  pub bounded : e.buffered_bytes ≤ max
  pub one_side : (e.chunk_waiters ≡ []) ⊎ (e.chunk_buffer ≡ [])
  pub ended : e.body_ended ≡ true → e.chunk_waiters ≡ []
  pub failing : is_some e.failed ≡ true → e.body_ended ≡ true

pub new_entry-IsValid : (max : ℕ) (id : Text) → IsValid max (new_entry id)
unfolding new_entry total
new_entry-IsValid max id = record {
  counted = refl;
  bounded = omega arith;
  one_side = inl refl;
  ended = λ h. refl;
  failing = λ h. cc;
}

module _ (max : ℕ) (e : InternalPending) (v : IsValid max e) where
  pub fail_exchange-IsValid : (message : Failure) → IsValid max (fail_exchange e message).0
  unfolding fail_exchange
  fail_exchange-IsValid message = ground (arith, v.ended, v.failing)

  pub on_response_start-IsValid : (head : ResponseHead) → IsValid max (on_response_start e head).0
  unfolding on_response_start
  on_response_start-IsValid head = ground arith

  push_chunk-IsValid :
      (chunk : Bytes) (ws : List ℕ)
      → e.chunk_waiters ≡ ws
      → (e.body_ended ≡ false)
      → IsValid max (push_chunk max e chunk ws).0
  unfolding push_chunk total
  push_chunk-IsValid chunk [] p live = ground (arith, total-append e.chunk_buffer chunk)
  push_chunk-IsValid chunk (w ∷ ws) p live = ground arith

  pub on_response_chunk-IsValid : (chunk : Bytes) → IsValid max (on_response_chunk max e chunk).0
  unfolding on_response_chunk
  on_response_chunk-IsValid chunk = ground (arith, push_chunk-IsValid chunk e.chunk_waiters refl)

  pub on_response_end-IsValid : IsValid max (on_response_end e).0
  unfolding on_response_end
  on_response_end-IsValid = ground arith

  pull_buffered-IsValid :
      (ticket : ℕ) (bs : List Bytes)
      → e.chunk_buffer ≡ bs
      → IsValid max (pull_buffered e ticket bs).0
  unfolding pull_buffered total
  pull_buffered-IsValid ticket [] p = ground arith
  pull_buffered-IsValid ticket (b ∷ bs) p = ground arith

  pub pull-IsValid : (ticket : ℕ) → IsValid max (pull e ticket).0
  unfolding pull
  pull-IsValid ticket = ground (arith, pull_buffered-IsValid ticket e.chunk_buffer refl)

  pub resume-IsValid : (ticket : ℕ) → IsValid max (resume e ticket).0
  unfolding resume
  resume-IsValid ticket = v

pub pull-request_id :
    (e : InternalPending) (ticket : ℕ) → (pull e ticket).0.request_id ≡ e.request_id
unfolding pull pull_failed pull_buffered
pull-request_id e ticket = ground arith

pub pull-body_ended :
    (e : InternalPending) (ticket : ℕ) → (pull e ticket).0.body_ended ≡ e.body_ended
unfolding pull pull_failed pull_buffered
pull-body_ended e ticket = ground arith

-- What every handler does of an exchange: it keeps it well formed and under its id, and ends it only
-- when it drops it from the table.
pub record Handled (max : ℕ) (e : InternalPending) (r : InternalPending × Bool) : Type 0 where
  pub valid : IsValid max r.0
  pub same_id : r.0.request_id ≡ e.request_id
  pub kept : r.1 ≡ false → r.0.body_ended ≡ true → e.body_ended ≡ true

module _ (max : ℕ) (e : InternalPending) (v : IsValid max e) where
  pub fail_exchange-Handled : (failure : Failure) → Handled max e (fail_exchange e failure)
  unfolding fail_exchange
  fail_exchange-Handled failure = ground (arith, v.failing, fail_exchange-IsValid max e v failure)

  pub on_response_start-Handled : (head : ResponseHead) → Handled max e (on_response_start e head)
  unfolding on_response_start
  on_response_start-Handled head = ground (arith, v.failing, on_response_start-IsValid max e v head)

  push_chunk-Handled :
      (chunk : Bytes) (ws : List ℕ)
      → e.chunk_waiters ≡ ws
      → (e.body_ended ≡ false)
      → Handled max e (push_chunk max e chunk ws)
  unfolding push_chunk
  push_chunk-Handled chunk [] p live =
      ground (arith, v.failing, push_chunk-IsValid max e v chunk [] p live)
  push_chunk-Handled chunk (w ∷ ws) p live =
      ground (arith, v.failing, push_chunk-IsValid max e v chunk (w ∷ ws) p live)

  pub on_response_chunk-Handled : (chunk : Bytes) → Handled max e (on_response_chunk max e chunk)
  unfolding on_response_chunk
  on_response_chunk-Handled chunk = ground (arith, push_chunk-Handled chunk e.chunk_waiters refl)

  pub on_response_end-Handled : Handled max e (on_response_end e)
  unfolding on_response_end
  on_response_end-Handled = ground (arith, on_response_end-IsValid max e v)
