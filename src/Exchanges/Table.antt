-- ===== src/Exchanges/Table.antt =====
-- What holds of the coordinator in every state that it reaches.
use looplink.Base.{
  ℕ, suc, ◌≤◌, ◌<◌, ◌≡◌, ◌≢◌, refl, subst, Bool, true, false, inl, inr, Option, none, some, length,
  ℕ_discrete, arith,
}
use looplink.JsMap
use looplink.JsMap.{JsMap, nat_key}
use looplink.JsMap.Laws
use looplink.Text.{Text, text_key}
use looplink.Exchanges.{
  Coordinator, coordinator, begin, put_back, handle_at, handle_found, handle_pending, complete,
  fail, read_at, read, read_on,
}
use looplink.Exchanges.Entry.{
  InternalPending, Failure, Read, new_entry, fail_exchange, pull, resume,
}
use looplink.Exchanges.Entry.Bounds
use looplink.Exchanges.Entry.Bounds.{
  Handled, new_entry-IsValid, fail_exchange-Handled, on_response_start-Handled,
  on_response_chunk-Handled, on_response_end-Handled, pull-IsValid, pull-request_id,
  pull-body_ended,
}

-- The exchange under `handle` is still to be answered, and has the id.
abbrev pub Live : JsMap ℕ InternalPending → Text → ℕ → Type 0
Live entries id handle =
    (e : InternalPending) × (JsMap.get handle entries ≡ some e)
    × (e.request_id ≡ id)
    × (e.body_ended ≡ false)

pub record IsValid (c : Coordinator) : Type 0 where
  pub within : length c.pending ≤ c.max_pending
  pub entry_valid :
      (h : ℕ) (e : InternalPending)
      → JsMap.get h c.entries ≡ some e
      → Bounds.IsValid c.max_buffer_bytes e
  pub allocated : (h : ℕ) (e : InternalPending) → JsMap.get h c.entries ≡ some e → h < c.next_handle
  pub live : (id : Text) (h : ℕ) → JsMap.get id c.pending ≡ some h → Live c.entries id h

pub coordinator-IsValid :
    (max_pending max_buffer_bytes : ℕ) → IsValid (coordinator max_pending max_buffer_bytes)
unfolding coordinator JsMap.get
coordinator-IsValid max_pending max_buffer_bytes = record {
  within = omega arith;
  entry_valid = λ h e p. cc;
  allocated = λ h e p. cc;
  live = λ id h p. cc;
}

module _ (c : Coordinator) (v : IsValid c) where
  allocated-Live :
      (id : Text) (h : ℕ) (n : InternalPending)
      → Live c.entries id h
      → Live (JsMap.set c.next_handle n c.entries) id h
  allocated-Live id h n (e, p, q, r) =
      (e, ground (arith, Laws.get-set c.next_handle h n c.entries, v.allocated h e p), q, r)

  begin_new-IsValid :
      (id : Text)
      → JsMap.get id c.pending ≡ none
      → length c.pending < c.max_pending
      → IsValid (record c {
        pending = JsMap.set id c.next_handle c.pending;
        entries = JsMap.set c.next_handle (new_entry id) c.entries;
        next_handle = suc c.next_handle;
      })
  unfolding new_entry
  begin_new-IsValid id p room = record {
    within = ground (arith, Laws.length-set id c.next_handle c.pending);
    entry_valid = λ h e q. elim (Laws.set-entry c.next_handle h (new_entry id) e c.entries q) [
      | inl (_, same) ↦
          subst (Bounds.IsValid c.max_buffer_bytes) same (new_entry-IsValid c.max_buffer_bytes id)
      | inr (_, old) ↦ v.entry_valid h e old
    ];
    allocated = λ h e q. elim (Laws.set-entry c.next_handle h (new_entry id) e c.entries q) [
      | inl (at, _) ↦ omega (arith, at)
      | inr (_, old) ↦ omega (arith, v.allocated h e old)
    ];
    live = λ j h q. elim (Laws.set-entry id j c.next_handle h c.pending q) [
      | inl (at, same) ↦ (
        new_entry id,
        ground (arith, Laws.get-set c.next_handle h (new_entry id) c.entries),
        at,
        refl,
      )
      | inr (_, old) ↦ allocated-Live j h (new_entry id) (v.live j h old)
    ];
  }

  pub begin-IsValid : (id : Text) → IsValid (begin c id).0
  unfolding begin
  begin-IsValid id = ground (arith, begin_new-IsValid id)

  pub complete-IsValid : (id : Text) → IsValid (complete c id)
  unfolding complete
  complete-IsValid id = record {
    within = omega (arith, v.within, Laws.length-delete-le id c.pending);
    entry_valid = v.entry_valid;
    allocated = v.allocated;
    live = λ j h p. v.live j h (Laws.delete-entry id j h c.pending p).1;
  }

  entry-IsValid :
      (h : ℕ) (e' : InternalPending)
      → Bounds.IsValid c.max_buffer_bytes e'
      → (i : ℕ) (x : InternalPending) → JsMap.get i (JsMap.set h e' c.entries) ≡ some x
      → Bounds.IsValid c.max_buffer_bytes x
  entry-IsValid h e' k i x q = elim (Laws.set-entry h i e' x c.entries q) [
    | inl (_, same) ↦ subst (Bounds.IsValid c.max_buffer_bytes) same k
    | inr (_, old) ↦ v.entry_valid i x old
  ]

  allocated_at :
      (h : ℕ) (e e' : InternalPending)
      → JsMap.get h c.entries ≡ some e
      → (i : ℕ) (x : InternalPending) → JsMap.get i (JsMap.set h e' c.entries) ≡ some x
      → i < c.next_handle
  allocated_at h e e' p i x q = elim (Laws.set-entry h i e' x c.entries q) [
    | inl (at, _) ↦ omega (arith, at, v.allocated h e p)
    | inr (_, old) ↦ v.allocated i x old
  ]

  -- An exchange that stays pending beside the one that is put back under `h`.
  other-Live :
      (h : ℕ) (e e' : InternalPending) (j : Text) (i : ℕ)
      → JsMap.get h c.entries ≡ some e
      → e'.request_id ≡ e.request_id
      → e'.request_id ≢ j
      → Live c.entries j i
      → Live (JsMap.set h e' c.entries) j i
  other-Live h e e' j i p same other (x, q, a, b) =
      (x, ground (arith, Laws.get-set h i e' c.entries), a, b)

  same-Live :
      (h : ℕ) (e e' : InternalPending) (j : Text) (i : ℕ)
      → JsMap.get h c.entries ≡ some e
      → e'.request_id ≡ e.request_id
      → (e'.body_ended ≡ true → e.body_ended ≡ true)
      → Live c.entries j i
      → Live (JsMap.set h e' c.entries) j i
  same-Live h e e' j i p same kept (x, q, a, b) = elim (ℕ_discrete h i) [
    | yes at ↦ (e', ground (arith, Laws.get-set h i e' c.entries), cc, ground arith)
    | no away ↦ (x, ground (arith, Laws.get-set h i e' c.entries), a, b)
  ]

  put_back-IsValid :
      (h : ℕ) (e : InternalPending) (r : InternalPending × Bool)
      → JsMap.get h c.entries ≡ some e
      → Handled c.max_buffer_bytes e r
      → IsValid (put_back c h r)
  unfolding put_back
  put_back-IsValid h e (e', true) p k = record {
    within = omega (arith, v.within, Laws.length-delete-le e'.request_id c.pending);
    entry_valid = entry-IsValid h e' k.valid;
    allocated = allocated_at h e e' p;
    live = λ j i q.
        let (other, old) = Laws.delete-entry e'.request_id j i c.pending q in
        other-Live h e e' j i p k.same_id other (v.live j i old);
  }
  put_back-IsValid h e (e', false) p k = record {
    within = v.within;
    entry_valid = entry-IsValid h e' k.valid;
    allocated = allocated_at h e e' p;
    live = λ j i q. same-Live h e e' j i p k.same_id (k.kept refl) (v.live j i q);
  }

  handle_at-IsValid :
      (h : ℕ) (o : Option InternalPending) (f : InternalPending → InternalPending × Bool)
      → JsMap.get h c.entries ≡ o
      → ((e : InternalPending)
          → Bounds.IsValid c.max_buffer_bytes e
          → Handled c.max_buffer_bytes e (f e))
      → IsValid (handle_at c h o f)
  unfolding handle_at
  handle_at-IsValid h none f p k = v
  handle_at-IsValid h (some e) f p k = put_back-IsValid h e (f e) p (k e (v.entry_valid h e p))

  handle_found-IsValid :
      (o : Option ℕ) (f : InternalPending → InternalPending × Bool)
      → ((e : InternalPending)
          → Bounds.IsValid c.max_buffer_bytes e
          → Handled c.max_buffer_bytes e (f e))
      → IsValid (handle_found c o f).0
  unfolding handle_found
  handle_found-IsValid none f k = v
  handle_found-IsValid (some h) f k = handle_at-IsValid h (JsMap.get h c.entries) f refl k

  pub handle_pending-IsValid :
      (id : Text) (f : InternalPending → InternalPending × Bool)
      → ((e : InternalPending)
          → Bounds.IsValid c.max_buffer_bytes e
          → Handled c.max_buffer_bytes e (f e))
      → IsValid (handle_pending c id f).0
  unfolding handle_pending
  handle_pending-IsValid id f k = handle_found-IsValid (JsMap.get id c.pending) f k

  pub fail-IsValid : (h : ℕ) (failure : Failure) → IsValid (fail c h failure)
  unfolding fail
  fail-IsValid h failure =
      handle_at-IsValid h (JsMap.get h c.entries) (λ e. fail_exchange e failure) refl
        (λ e w. fail_exchange-Handled c.max_buffer_bytes e w failure)

  read_at-IsValid :
      (h : ℕ) (o : Option InternalPending) (f : InternalPending → InternalPending × Read)
      → JsMap.get h c.entries ≡ o
      → ((e : InternalPending)
          → Bounds.IsValid c.max_buffer_bytes e
          → Bounds.IsValid c.max_buffer_bytes (f e).0
            × ((f e).0.request_id ≡ e.request_id)
            × ((f e).0.body_ended ≡ e.body_ended))
      → IsValid (read_at c h o f).0
  unfolding read_at put_back
  read_at-IsValid h none f p k = v
  read_at-IsValid h (some e) f p k =
      let (w, same, ended) = k e (v.entry_valid h e p) in
      put_back-IsValid h e ((f e).0, false) p
        (record { valid = w; same_id = same; kept = λ a b. cc })

  pub read-IsValid : (h ticket : ℕ) → IsValid (read c h ticket).0
  unfolding read
  read-IsValid h ticket =
      read_at-IsValid h (JsMap.get h c.entries) (λ e. pull e ticket) refl
        (λ e w. (
          pull-IsValid c.max_buffer_bytes e w ticket,
          pull-request_id e ticket,
          pull-body_ended e ticket,
        ))

  pub read_on-IsValid : (h ticket : ℕ) → IsValid (read_on c h ticket).0
  unfolding read_on resume
  read_on-IsValid h ticket =
      read_at-IsValid h (JsMap.get h c.entries) (λ e. resume e ticket) refl (λ e w. (w, refl, refl))
