-- ===== src/EventBus/Laws.antt =====
-- What is delivered, and what is left of the subscriptions.
use looplink.Base.{
  ℕ, ◌≡◌, refl, ap, ◌∙◌, Bool, true, false, Option, none, some, List, [], ◌∷◌, if◌then◌else◌,
  is_empty, arith, inl, inr, subst,
}
use looplink.JsMap
use looplink.JsMap.{JsMap, nat_key, Distinct}
use looplink.JsMap.Laws
use looplink.Text.{Text, text_key}
use looplink.EventBus.{
  EventBus, Wrapper, always, only_once, register, subscribe, once, unsubscribe, unsubscribe_from,
  clear, or_new, invoke, deliver, publish,
}

-- The handlers of an event, as the bus has them.
abbrev pub handlers_of : Text → EventBus → JsMap ℕ Wrapper
handlers_of event bus = or_new (JsMap.get event bus)

module _ {P : Type 0} (react : ℕ → P → EventBus → EventBus) where
  deliver-keys :
      (bus : EventBus) (event : Text) (payload : P) (snapshot : JsMap ℕ Wrapper)
      → (deliver react bus event payload snapshot).1 ≡ JsMap.keys snapshot
  unfolding deliver
  deliver-keys bus event payload [] = refl
  deliver-keys bus event payload ((handler, wrapper) ∷ rest) =
      ap (λ xs. handler ∷ xs)
        (deliver-keys (invoke react bus event payload handler wrapper) event payload rest)

  -- Whatever the handlers do with the bus while they are called, each handler that stood under the
  -- event when it was published is called once, in the order of registration, and no other is.
  pub publish-keys :
      (bus : EventBus) (event : Text) (payload : P)
      → (publish react bus event payload).1 ≡ JsMap.keys (handlers_of event bus)
  unfolding publish
  publish-keys bus event payload = deliver-keys bus event payload (handlers_of event bus)

is_empty-nil : (m : JsMap ℕ Wrapper) → is_empty m ≡ true → m ≡ []
is_empty-nil [] h = refl
is_empty-nil (x ∷ m) h = ground arith

left_over :
    (bus : EventBus) (event : Text) (rest : JsMap ℕ Wrapper)
    → handlers_of event (if is_empty rest then JsMap.delete event bus else JsMap.set event rest bus)
      ≡ rest
left_over bus event [] = ap (λ o. or_new o) (Laws.get-delete_self event bus)
left_over bus event (x ∷ rest) = ap (λ o. or_new o) (Laws.get-set_self event (x ∷ rest) bus)

unsubscribe_from-handlers :
    (bus : EventBus) (event : Text) (handler : ℕ) (o : Option (JsMap ℕ Wrapper))
    → JsMap.get event bus ≡ o
    → handlers_of event (unsubscribe_from bus event handler o) ≡ JsMap.delete handler (or_new o)
unfolding unsubscribe_from JsMap.delete
unsubscribe_from-handlers bus event handler none p = ap (λ o. or_new o) p
unsubscribe_from-handlers bus event handler (some handlers) p =
    left_over bus event (JsMap.delete handler handlers)

-- Taking a handler away leaves the other handlers of the event, whether or not it was there.
unsubscribe-handlers :
    (bus : EventBus) (event : Text) (handler : ℕ)
    → handlers_of event (unsubscribe bus event handler)
      ≡ JsMap.delete handler (handlers_of event bus)
unfolding unsubscribe
unsubscribe-handlers bus event handler =
    unsubscribe_from-handlers bus event handler (JsMap.get event bus) refl

-- What a delivery leaves of a handler: nothing, if it was to be called once.
abbrev pub lasting : Option Wrapper → Option Wrapper
lasting none = none
lasting (some always) = some always
lasting (some only_once) = none

abbrev pub is_once : Option Wrapper → Bool
is_once none = false
is_once (some always) = false
is_once (some only_once) = true

lasting_if : (o : Option Wrapper) → (if is_once o then none else o) ≡ lasting o
lasting_if none = refl
lasting_if (some always) = refl
lasting_if (some only_once) = refl

abbrev pub quiet : {P : Type 0} → ℕ → P → EventBus → EventBus
quiet handler payload bus = bus

deliver-get :
    {P : Type 0} (bus : EventBus) (event : Text) (payload : P) (h : ℕ) (snapshot : JsMap ℕ Wrapper)
    → Distinct snapshot
    → JsMap.get h (handlers_of event (deliver quiet bus event payload snapshot).0)
      ≡ (if is_once (JsMap.get h snapshot) then none else JsMap.get h (handlers_of event bus))
unfolding deliver invoke JsMap.get
deliver-get bus event payload h [] d = refl
deliver-get bus event payload h ((x, always) ∷ rest) d =
    ground (arith, deliver-get bus event payload h rest d.1, d.0)
deliver-get bus event payload h ((x, only_once) ∷ rest) d = ground (
  arith,
  deliver-get (unsubscribe bus event x) event payload h rest d.1,
  d.0,
  ap (λ m. JsMap.get h m) (unsubscribe-handlers bus event x),
  Laws.get-delete x h (handlers_of event bus),
)

-- Where no handler stands twice and the handlers leave the bus alone: after a delivery, those that
-- were to be called once are gone, and every other one is still subscribed.
pub publish-get :
    {P : Type 0} (bus : EventBus) (event : Text) (payload : P) (h : ℕ)
    → Distinct (handlers_of event bus)
    → JsMap.get h (handlers_of event (publish quiet bus event payload).0)
      ≡ lasting (JsMap.get h (handlers_of event bus))
unfolding publish
publish-get bus event payload h d =
    deliver-get bus event payload h (handlers_of event bus) d
    ∙ lasting_if (JsMap.get h (handlers_of event bus))

-- No event and no handler stands twice, and no event is left without handlers.
pub record IsValid (bus : EventBus) : Type 0 where
  pub distinct : Distinct bus
  pub used :
      (event : Text) (handlers : JsMap ℕ Wrapper)
      → JsMap.get event bus ≡ some handlers
      → (is_empty handlers ≡ false) × Distinct handlers

handlers_of-Distinct :
    (bus : EventBus) (event : Text) (o : Option (JsMap ℕ Wrapper))
    → IsValid bus
    → JsMap.get event bus ≡ o
    → Distinct (or_new o)
handlers_of-Distinct bus event none v p = tt
handlers_of-Distinct bus event (some handlers) v p = (v.used event handlers p).1

set-not_empty : (h : ℕ) (w : Wrapper) (m : JsMap ℕ Wrapper) → is_empty (JsMap.set h w m) ≡ false
unfolding JsMap.set
set-not_empty h w [] = refl
set-not_empty h w ((x, u) ∷ m) = ground arith

set-IsValid :
    (bus : EventBus) (event : Text) (m : JsMap ℕ Wrapper)
    → IsValid bus
    → is_empty m ≡ false
    → Distinct m
    → IsValid (JsMap.set event m bus)
set-IsValid bus event m v n d = record {
  distinct = Laws.set-Distinct event m bus v.distinct;
  used = λ other handlers p. elim (Laws.set-entry event other m handlers bus p) [
    | inl (_, same) ↦ subst (λ x. (is_empty x ≡ false) × Distinct x) same (n, d)
    | inr (_, old) ↦ v.used other handlers old
  ];
}

delete-IsValid : (bus : EventBus) (event : Text) → IsValid bus → IsValid (JsMap.delete event bus)
delete-IsValid bus event v = record {
  distinct = Laws.delete-Distinct event bus v.distinct;
  used = λ other handlers p. v.used other handlers (Laws.delete-entry event other handlers bus p).1;
}

register-IsValid :
    (bus : EventBus) (event : Text) (h : ℕ) (w : Wrapper)
    → IsValid bus
    → IsValid (register bus event h w)
unfolding register
register-IsValid bus event h w v =
    set-IsValid bus event (JsMap.set h w (handlers_of event bus)) v
      (set-not_empty h w (handlers_of event bus))
      (Laws.set-Distinct h w (handlers_of event bus)
        (handlers_of-Distinct bus event (JsMap.get event bus) v refl))

left_over-IsValid :
    (bus : EventBus) (event : Text) (rest : JsMap ℕ Wrapper)
    → IsValid bus
    → Distinct rest
    → IsValid (if is_empty rest then JsMap.delete event bus else JsMap.set event rest bus)
left_over-IsValid bus event [] v d = delete-IsValid bus event v
left_over-IsValid bus event (x ∷ rest) v d = set-IsValid bus event (x ∷ rest) v refl d

unsubscribe_from-IsValid :
    (bus : EventBus) (event : Text) (h : ℕ) (o : Option (JsMap ℕ Wrapper))
    → IsValid bus
    → JsMap.get event bus ≡ o
    → IsValid (unsubscribe_from bus event h o)
unfolding unsubscribe_from
unsubscribe_from-IsValid bus event h none v p = v
unsubscribe_from-IsValid bus event h (some handlers) v p =
    left_over-IsValid bus event (JsMap.delete h handlers) v
      (Laws.delete-Distinct h handlers (v.used event handlers p).1)

pub data Op : Type 0 where
  subscribing subscribing_once unsubscribing : Text → ℕ → Op
  clearing : Op

unfoldable pub step : EventBus → Op → EventBus
step bus (subscribing event h) = subscribe bus event h
step bus (subscribing_once event h) = once bus event h
step bus (unsubscribing event h) = unsubscribe bus event h
step bus clearing = clear bus

unfoldable pub run : EventBus → List Op → EventBus
unfolding step
run bus [] = bus
run bus (x ∷ xs) = run (step bus x) xs

step-IsValid : (bus : EventBus) (x : Op) → IsValid bus → IsValid (step bus x)
unfolding step subscribe once unsubscribe clear JsMap.get
step-IsValid bus (subscribing event h) v = register-IsValid bus event h always v
step-IsValid bus (subscribing_once event h) v = register-IsValid bus event h only_once v
step-IsValid bus (unsubscribing event h) v =
    unsubscribe_from-IsValid bus event h (JsMap.get event bus) v refl
step-IsValid bus clearing v = record { distinct = tt; used = λ event handlers p. cc }

-- Subscriptions, one-time subscriptions, their removal and a clearing keep the bus in order: no
-- event and no handler stands twice, and no event is left without handlers.
pub subscriptions-IsValid : (bus : EventBus) (xs : List Op) → IsValid bus → IsValid (run bus xs)
unfolding run
subscriptions-IsValid bus [] v = v
subscriptions-IsValid bus (x ∷ xs) v = subscriptions-IsValid (step bus x) xs (step-IsValid bus x v)
