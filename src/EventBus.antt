-- ===== src/EventBus.antt =====
-- in-memory-event-bus.ts: handlers per event, in the order in which they were first registered.
-- A handler is a number, which stands for the identity of the function.
pub mod Laws
use looplink.Base.{ℕ, Bool, Option, none, some, List, [], ◌∷◌, if◌then◌else◌, is_empty}
use looplink.JsMap
use looplink.JsMap.{JsMap, nat_key}
use looplink.Text.{Text, text_key}

-- The wrapper of a handler: the call itself, or a call that takes the subscription away first.
pub data Wrapper : Type 0 where
  always : Wrapper
  only_once : Wrapper

abbrev pub EventBus : Type 0
EventBus = JsMap Text (JsMap ℕ Wrapper)

abbrev or_new : Option (JsMap ℕ Wrapper) → JsMap ℕ Wrapper
or_new none = []
or_new (some handlers) = handlers

-- `this.register`. The map of the event is shared, so an update of it is an update in place.
unfoldable pub register : EventBus → Text → ℕ → Wrapper → EventBus
register bus event handler wrapper =
    JsMap.set event (JsMap.set handler wrapper (or_new (JsMap.get event bus))) bus

unfoldable pub subscribe : EventBus → Text → ℕ → EventBus
unfolding register
subscribe bus event handler = register bus event handler always

unfoldable pub once : EventBus → Text → ℕ → EventBus
unfolding register
once bus event handler = register bus event handler only_once

unfoldable pub unsubscribe_from : EventBus → Text → ℕ → Option (JsMap ℕ Wrapper) → EventBus
unsubscribe_from bus event handler none = bus
unsubscribe_from bus event handler (some handlers) =
    let rest = JsMap.delete handler handlers in
    if is_empty rest then JsMap.delete event bus else JsMap.set event rest bus

unfoldable pub unsubscribe : EventBus → Text → ℕ → EventBus
unfolding unsubscribe_from
unsubscribe bus event handler = unsubscribe_from bus event handler (JsMap.get event bus)

unfoldable pub clear : EventBus → EventBus
clear bus = []

-- `react` is what a handler does with the bus when it is called. Whether it throws makes no
-- difference, since `invoke` catches that.
module _ {P : Type 0} (react : ℕ → P → EventBus → EventBus) where
  unfoldable pub invoke : EventBus → Text → P → ℕ → Wrapper → EventBus
  unfolding unsubscribe
  invoke bus event payload handler always = react handler payload bus
  invoke bus event payload handler only_once = react handler payload (unsubscribe bus event handler)

  -- The loop over the snapshot: the bus that the handlers leave, and the handlers called, in order.
  unfoldable pub deliver : EventBus → Text → P → JsMap ℕ Wrapper → EventBus × List ℕ
  unfolding invoke
  deliver bus event payload [] = (bus, [])
  deliver bus event payload ((handler, wrapper) ∷ rest) =
      let (after, called) = deliver (invoke bus event payload handler wrapper) event payload rest in
      (after, handler ∷ called)

  unfoldable pub publish : EventBus → Text → P → EventBus × List ℕ
  unfolding deliver
  publish bus event payload = deliver bus event payload (or_new (JsMap.get event bus))
