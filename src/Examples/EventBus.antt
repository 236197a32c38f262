-- ===== src/Examples/EventBus.antt =====
-- A bus with two handlers of one event, one of them to be called once.
use looplink.Base.{ℕ, ◌≡◌, refl, [], ◌∷◌, ℕ_discrete}
use looplink.JsMap
use looplink.JsMap.{nat_key}
use looplink.Text.{Text, codes, text_key, text_dec}
use looplink.EventBus
use looplink.EventBus.{Wrapper, always, only_once, publish, unsubscribe, subscribe, once}
use looplink.EventBus.Laws

abbrev request : Text
request = codes "RequestReceived"

abbrev bus : EventBus.EventBus
bus = (request, (4, always) ∷ (5, only_once) ∷ []) ∷ []

-- Handler 4 takes handler 5 away while the event is delivered.
abbrev rude : ℕ → ℕ → EventBus.EventBus → EventBus.EventBus
rude handler payload b = unsubscribe b request 5

handlers-Distinct : JsMap.Distinct (Laws.handlers_of request bus)
unfolding JsMap.get ℕ_discrete text_dec
handlers-Distinct = (refl, (refl, tt))

publish-keys_example : (publish rude bus request 0).1 ≡ JsMap.keys (Laws.handlers_of request bus)
publish-keys_example = Laws.publish-keys rude bus request 0

publish-get_example :
    JsMap.get 5 (Laws.handlers_of request (publish (Laws.quiet {P = ℕ}) bus request 0).0)
    ≡ Laws.lasting (JsMap.get 5 (Laws.handlers_of request bus))
publish-get_example = Laws.publish-get {P = ℕ} bus request 0 5 handlers-Distinct

empty-IsValid : Laws.IsValid []
unfolding JsMap.get
empty-IsValid = record { distinct = tt; used = λ event handlers p. cc }
