-- ===== src/Examples/Security.antt =====
-- Security: two addresses under small limits.
use looplink.Base.{
  ◌-◌, ◌≤◌, ◌≡◌, refl, true, Option, none, some, List, [], ◌∷◌, arith, ℕ_discrete, length, keep,
  ltb,
}
use looplink.JsMap
use looplink.JsMap.{nat_key}
use looplink.Text.{Text, codes, text_dec, trim, to_lower, split}
use looplink.Security.Connections
use looplink.Security.Connections.{
  ConnectionLimiter, AdmitResult, ok, try_admit, count_for, release,
}
use looplink.Security.Rates
use looplink.Security.Rates.{RateLimiter, attempt, stored, in_window}
use looplink.Security.Rates.Window
use looplink.Security.Origins.{
  Url, OriginValidator, validator, is_origin_allowed, member, is_permissive, matches,
}
use looplink.Security.Policy
use looplink.Security.Policy.{
  Policy, Limits, Header, UpgradeRequest, RejectReason, policy, admit, allow_message, client_ip,
}
use looplink.Security.Policy.Laws as PolicyLaws
use looplink.Security.Policy.Effects

abbrev here : Text
here = codes "10.0.0.1"

abbrev two : ConnectionLimiter
two = Connections.init 2 1

abbrev one_in : ConnectionLimiter
one_in = (try_admit two here).0

second_refused : (try_admit one_in here).1 ≡ AdmitResult.ip_limit
unfolding try_admit Connections.init JsMap.get JsMap.set text_dec ℕ_discrete
second_refused = refl

abbrev rates : RateLimiter
rates = Rates.init 2 100

abbrev no_history : Window.Histories
no_history = λ key. []

attempt-decides_example :
    ((attempt rates 50 here).1.allowed
      ≡ ltb (length (Window.recent_of rates no_history 50 here)) rates.limit)
    × ((attempt rates 50 here).1.remaining
        ≡ rates.limit - length (Window.recent_of rates no_history 50 here) - 1)
attempt-decides_example =
    Window.attempt-decides rates no_history 0 50 here (Window.init-Tracks 2 100 0) (omega arith)

run-window_bound_example :
    length (
      keep
        (in_window 100 90)
        ((Window.run rates no_history ((10, here) ∷ (20, here) ∷ (30, here) ∷ [])).1 here))
    ≤ 2
run-window_bound_example =
    Window.run-window_bound 2 100 0 ((10, here) ∷ (20, here) ∷ (30, here) ∷ []) here 90
      (omega arith) (omega arith)

abbrev once : RateLimiter
once = Rates.init 1 100

abbrev spent : RateLimiter
spent = (attempt once 10 here).0

abbrev history : Window.Histories
history = Window.accept (attempt once 10 here).1.allowed no_history here 10

spent-Tracks : Window.Tracks spent history 10
spent-Tracks =
    Window.attempt-Tracks once no_history 0 10 here (Window.init-Tracks 1 100 0) (omega arith)

rates_run : Unit {0}
unfolding attempt Rates.init stored JsMap.get JsMap.set text_dec ℕ_discrete
rates_run = tt

attempt_after_wait_example : (attempt (attempt spent 60 here).0 110 here).1.allowed ≡ true
attempt_after_wait_example =
    Window.attempt_after_wait spent history 10 60 110 here spent-Tracks (omega arith)
      (unfold rates_run in omega arith) (unfold rates_run in refl) (unfold rates_run in omega arith)

-- The URL parser of these examples knows one URL.
abbrev pub one_url : Text → Option Url
one_url s = none

abbrev listed : List Text
listed = codes " HTTPS://Badger.dev" ∷ []

abbrev pub origins : OriginValidator
origins = validator listed

origin_run : Unit {0}
unfolding member validator is_permissive matches trim to_lower text_dec ℕ_discrete
origin_run = tt

abbrev pub limits : Limits
limits = record {
  max_ws_message_bytes = 262144;
  max_ws_connections = 2;
  max_ws_connections_per_ip = 2;
  ws_message_rate_limit = 1;
  ws_message_rate_window_ms = 60000;
}

abbrev pub upgrade : UpgradeRequest
upgrade = record {
  origin = Header.absent;
  x_forwarded_for = Header.one (codes "10.0.0.1, 10.9.9.9");
  remote_address = some (codes "127.0.0.1");
}

abbrev fresh : Policy
fresh = policy limits origins

abbrev seated : Policy
seated = (admit one_url (admit one_url fresh 1 upgrade).0 2 upgrade).0

unfoldable pub policy_run : Unit {0}
unfolding origin_run is_origin_allowed split policy admit Connections.try_admit Connections.init
    Rates.init JsMap.get JsMap.set client_ip
policy_run = tt

seated-Reach : PolicyLaws.Reach one_url fresh seated
unfolding policy_run
seated-Reach =
    PolicyLaws.next (PolicyLaws.next PolicyLaws.here (PolicyLaws.comes 1 upgrade refl))
      (PolicyLaws.comes 2 upgrade refl)

Reach-IsValid_example : PolicyLaws.IsValid seated
Reach-IsValid_example = PolicyLaws.Reach-IsValid one_url limits origins seated seated-Reach

release_forgets_rate_example : (allow_message (Policy.release seated 1) 500 2).1 ≡ true
release_forgets_rate_example =
    Effects.release_forgets_rate seated 1 2 500 here (omega arith) (unfold policy_run in refl)
      (unfold policy_run in refl) (unfold policy_run in omega arith)
