-- ===== src/Examples/Heartbeat.antt =====
-- Sweeps of a monitor with two sockets.
use looplink.Base.{◌≡◌, refl, true, none, [], ◌∷◌, ℕ_discrete, if◌then◌else◌}
use looplink.JsMap
use looplink.JsMap.{nat_key}
use looplink.Heartbeat.{HeartbeatMonitor, sweep}
use looplink.Heartbeat.Laws
use looplink.Heartbeat.Laws.{Op, registering, beating, unregistering, sweeping}

abbrev tracking : HeartbeatMonitor
tracking = record {
  timeout_ms = 30;
  sweep_interval_ms = 8;
  last_beat_at = (1, 100) ∷ (2, 125) ∷ [];
  sweep_timer = true;
}

clients-Distinct : JsMap.Distinct tracking.last_beat_at
unfolding JsMap.get ℕ_discrete
clients-Distinct = (refl, (refl, tt))

sweep-silent_example :
    (Laws.listed 1 (sweep tracking 140).1 ≡ Laws.silent 30 140 (JsMap.get 1 tracking.last_beat_at))
    × (JsMap.get 1 (sweep tracking 140).0.last_beat_at ≡ (
        if Laws.silent 30 140 (JsMap.get 1 tracking.last_beat_at)
        then none
        else JsMap.get 1 tracking.last_beat_at))
sweep-silent_example = Laws.sweep-silent tracking 140 1 clients-Distinct

sweep_drops_one : (sweep tracking 140).1 ≡ 1 ∷ []
unfolding sweep JsMap.delete ℕ_discrete
sweep_drops_one = refl
