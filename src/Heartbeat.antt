-- ===== src/Heartbeat.antt =====
-- heartbeat.monitor.ts: the last heartbeat of every socket, and the sweep that drops silent ones.
-- A socket is a number. The clock is an argument.
pub mod Laws
use looplink.Base.{
  ℕ, ◌+◌, ◌/◌, Bool, true, false, Option, none, some, List, [], ◌∷◌, ltb, if◌then◌else◌, length,
  is_some, is_empty,
}
use looplink.JsMap
use looplink.JsMap.{JsMap, nat_key}

pub record HeartbeatMonitor : Type 0 where
  pub timeout_ms : ℕ
  pub sweep_interval_ms : ℕ
  pub last_beat_at : JsMap ℕ ℕ
  pub sweep_timer : Bool

abbrev or_quarter : ℕ → Option ℕ → ℕ
or_quarter timeout_ms none = (timeout_ms + 3) / 4
or_quarter timeout_ms (some sweep_interval_ms) = sweep_interval_ms

unfoldable pub monitor : ℕ → Option ℕ → HeartbeatMonitor
monitor timeout_ms sweep_interval_ms = record {
  timeout_ms = timeout_ms;
  sweep_interval_ms = or_quarter timeout_ms sweep_interval_ms;
  last_beat_at = [];
  sweep_timer = false;
}

abbrev ensure_sweep_timer : HeartbeatMonitor → HeartbeatMonitor
ensure_sweep_timer m = record m { sweep_timer = true }

abbrev stop_sweep_timer : HeartbeatMonitor → HeartbeatMonitor
stop_sweep_timer m = record m { sweep_timer = false }

abbrev pub stop_when_empty : HeartbeatMonitor → HeartbeatMonitor
stop_when_empty m = if is_empty m.last_beat_at then stop_sweep_timer m else m

unfoldable pub register : HeartbeatMonitor → ℕ → ℕ → HeartbeatMonitor
register m now client =
    ensure_sweep_timer (record m { last_beat_at = JsMap.set client now m.last_beat_at })

unfoldable pub beat : HeartbeatMonitor → ℕ → ℕ → HeartbeatMonitor
beat m now client =
    if is_some (JsMap.get client m.last_beat_at)
    then record m { last_beat_at = JsMap.set client now m.last_beat_at }
    else m

unfoldable pub unregister : HeartbeatMonitor → ℕ → HeartbeatMonitor
unregister m client =
    stop_when_empty (record m { last_beat_at = JsMap.delete client m.last_beat_at })

unfoldable pub tracked_client_count : HeartbeatMonitor → ℕ
tracked_client_count m = length m.last_beat_at

unfoldable pub on_module_destroy : HeartbeatMonitor → HeartbeatMonitor
on_module_destroy m = stop_sweep_timer m

-- The loop over the entries: what stays in the map, and the sockets that are terminated.
unfoldable pub sweep_each : ℕ → ℕ → JsMap ℕ ℕ → JsMap ℕ ℕ → JsMap ℕ ℕ × List ℕ
sweep_each timeout_ms now [] tracked = (tracked, [])
sweep_each timeout_ms now ((client, last) ∷ entries) tracked =
    let silent = ltb (last + timeout_ms) now in
    let rest =
      sweep_each timeout_ms now entries (if silent then JsMap.delete client tracked else tracked) in
    (rest.0, if silent then client ∷ rest.1 else rest.1)

unfoldable pub sweep : HeartbeatMonitor → ℕ → HeartbeatMonitor × List ℕ
unfolding sweep_each
sweep m now =
    let (tracked, terminated) = sweep_each m.timeout_ms now m.last_beat_at m.last_beat_at in
    (stop_when_empty (record m { last_beat_at = tracked }), terminated)
