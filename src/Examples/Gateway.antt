-- ===== src/Examples/Gateway.antt =====
-- A socket that opens, gets its context, asks for a tunnel and closes, beside another one.
use looplink.Base.{◌≡◌, refl, true, false, none, some, [], ◌∷◌, arith}
use looplink.JsMap
use looplink.JsMap.{nat_key}
use looplink.Text.{codes, text_dec}
use looplink.Security.Rates.{attempt, stored}
use looplink.Frames.{Value, object}
use looplink.Protocol.{
  ProtocolMessage, create_tunnel_message, error_message, parse_protocol_message,
}
use looplink.Protocol.Laws.{fields_of, parse-fields_of}
use looplink.Exchanges
use looplink.Exchanges.Entry.{reported, new_entry, on_response_chunk, push_chunk}
use looplink.Exchanges.Table
use looplink.Security.Policy
use looplink.Workspaces.{create_tunnel}
use looplink.Protocol
use looplink.Contexts
use looplink.Contexts.{TunnelContext, anonymous}
use looplink.Gateway.{
  Gateway, Env, resolved, handle_disconnect, handle_client_message, handle_connection, connect,
  send_message,
}
use looplink.Gateway.Events.{World, opening, resolving, closing, step, work, exchanging, sweeping}
use looplink.Exchanges.Runs
use looplink.Exchanges.Runs.{beginning, delivering}
use looplink.Forwarding.{utf8, response_chunk}
use looplink.Gateway.InOrder.{IsValid}
use looplink.Gateway.Undisturbed.{Undisturbed}
use looplink.Gateway.Reachable
use looplink.Gateway.Reachable.{Reach, start}
use looplink.Gateway.Cleanup
use looplink.Gateway.Admission
use looplink.Gateway.Errors
use looplink.Gateway.Races
use looplink.Examples.Security.{limits, origins, upgrade, one_url, policy_run}

abbrev world : World
world = record {
  is_open = λ client. true;
  decode = λ encoding text. text;
  mint = λ id. id;
  parse_url = one_url;
}

abbrev at_ten : Env
at_ten = record {
  now = 10;
  fresh_id = codes "0123456789abcdef0123456789abcdef";
  reclaim_window_ms = 1000;
}

abbrev guest : TunnelContext
guest = record {
  context_id = codes "c1";
  context_type = anonymous;
  tunnel_id = none;
  workspace_id = none;
  anonymous_session_id = some (codes "s1");
  permissions = create_tunnel ∷ [];
  metadata = [];
}

abbrev chunk : Exchanges.Message
chunk = Exchanges.frame (
    response_chunk (record { request_id = codes "q1"; tunnel_id = codes "t1" })
      (record { sequence = 0; encoding = utf8; content = codes "hi" }))

gateway_run : Unit {0}
unfolding step work handle_connection connect send_message Exchanges.coordinator Exchanges.begin
    Exchanges.deliver Exchanges.handle_pending Exchanges.handle_found Exchanges.handle_at
    Exchanges.put_back Runs.call new_entry on_response_chunk push_chunk JsMap.get JsMap.set text_dec
    policy_run
gateway_run = tt

abbrev begun : Gateway
begun = start limits origins 4 1024 30 false

abbrev asking : Value
asking = object (fields_of (create_tunnel_message (codes "r1") 3000 none))

abbrev seated : Gateway
seated = step world begun at_ten (opening 1 upgrade)

abbrev greeted : Gateway
greeted = step world seated at_ten (resolving 1 (resolved guest))

greeted-Reach : Reach world begun greeted
unfolding JsMap.get Policy.policy
greeted-Reach =
    Reachable.next at_ten (resolving 1 (resolved guest))
      (Reachable.next at_ten (opening 1 upgrade) Reachable.here refl) tt

-- A public request begins an exchange, the heartbeats are swept, and the socket sends a chunk.
abbrev busy : Gateway
busy = work world greeted at_ten (exchanging (beginning (codes "q1")))

abbrev loaded : Gateway
loaded = work world (work world busy at_ten sweeping) at_ten (exchanging (delivering chunk))

loaded-Reach : Reach world begun loaded
loaded-Reach = Reachable.working at_ten (exchanging (delivering chunk)) (
    Reachable.working at_ten sweeping
      (Reachable.working at_ten (exchanging (beginning (codes "q1"))) greeted-Reach))

greeted-IsValid : IsValid greeted
greeted-IsValid =
    Reachable.reachable-IsValid limits origins 4 1024 30 false world greeted greeted-Reach

reachable-IsValid_example : IsValid loaded
reachable-IsValid_example =
    Reachable.reachable-IsValid limits origins 4 1024 30 false world loaded loaded-Reach

chunk_is_buffered :
    JsMap.get 0 loaded.http_exchanges.entries
    ≡ some (record (new_entry (codes "q1")) { chunk_buffer = codes "hi" ∷ []; buffered_bytes = 2 })
unfolding gateway_run
chunk_is_buffered = refl

reachable-Undisturbed_example : Undisturbed greeted (step world greeted at_ten (closing 2)) 1
reachable-Undisturbed_example =
    Reachable.reachable-Undisturbed limits origins 4 1024 30 false world greeted greeted-Reach
      at_ten (closing 2) 1 tt (omega arith)

handle_disconnect-Absent_example : Cleanup.Absent (handle_disconnect greeted 20 1) 1
handle_disconnect-Absent_example = Cleanup.handle_disconnect-Absent greeted 20 1 greeted-IsValid.1

handle_client_message-WarrantedBy_example :
    Admission.WarrantedBy greeted
      (handle_client_message world.is_open world.decode world.mint greeted at_ten 1 asking)
      1
      (parse_protocol_message asking)
handle_client_message-WarrantedBy_example =
    Admission.handle_client_message-WarrantedBy world at_ten 1 greeted asking

abbrev late : Gateway
late = step world (step world seated at_ten (closing 1)) at_ten (resolving 1 (resolved guest))

late_resolution-bound_example :
    (Contexts.bound late.context_sessions 1 ≡ some guest)
    × (JsMap.get 1 late.heartbeats.last_beat_at ≡ some 10)
late_resolution-bound_example = Races.late_resolution-bound world seated at_ten at_ten 1 guest

abbrev waiting : Gateway
waiting = record begun { http_exchanges = (Exchanges.begin begun.http_exchanges (codes "q1")).0 }

abbrev complaint : ProtocolMessage
complaint = error_message (codes "boom") (codes "no") (some (codes "q1"))

complaint-IsValid : Protocol.Laws.IsValid complaint
complaint-IsValid = (λ p. ground arith, λ p. ground arith, λ p. ground arith)

error_message-Failed_example :
    Errors.Failed
      (handle_client_message world.is_open world.decode world.mint waiting at_ten 7
        (object (fields_of complaint))).http_exchanges
      (codes "q1")
      0
      (reported (codes "no"))
unfolding attempt stored Exchanges.coordinator JsMap.set text_dec
error_message-Failed_example =
    Errors.error_message-Failed world waiting at_ten 7 (object (fields_of complaint)) (codes "boom")
      (codes "no") (codes "q1") 0
      (Table.begin-IsValid begun.http_exchanges (Table.coordinator-IsValid 4 1024) (codes "q1"))
      (parse-fields_of complaint complaint-IsValid) (unfold policy_run Policy.allow_message in refl)
      (unfold Exchanges.begin JsMap.get in refl)
