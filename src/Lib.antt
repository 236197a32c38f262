-- ===== src/Lib.antt =====
-- Badger (the looplink repository): a tunnel server that gives a service on a developer's machine a
-- public URL. The CLI holds a WebSocket to the server; the gateway admits it, makes or restores a
-- tunnel for it, and watches its heartbeat; a public request is turned into frames on that socket,
-- and the frames of the response are gathered by the coordinator of exchanges.
--
-- Parts and files. A definition has the name of the method or the function, in lower case with
-- underscores.
--   * Security.Connections, Security.Rates, Security.Origins, Security.Policy:
--     apps/server/src/security/ connection-limiter.ts, sliding-window-rate-limiter.ts,
--     origin-validator.ts, gateway-security.policy.ts. The policy uses the limiter, the rates and the
--     origins. A method takes the object's record and gives the new one back.
--   * Tunnels.Context, Tunnels.PublicUrl, Tunnels.Repository, Tunnels.Manager:
--     apps/server/src/tunnel/ tunnel-context.ts and tunnel.types.ts, public-url.ts,
--     memory-tunnel.repository.ts, tunnel.manager.ts. The manager calls the repository, mints the
--     URLs, and records what it publishes and what it writes to the ownership store, in order.
--   * Exchanges, Exchanges.Entry: apps/server/src/http-forward/http-exchange.coordinator.ts. The
--     exchange that the table and its reader share stands in a store under a handle. The generator
--     that reads a body is taken apart at its wait: `pull` goes up to it, `resume` goes on after it.
--   * Heartbeat: apps/server/src/gateway/heartbeat.monitor.ts.
--   * Sessions: apps/server/src/tunnel/memory-anonymous-session.repository.ts.
--   * Workspaces: apps/server/src/workspaces/workspace.permissions.ts.
--   * EventBus: packages/shared/src/event-bus/in-memory-event-bus.ts.
--   * Frames, Forwarding, Protocol: packages/shared/src/types/ parse-protocol-message.ts, protocol.ts,
--     parse-http-forwarding.ts and http-forwarding.ts: the kinds of message and the readers of single
--     fields, then the messages of the data plane, then the parser of all messages.
--   * Contexts, Contexts.Resolver: apps/server/src/context/ context.factory.ts, context.resolver.ts,
--     context-session.store.ts, to-tunnel-ownership.ts and what they use: who a socket acts for.
--   * Access: apps/server/src/access/ workspace-context.service.ts and permission.service.ts.
--   * Sessions.Service: apps/server/src/tunnel/anonymous-session.service.ts, on Sessions.
--   * Gateway: apps/server/src/gateway/tunnel.gateway.ts, on the policy, the manager, the contexts, the
--     heartbeat, the parser and the coordinator. A method that awaits is cut there: `handle_connection`
--     goes up to the answer about the context and `connect` goes on after it. Gateway.Events is the
--     step relation of what can happen to a server, in any order, with the exchanges that the server
--     begins, ends and reads, and the sweeps of the heartbeats, between the events.
--   * Client, Client.Messages: apps/cli/src/services/websocket-client.ts, cut at its waits: a function
--     for each call and for each event of the socket and of the timers.
--   * Bodies, RequestForwarder: apps/server/src/http-forward/body-codec.ts and the same functions of
--     apps/cli/src/utils/body-codec.ts, how the server sends a request (http-forwarding.service.ts) and
--     how the CLI answers (apps/cli/src/services/request-forwarder.ts).
--   * RequestMapper: apps/server/src/http-forward/request-mapper.ts.
--   * Base, JsMap, Text: shared names, the language's Map with its order of entries, and its strings.
--   * Examples: the theorems at concrete inputs, and tests.
--
-- What stands for what. A socket, a handler and a read are numbers. A string is the list of its
-- UTF-16 code units, and lower case is that of ASCII. Numbers of the source that are counts or times
-- are natural numbers; where the source subtracts two times, the model compares a sum. A message
-- that JSON has read is a list of fields with their values; keys such as `__proto__` and keys that
-- are numbers, which the language orders by itself, are left out. The clock, fresh ids and tokens,
-- the URL parser, the decoding of a cookie, the bytes of a text, the writing and the decoding of
-- base64, the check of a token or a key, the answers of the database, whether a socket is open, and
-- what a handler of an event does are arguments. An error that is thrown is a value. Concurrency is
-- that of one event loop: a handler runs to its end or to its next wait, and theorems about runs
-- take every sequence of calls and events. The minting of a public URL is an argument of the manager
-- that always gives one: an environment in which it throws, after the tunnel is saved, is left out.
--
-- Bounds and fuel. Loops go over a list, so they take no fuel, but for `split_from` of Bodies: its
-- fuel is the length of the body, which is enough, since a round takes a byte or more of it.
--
-- Not modelled: the waits and timeouts of the forwarding service, storage and records of traffic,
-- statistics, replay, the live dashboard, the commands and screens of the CLI, and all that talks to
-- a database or a browser.
pub mod Base
pub mod JsMap
pub mod Text
pub mod Security
pub mod Sessions
pub mod Tunnels
pub mod Contexts
pub mod Gateway
pub mod Access
pub mod Client
pub mod Bodies
pub mod RequestForwarder
pub mod RequestMapper
pub mod Workspaces
pub mod EventBus
pub mod Exchanges
pub mod Frames
pub mod Forwarding
pub mod Protocol
pub mod Heartbeat
pub mod Examples
