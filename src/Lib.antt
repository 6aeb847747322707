-- ===== src/Lib.antt =====
-- The TypeScript runtime of the plugin infrastructure, and what is proved of it.
--
-- A plugin is a package with a protobuf service. packages/plugin-codegen derives its contract, the
-- methods and their numeric identifiers, from the service's descriptor. packages/plugin-runtime
-- serves the contract: the socket server cuts a byte stream into envelopes, hands each request to
-- the dispatcher or to a pool of workers, bounds its time, counts it and answers it; the
-- dispatcher lets a request through to the plugin's handler once `Init` has returned, with the
-- configuration of that `Init`; handlers reach a namespaced key-value store with locks, and a cache
-- that bounds what they keep.
--
-- The files and the code that each is about:
--   Common: lists, maps in the order of their insertion (`JsMap` for `Map`), strings as lists of
--     code units, sorting, `split`, `join` and `trim`.
--   Cache: `WarmCache` of packages/plugin-runtime/src/cache.ts.
--   Protocol: framing and envelopes of packages/plugin-runtime/src/protocol.ts. The message format
--     itself is protobuf's, and a parameter.
--   Kv: the memory store of packages/plugin-runtime/src/kv.ts; Kv.Patterns has
--     `globToRegExp` with the part of JavaScript's regular expressions that it uses, Kv.Listing
--     `listKeys` and `clear`, Kv.Lock has `withLock`. JSON is the interface `Json`, with its round
--     trip as a law.
--     Kv.Redis has the store on Redis, whose commands are a parameter, with what Redis documents of
--     them as laws (Kv.Redis.Laws, and Kv.Redis.Scans.Laws for `SCAN`).
--   Codegen: method-ids.ts, plugin-contract.ts and generate-ts-handlers.ts of
--     packages/plugin-codegen/src.
--   Runtime.Values: the untyped values that requests and results are; Runtime.Tracing and
--     Runtime.Metrics: tracing.ts and metrics.ts of packages/plugin-runtime/src.
--   Runtime.Bootstrap and Runtime.Context: bootstrap.ts, and the sinks and records of context.ts,
--     logger.ts and tracing.ts.
--   Runtime.Dispatcher: dispatcher.ts, errors.ts and the validation of bootstrap.ts. A call is two
--     steps, up to its handler's call and after its handler has settled, and Runtime.Dispatcher.Calls
--     interleaves the steps of many calls.
--   Runtime.Server: `handleEnvelope` and `handleRpcRequest` of socket-server.ts, for one request
--     that is served alone. What a handler comes to, and when, is a parameter.
--   Runtime.Server.Overlap: the same handler for requests that overlap, cut at its `await`s: a run is
--     a list of steps, in which requests come, calls of the dispatcher begin and end, timers end, and
--     replies are written, in any order. Its children say what holds after every run.
--   Runtime.Server.Connection: the `data` events of a connection; Runtime.Setup: the checks and
--     choices of its start.
--   Runtime.Pool and Runtime.Worker: worker-pool.ts and request-worker.ts. What Piscina makes of a
--     task is a parameter; a worker serves its tasks one after the other.
--   Runtime.WorkerEntry, Runtime.ServiceDefinition and Runtime.Process: worker-entry.ts,
--     service-definition.ts and process-main.ts of the same directory, the last with the start of
--     socket-server.ts. The environment is a function; imports and descriptor sets are parameters.
--   Pluginctl: manifest-schema.ts, integrity.ts, validate-manifest.ts, pack.ts, install.ts,
--     generate.ts and init.ts of packages/pluginctl/src. A package is a tree of files; SHA-256, JSON's
--     texts, the disk and the descriptor sets are parameters. Pluginctl.Cli has the actions of cli.ts
--     over an interface of the workflows, and Pluginctl.Commands build.ts, test.ts and
--     command-runner.ts of the same directory.
--   Templates: packages/plugin-templates/src/index.ts.
--   TestKit: create-test-context.ts and in-process-harness.ts of packages/plugin-testkit/src.
--   Plugins.Crud: examples/crud-plugin/src/index.ts, over an interface of its SQL statements;
--     Plugins.Calc, Plugins.Quote and Plugins.Http: the other plugins of examples.
--   Tests: runs, and the theorems at concrete inputs.
--
-- State is passed explicitly: an operation takes the state and returns it with its result. Time is
-- an argument. Numbers are natural numbers where the source keeps them whole and not negative.
--
-- `decode_loop` of Protocol runs on fuel: one unit for each test of the loop's condition, and one
-- more than the buffer has bytes, which is enough since each round reads four bytes at least. The
-- loops of Kv.Redis.Scans run on fuel, one unit for a round, which is enough as soon as there is one
-- for each round of the iteration of `SCAN`. All other loops recurse on their list.
--
-- Not modelled: threads and spans, which belong to other packages; how pluginctl's arguments are
-- read and programs run, the copying of files and archives; sockets; protobuf and the code it
-- generates; the Rust host; what the rejection of the promise that `withTimeout`, or the pool's
-- `run`, drops does to the process. An integrity mismatch is told by the two digests, and a
-- manifest has no integer-like keys, which JavaScript reorders.
mod Common
pub mod Cache
pub mod Runtime
pub mod Codegen
pub mod Kv
pub mod Protocol
pub mod Plugins
pub mod Templates
pub mod TestKit
pub mod Pluginctl
mod Tests
