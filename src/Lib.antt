-- ===== src/Lib.antt =====
-- The TypeScript SDK of js/packages: an application calls a facade, which hands each call to
-- every integration that is registered; the integration of the project's own api keeps a
-- visitor's identity, queues events and posts them with retries.
--
-- Parts and files, each about the file of js/packages/core/src that it names:
--   Flatten: flatten.ts. The traits and properties of a call, with nested objects joined by `_`.
--   Errors: errors.ts. The typed errors and `classifyResponse`.
--   Types: types.ts. The events that the facade hands out, and the results.
--   Storage: storage.ts. `MemoryStorage`, `WebStorage` and the interface of both.
--   Ids: the identifiers of api-integration.ts, from sixteen random bytes.
--   Api: api-integration.ts. Api.Construct is the constructor, Api.Request is `request` with
--     `envelope` and `noteOutcome` (Api.Request.Ends tells where its loop stops), Api.Queue is `drain`, `flush`, `persist` and `schedule`,
--     Api.Calls is `init`, `identify`, `track`, `page`, `reset` and `shutdown`.
--     Api.Interleaved has the steps of the queue while a batch is in flight: Chain is the chain
--     of drains that `flush` makes, Exclusion and Refines relate it to that one line of batches, as
--     Sequential does `flush` run by itself; Order is about the order of events, and Crash about a
--     run that ends in the middle.
--   Integration: integration.ts. The base class, and the api integration seen as one.
--   Facade: iforevents.ts. `fanOut` and the calls of `Iforevents`.
--   Context: context.ts. The default contexts, and the campaign of a page. Context.Shapes is the
--     interface `EventContext` of types.ts, which Context.Platforms holds all contexts against.
--   Node: js/packages/node/src/index.ts. The client of a server process.
--   Vendors: js/packages/{amplitude,mixpanel,posthog,segment,ga4}/src. A file for each adapter;
--     Vendors.Scalars is about `scalarize`, Vendors.People about whom their calls name,
--     Vendors.Settling about calls of Mixpanel's client that nobody answers.
--   Browser: js/packages/browser/src. Browser.Agent and Browser.Context are context.ts,
--     Browser.Create is `createBrowserIforevents`, Browser.Static is static.ts and iife.ts,
--     Browser.Turns is about calls that interleave, at each `await` of `track`, `page`, `identify`.
--   ReactNative: js/packages/react-native/src/index.ts. The client of an app and its navigation.
--   PageViews: the effects of js/packages/react/src/index.tsx and js/packages/next/src/index.tsx that
--     send page views. Provider: `IforeventsProvider` of react, with the hooks.
--   NextServer: js/packages/next/src/server.ts.
--   Js: numbers, dynamic values and objects, and what the language's library computes from them.
--   Exec: calls that change a state and may reject. Prelude: shared names and lemmas.
--   Tests: a concrete network, store and facade, and each theorem applied to them.
--
-- A class is a record of its fields, a method a function from the state to an outcome (a value, a
-- rejection, or no end) and the next state. What a method meets outside is in the record `Env`:
-- the answers of `fetch` by their number, the clock, the random bytes, the context provider, the
-- hooks, the store and the runtime. The state also logs the posts sent, the delays slept and the
-- callbacks called, so that theorems can speak of them. A Date is the text of its
-- `toISOString()`.
--
-- Bounds and fuel: the loop of `request` runs on `max_retries + 1` rounds, and each round but the
-- last is one retry; the loop of `drain` runs on one round more than the queue is long, and each
-- round takes an event at least. A loop out of fuel has an outcome of its own. The continuations
-- of a client run on twice as many rounds as are queued, since each queues one more at most.
--
-- Parameters: `JSON.parse`, `JSON.stringify`, `String(v)` and `Number(text)` (the record
-- `Runtime`), the browser's storage object (`Backend`), `URLSearchParams`, the process and its
-- host (`Globals`, `Host`), the vendors' clients (`Vendor`, where a call that is not awaited
-- fails only by an exception, and one that is awaited settles), the browser's window (`Window`, `Navigator`), the device
-- (`Device`), and the network, of which an answer may never come (`stalled`).
-- `Settles` says that each does, the body included. `IsLawful` is what is relied on of a store: reads see the last
-- write; `Codec` that the stored queue is read back.
--
-- Not modelled: calls that interleave at their awaits, but for the queue in Api.Interleaved and
-- the calls of a client in Browser.Turns (else each call runs to its end before the next, also a
-- flush that is not awaited); writes of a store that overtake each other; a store whose calls
-- reject, a throwing `onError`, `onQuotaExceeded` or `onResult`; the logger; the abort of a
-- request by its timeout, beyond its being a rejection of `fetch` (a body that stalls after the
-- timeout is cleared is an answer that never comes); a `maxRetries` of NaN or Infinity, with which
-- the loop has no bound (another number acts as its ceiling, a negative one as 0); promises of the
-- vendors' clients and of hooks that never settle, but for Mixpanel's callback; calls of `init`,
-- `need`, `drainQueue` and `_resetForTests` through the queue of a page; the order of integer-like keys
-- and the key `__proto__`; the rounding of doubles; what React renders. The SDKs in other
-- languages are separate programs.
mod Prelude
pub mod Js
pub mod Flatten
pub mod Errors
pub mod Exec
pub mod Types
pub mod Storage
pub mod Ids
pub mod Api
pub mod Context
pub mod Integration
pub mod Facade
pub mod Node
pub mod Vendors
pub mod Browser
pub mod ReactNative
pub mod PageViews
pub mod Provider
pub mod NextServer
pub mod Tests
