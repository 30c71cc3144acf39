-- ===== src/Lib.antt =====
-- A library on the OpenClaw mobile companion: the relay bridge that pairs phones and glasses,
-- registers them as devices, keeps their sessions alive with rotating refresh tokens, admits them to a
-- websocket relay with tickets of one use, and takes the events of glasses from a program on a laptop;
-- and the parts of the apps on the phone and on the glasses that talk to it.
--
-- The bridge (bridge/src) is a service over a store. `BridgeServices` of bridge/src/services.ts holds
-- the rules; its methods that write several tables run inside `withTransaction` of a store, which is
-- `InMemoryBridgeStore` of bridge/src/memory-store.ts in development and PostgreSQL in production. The
-- relay of bridge/src/relay.ts keeps one websocket connection for a device and calls the services. The
-- laptop bridge (laptop-bridge/src) queues the signals of its adapter and delivers them in batches to
-- bridge/src/hardware-bridge-ingest.ts, which may see a batch again and sorts out duplicates.
-- The HTTP routes of bridge/src/server.ts check a request and call the services, the relay or the
-- client of the OpenClaw server (bridge/src/openclaw.ts). On the phone, MobileCompanionController of
-- mobile/src/mobile-companion.ts keeps the registration that the bridge gave, refreshes its session
-- and drives the websocket session of mobile/src/websocket-session.ts; the app on the glasses, which
-- is EvenHubAppController of glasses/src/app-controller.ts, keeps its registration in the storage of
-- glasses/src/storage.ts and sends turns.
--
-- Bridge/State         the records of bridge/src/state.ts
-- Bridge/Store         the tables of bridge/src/memory-store.ts and its methods; Coherent is the
--                      invariant of the tables, Upkeep and Cleanup/Sweeps its upkeep by the writes
-- Bridge/Ids           bridge/src/ids.ts
-- Bridge/SessionKey    bridge/src/session-key.ts
-- Bridge/AccessTokens  bridge/src/access-tokens.ts
-- Bridge/Services      bridge/src/services.ts: a method is a function of the store that returns or
--                      throws an `ApiError`, with the store that it leaves; Pairing, Register, Refresh,
--                      Access and Activity hold the methods, and the modules below them the proofs
-- Bridge/History       series of calls of these methods, with what holds through all of them: Coherent
--                      for the tables, Revocation for a device, Closed for a session of pairing,
--                      Spent for a bootstrap token, Replies for the result of a prompt; Quiet is
--                      about the calls that leave most tables alone
-- Bridge/RateLimit     bridge/src/rate-limit.ts
-- Bridge/Ingest        bridge/src/hardware-bridge-ingest.ts
-- Bridge/Relay         bridge/src/relay.ts: the connections, in Messages the handlers, and in
--                      Callbacks the steps
-- Bridge/OpenClaw      bridge/src/openclaw.ts: the attempts of a call and what each answer leads to;
--                      Data holds what it reads and reports, Verdict what an answer means
-- Bridge/Server        bridge/src/server.ts and auth.ts: the routes in Routes, the turns in Turns, and
--                      the proofs on the guards and on the revocation in modules below them
-- Bridge/Examples      concrete stores, relays and batches, to which the theorems are applied
-- Laptop/Buffer        laptop-bridge/src/event-buffer.ts and backoff.ts
-- Laptop/Runtime       laptop-bridge/src/bridge-runtime.ts and upstream-client.ts
-- Laptop/Delivery      the laptop, the network and the ingest of the bridge together
-- Laptop/Examples      the same for the laptop bridge
-- Mobile/Session       mobile/src/websocket-session.ts and reconnect.ts
-- Mobile/Companion     mobile/src/mobile-companion.ts, with secure-storage.ts in Registration and
--                      repair.ts in Repair; Bridged is the phone together with the services of the
--                      bridge
-- Mobile/PairingForm   mobile/src/validation.ts; Agrees compares it with the bridge
-- Mobile/Examples      the same for the phone
-- Glasses/Storage      glasses/src/storage.ts
-- Glasses/Display      `clampGlassText` of glasses/src/display.ts
-- Glasses/PairingForm  glasses/src/validation.ts
-- Glasses/Controller   glasses/src/app-controller.ts: Calls holds its methods up to their waits, Replies
--                      their rest and the steps
-- Glasses/Examples     the same for the glasses
--
-- A text is the list of its UTF-16 code units, and a `Date` its number of milliseconds. A `Map` is
-- an association list in the order of insertion. The clock and the random bytes of a call are
-- arguments of it. node's HMAC and the library jose are parameters (`Env.hmac` and `Env.jwt`); where
-- a theorem speaks of a second code or token, it asks that its hash is another one, and nothing else
-- is assumed of them. What `fetch` comes to is an argument, and so are the requests of the phone.
-- `toUpperCase` of a typed pairing code is an argument of the forms, and the theorem on it asks that
-- it changes only the letters of an ASCII text. A transaction over the memory store is its callback;
-- over PostgreSQL it is the callback with the store put back when it throws (`withTransaction` of
-- bridge/src/postgres-store.ts), and the tables are taken to be the same as in memory. Calls of the
-- services run one after the other: transactions that overlap in time are not modelled. The relay
-- and the laptop runtime are series of callbacks in any order; a callback that waits for OpenClaw,
-- for the adapter or for the network is two steps. A handler of a route runs as a whole, but for a
-- turn, which is cut where it waits for OpenClaw. All recursion is on lists, or on the number of
-- attempts that a call of OpenClaw has left, so no fuel is needed.
--
-- Left out of the responses are the texts `qr_payload` and `ws_url`, which only join other fields,
-- and the fields that are constants. Not modelled: the SQL, the loading of the configuration, the
-- start and close of the server, its log and CORS headers, the health routes, which only read, the
-- texts that the app on the glasses only shows, and the user interfaces and device drivers of the apps.
pub mod Prelude
pub mod Bridge
pub mod Laptop
pub mod Mobile
pub mod Glasses
