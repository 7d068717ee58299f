-- ===== src/Lib.antt =====
-- Alice-EVE relay server: accounts and sessions, the message store, rate limits, realtime delivery,
-- conversations, settings and updates with their in-memory repositories, the route planner and the client
-- of EVE's API.
--
-- Parts, and the files that model them:
-- - Accounts (relay-server/internal/accounts): the data model in Accounts, memory.go in
--   Accounts.Memory and Accounts.Rotation (`RotateRefresh`), service.go in Accounts.Service. The
--   invariant of the repository is in Accounts.Invariant and Accounts.Calls, and what follows from it
--   in Accounts.Permanence, Accounts.Exchange, Accounts.Replay and the children of Accounts.Service.
-- - Store (relay-server/internal/store): store.go and memory.go, the backlog of messages, devices and
--   pairing codes. The pages of the backlog are in Store.Pages.
-- - RateLimit: the type `rateLimiter` of realtime/hub.go and of conversations/conversations.go.
-- - Realtime (relay-server/internal/realtime): hub.go, the delivery hub. It charges the limiter, and
--   keeps a queue of events for each device of an account. outbox.go is in Realtime.Outbox, over an
--   interface whose laws are in Realtime.Handover; they leave room for calls that fail after they took
--   effect and for other workers. The PostgreSQL code that fills the interface is not modelled.
-- - Conversations (relay-server/internal/conversations): the rules, the repository (memory.go,
--   runs_memory.go) and the service of conversations.go, for messages in Conversations.Service and for
--   runs in Conversations.Execution. The service asks the authorizer, charges the limiter and then
--   calls the repository. Conversations.Steps has the steps of the repository as a relation.
--   A message that is put under the id of a stored one overwrites it; the service draws a new id for
--   each, and what speaks of one message over later calls asks that none of them puts its id again.
--   A message that is put under the id of a stored one overwrites it; the service draws a new id for
--   each, and what speaks of one message over later calls says that none of them puts its id again.
-- - Routes (relay-server/internal/routeplanner): planner.go. The search is in Routes.Search, with what
--   holds of its loop in Routes.Walk, Scan, Loop, Rounds, Fuel and Shortest, of its way back in
--   Routes.Trace, and of its answers in Routes.Answers; the cache is in Routes.Planner, Caching and
--   Recall.
-- - Esi (relay-server/internal/esi): limiter.go in Esi.Limiter, and the requests of client.go, which ask
--   the limiter and keep the cache, in Esi.Client.
-- - Settings (relay-server/internal/settings): service.go, the policy on documents in Settings.Policy and
--   the repository with the service in Settings.Service.
-- - Updates (relay-server/internal/updates): service.go, manifests in Updates, versions in
--   Updates.Version, the choice of an update in Updates.Select and the repository in Updates.Memory.
-- - Authn (relay-server/internal/authn): the memory repository of challenge.go.
-- - Market (relay-server/internal/marketdata): marketdata.go in Market, schedule.go and scheduler.go in
--   Market.Jobs, what a valid page is in Market.Page.
-- - Base: lists, texts, maps, sorting, signed numbers and results that all of these use.
-- - Tests and Accounts.Service.Tests: the theorems at concrete inputs.
--
-- How the code is modelled: a method takes the state and gives the new state with its result, so the
-- lock that each method holds makes it one step. Where a call lets go of its lock in between, other
-- callers matter: an update of settings has what they do between its read and its write as an
-- argument, while the route planner and the client of EVE's API are modelled for calls that follow
-- each other. A Go map is an association list with one entry per key (Base.Dict); where Go ranges
-- over a map, the order of the list stands for the arbitrary one. A `time.Time` is a count of
-- nanoseconds from Go's zero time, an int64 that counts (a cursor, a sequence) wraps at 2 ^ 63
-- (`inc64` of Base.Int), and `a || b` on errors follows the order of the returns. Loops are
-- structural recursion on the list they range over, but for two of the route search, which run on
-- fuel: the breadth-first loop on two more than the number of systems, since a round takes off the
-- queue a system that is never put there again, and the way back on the limit of jumps, since each
-- step is one less deep. A float64 of the route planner is a value of a type with the tests that the
-- code makes, so nothing rests on its arithmetic.
--
-- Parameters, because their code is not in the repository or is not Go: the token hash, what random
-- sources draw, the clock, JSON and its encoders, HTTP and what its headers say, hashes,
-- `url.Parse`, the loader of graphs, the authorizer, and the answers of a durable repository.
--
-- Not modelled: the PostgreSQL repositories (SQL), the HTTP API and its clients, goroutines that
-- wait for a context or for wake-ups, the planners of marketplan and trade, the collection of market
-- data itself, the endpoints of ESI and the synchronisation with it, and the desktop and mobile
-- applications.
pub mod Base
pub mod Accounts
pub mod Store
pub mod RateLimit
pub mod Realtime
pub mod Authn
pub mod Conversations
pub mod Esi
pub mod Market
pub mod Routes
pub mod Settings
pub mod Updates
pub mod Tests
