-- ===== src/Lib.antt =====
-- nexo is a chat server: users and agents exchange messages in single chats and in groups, over HTTP
-- and over websockets, on several nodes that share one database. This library models the code that
-- decides what is stored and who sees it, and proves what that code promises.
--
-- The parts, how they interact, and the files that model them:
--   * internal/store/store.go is the contract of the tables, and internal/store/storetest/mem*.go the
--     store that states it in Go. Store holds the rows, Store/Db the tables as maps and a list, and
--     Store/Users, Groups, Conversations, Messages and Online one function for each statement, from
--     the tables to a result and the tables after it.
--   * internal/store/pgstore/store.go, `WithTx`: Store/Action. Service code is an action on a world of
--     the tables, what the next statements do (each may fail, `BEGIN` and `COMMIT` too), the events
--     sent, and the service's memory. Store/Action/Rules and Hoare are the rules by which the proofs
--     follow the code; Store/Lock is about the lock of a conversation row.
--   * errcode/errcode.go: Errcode. internal/identity/identity.go: Identity. internal/service/conv:
--     Conv. internal/ratelimit/keyed.go: Ratelimit. internal/service/dto/message.go: Dto.
--   * internal/cache/cache.go and local/local.go: Cache, the in-memory cache and the ideal one that it
--     implements; Cache/Port is the interface that its clients take.
--   * internal/tokenstore/tokenstore.go: Auth/Tokens, over a cache. internal/auth: Auth, with the
--     providers in Auth/Native, Auth/External and Auth/Internal, and their chain in Auth.
--   * internal/onlinestore/db/db.go: Onlinestore, over the tables.
--   * internal/service/message/message.go and members.go: Message. `Send` is Message/Send, with
--     `normalizeDestination`, `checkGroupSend`, `touchConversations` and the others as functions of
--     those names in snake case; the callback of its transaction is `send_body`. `Pull`, `Recipients`
--     and `VisibleTo` are in Message/Pull, the roster cache in Message/Members, `MaxSeqs` in
--     Message/Sync, offline.go in Message/Offline and bus.go in Message/Bus. It calls the tables,
--     the rate limiter and the bus, whose messages are the `push` events.
--   * internal/service/group/group.go: Group. Its `remove_body` is the callback of `remove`.
--   * internal/service/conversation/conversation.go: Conversation (`mark_read`, `get`, `set_opt`),
--     and `List` in Conversation/Listing.
--   * internal/service/user/user.go: User, the profiles (`get`, `get_many`, `update`, `upsert`), and
--     User/Accounts, `Register`, `Login`, `Logout` and `OnlineStatus`, over the token cache.
--   * internal/gateway/usermap.go: Gateway/Usermap, the connection registry of a node. Each method
--     holds the lock, so any interleaving of goroutines is a sequence of these functions; Steps has
--     the relation of what can be reached.
--   * internal/gateway/push.go: Gateway/Push, from a payload of the bus to the connections.
--   * internal/gateway/budget.go and the queue of client.go: Gateway/Budget, one function for each
--     atomic operation or locked section, so any interleaving of goroutines is a list of calls.
--   * internal/config/config.go: Config has the settings, Config/Validate the checks that a node makes
--     of them before it starts, each `fail` a complaint of its own.
--   * Prelude has what the parts share: lists and bytes over the native numbers, the integers that
--     clients send, Go maps as association lists, and a sort. Examples runs the model.
--
-- Numbers and bounds: seqs and times are the non-negative values of their int64 columns; the seq
-- after `n` wraps at 2 ^ 64 as the machine's addition does. A decimal of an int64 has at most 19
-- digits, and the printer of Identity/Decimal gets fuel for 20. Chunks of a list take as much fuel
-- as it has elements, and the client that follows cursors in Conv/Page/Follow a bound on its pages.
-- Instants of the cache and of internal requests are nanoseconds; other times are milliseconds.
--
-- Parameters: the jwt package, HMAC and SHA-256, bcrypt, the JSON encoder and decoder, the online store of the offline pushes, the checks of
-- `encoding/json` and of the uuid package, `net.ParseCIDR`, `mysql.ParseDSN`, the limiter of
-- golang.org/x/time/rate, and the values that the clock, the uuid and the random group id give.
--
-- Not modelled: SQL and its collations, the HTTP API, the SDK, the reading of the configuration, the
-- event bus, the caches and presence over redis and PostgreSQL, the webhook of offline pushes and
-- the bus timeouts, since they are transport, third-party code or text for a database; the sockets,
-- timers, kicks and presence subscriptions of the gateway, and the worker set of the offline pushes.
-- An error of internal/auth is the sentinel that `errors.Is` finds in it. Actions run one at a time:
-- that the lock of a conversation row makes concurrent transactions do so is the database's promise.
pub mod Auth
pub mod Cache
pub mod Config
pub mod Conv
pub mod Conversation
pub mod Dto
pub mod Errcode
pub mod Examples
pub mod Gateway
pub mod Group
pub mod Identity
pub mod Message
pub mod Onlinestore
pub mod Prelude
pub mod Ratelimit
pub mod Store
pub mod User
