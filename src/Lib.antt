-- ===== src/Lib.antt =====
-- gomsg: a chat server in Go (backend/), as functions on the state of its tables, its hub and its Kafka
-- log, with the theorems that make its messages, chats, accounts and connections correct.
--
-- The path of a message. The message service (backend/internal/service/message_service.go) checks a
-- request and has the message writer (backend/internal/repository/postgres/message_writer.go) store the
-- change and an outbox row in one transaction. The outbox relay (backend/internal/worker) takes the
-- pending rows, hands them to Kafka or to the local broadcaster, and marks them. The consumer of Kafka
-- hands them to the broadcaster (backend/internal/transport/ws/broadcaster.go), which looks up the
-- members of the chat and puts the envelope into the channels of their connections in the hub
-- (backend/internal/transport/ws/hub.go and client.go).
--
-- The path of a chat. The chat service (backend/internal/service/chat_service.go) opens the one direct
-- chat of two users, under the hash of their ids, or a group with its members in one transaction; the
-- memberships that it stores decide who reads, who writes and whom the broadcaster reaches.
--
-- The path of a connection. Registration or login (backend/internal/service/auth_service.go) issues the
-- tokens; a user with one asks for a ticket (backend/internal/service/ws_ticket_service.go), which Redis
-- keeps for a while, and spends it at the WebSocket handler (backend/internal/transport/ws/handler.go),
-- which registers the connection in the hub and marks the user online. The frames that the connection
-- sends are requests to the message service or typing events
-- (backend/internal/service/ws_service.go).
--
-- The files.
--   Prelude: shared names, native lists and their row operations, Go strings as lists of code points.
--   Json, Result, Errors: JSON trees, results, Go's errors (pkg/errors) and the replies to them
--     (pkg/response).
--   Domain: the structs of backend/internal/domain and the parameter structs of the repositories.
--   Store: the tables as lists of rows, and `Go`, a call that reads and writes them and may fail.
--     `query`, `exec` and `transaction` are one statement that reads, one that writes, and
--     Begin … Commit with the deferred Rollback. `Env` says which of them fail, so a theorem for every
--     `Env` holds for every pattern of failures. `redis_do` is one Redis command on the keys of the
--     `World`, and `caught` a call whose error the code looks at. The children of Store have the
--     rules by which calls are put together: what they leave unchanged (Effects, Failing), what a
--     successful one has done (Outcome, Steps), what all keep (Keeps), and how they run where nothing
--     fails (Runs).
--   Uuid: the UUID pattern, the path parameters, PostgreSQL's cast.
--   Tables: the SQL statements. Repository: the methods of the repositories and of the message writer.
--     Tables/Chats has the statements on chats and members in its children Creation (the inserts) and
--     Summaries (the lists), and what they keep in Keys, Members and Added; Tables/Users those on users.
--     Tables/Messages/Wanted, Tables/Chats/Live and, on the side of the services, Chats/Joined,
--     Chats/Shown and Messages/Cursor say what the tests of those statements mean, apart from the code.
--   Service: MessageService, method by method (Create is `create`, ListByChat `list_by_chat`, …).
--   Service/Clients: strOrNil and trimIP, with net.SplitHostPort.
--   Service/Sessions: the refresh sessions of AuthService (service/auth_service.go): issueTokens,
--     Refresh, Logout, LogoutAll, over RotateRefresh and the rest of the session repository.
--   Service/Credentials, Accounts: validateCredentials with the e-mail pattern, Register and Login.
--   Service/Membership: the membership tests and RemoveMember of ChatService
--     (service/chat_service.go). Service/ChatParts, Chats: its other operations; CreateDirect is
--     `create_direct`, Get `get_detail`, Members `members`, AddMembers `add_to_chat`.
--   Service/Profiles: UserService (service/user_service.go); GetByID is `get_card`, Search
--     `search_cards`.
--   Service/Sockets: WSService, from HandleEvent down.
--   Redis: the commands on keys with a time to live; Redis/Tickets: WSTicketStore and WSTicketService;
--     Redis/Presence: PresenceRepository, PresenceService and TypingRepository. Admission: the
--     WebSocket Handler, with the readPump of the connection in Admission/Pump.
--   Hub: Register, Unregister, SendToUser, CloseAll and the queues; a *Client is a number in a store of
--     channels, and a step relation has the interleavings of the goroutines, as the hub's lock orders
--     them. Broadcaster: MarshalEnvelope and deliverPayload. Relay: tick, publishLocal and
--     FanoutKafkaDomainEvent.
--   Examples: concrete tables and requests, on which each theorem is applied.
--
-- Conventions. A time is a natural number, a duration one of nanoseconds. Every loop of the modelled code
-- runs over a list but the one of CreateDirect, which counts its three attempts as the code does, so the
-- definitions are total and there is no other fuel. A COMMIT that reports an error is taken to have
-- changed nothing, and so is a Redis command. encoding/json is trees: json.Marshal accepts every tree,
-- and what it wrote reads back; json.Unmarshal into the structs of inbound frames is a parameter, since
-- it also decides which frames are malformed.
--
-- Parameters: time.Parse, SHA-256, the random source, the signature of a JWT, bcrypt, strings.ToLower on
-- the e-mail, lower and ILIKE of the database, json.Unmarshal of inbound frames, the outcome of the
-- upgrade to WebSocket, the kafka-go writer's answers, the Redis publisher, the clock, the random UUIDs
-- and the failures of statements and Redis commands. The lifetimes of tokens are taken as their product
-- with time.Second.
--
-- Rows that an ORDER BY leaves tied keep the order of the list. The tables of `Db` hold what the
-- statements read: the indexes, checks, widths and foreign keys are tests of the statements that insert.
--
-- Not modelled: the rate limiter, whose token buckets are golang.org/x/time/rate; the HTTP handlers, which
-- decode a request, call one service method and write its result or error; configuration, wiring,
-- migrations, logging and the registration of metrics. Sockets, deadlines, pings and the timer of the
-- relay are I/O around the steps.
pub mod Prelude
pub mod Json
pub mod Errors
pub mod Result
pub mod Domain
pub mod Store
pub mod Uuid
pub mod Tables
pub mod Repository
pub mod Service
pub mod Hub
pub mod Broadcaster
pub mod Relay
pub mod Redis
pub mod Admission
pub mod Examples
