-- ===== src/Lib.antt =====
-- Verification of the Svitock chat server.
--
-- The server (src/infrastructure/network/server.cpp) accepts WebSocket connections, gives the text
-- of each message to a dispatcher, which posts an envelope to one of four actors; worker threads take
-- envelopes out of the actors' mailboxes and handle them: the message actor hands a chat message to
-- the chat actor, which sends a record to the storage actor and notices to the session actor, which
-- writes them to the sessions. An HTTP router serves tokens and the history of a chat.
--
-- The files and the code, with paths from the root of the repository:
--   Base        shared helpers: tests, lists, texts, exceptions as values, association lists, digits
--               (toHex of src/core/security/jwt_service.cpp is Base.Digits.to_hex)
--   Extern      the third-party code, as parameters: nlohmann::json, boost::uuids,
--               boost::lockfree::queue, SHA-1, yaml-cpp, libpqxx with the server behind it, and the
--               acceptors of boost::asio, with what their documentation promises
--   Domain      src/domain
--   Application src/application: the use cases, and the repository ports in Application.Ports
--   Actor       src/core/actor: Payload is actor_message.hpp, Mailbox is mailbox.cpp, System is
--               actor_system.cpp without the loop of its workers
--   Dispatcher  src/infrastructure/dispatcher/message_dispatcher.cpp
--   Session     src/infrastructure/network/websocket/websocket_session.cpp, and the registry of
--               transports of src/infrastructure/actors/session_actor.cpp
--   Listener    src/infrastructure/network/websocket/websocket_listener.cpp; Listener.Opening has the
--               constructors of all three listeners
--   Runtime     src/infrastructure/actors, each `handle` over the state that the actors share;
--               Runtime.Worker is `workerLoop` of src/core/actor/actor_system.cpp. Pipeline is the
--               abstract machine of one message, Delivery relates it to the server, Reachable has
--               the steps of all threads, Sent the messages behind the envelopes that wait, Reading
--               is `onRead` of the session, Life the sessions of
--               a running server from their accept to their end, Load says how much work the
--               waiting envelopes are, and Settling how the rounds of a worker use it up.
--               Letters follows the messages on their way from a client to the repository; Threads
--               has the steps of several workers between `pop` and `handle`
--   Server      src/infrastructure/network/server.cpp and src/core/threading/thread_pool.cpp;
--               Server.Startup is src/main.cpp with the part of the constructor that can fail
--   Jwt         src/core/security/jwt_service.cpp
--   Http        src/infrastructure/network/http: http_router.cpp, http_session.cpp in
--               Http.Connection, http_listener.cpp in Http.Accepting; Http.History
--               puts the history route over the repository of Postgres
--   Config      src/core/config; Config.Documents says what a document such as config/server.yaml has
--   Database    src/infrastructure/database/postgres_pool.cpp
--   Postgres    src/infrastructure/repositories, as implementations of the ports: Messages, Chats and
--               Users
--   Presentation src/presentation: the transfer object and the controllers
--   Legacy      src/infrastructure/websocket, which the build leaves out: the dispatcher and the
--               session manager, the session in Legacy.Session, the listener in Legacy.Listener
--   Tests       concrete libraries, and the theorems at concrete inputs
--
-- A C++ function becomes a function of the same name in snake case, from the state before to the
-- state after; an exception is a value of `Outcome`, and one that leaves a handler ends the process.
-- Random identifiers and the time are arguments. Objects behind weak pointers have addresses, and
-- `World.objects` says which are alive. A visit of a worker, a dispatched message and a handler of a
-- session are single steps; several threads are interleavings of such steps. In Runtime.Threads the
-- `pop` of a worker and its call of the handler are two steps.
--
-- Bounds. Sizes and counters are natural numbers, with `% 2 ^ 64` where the source can wrap around:
-- the expiry of a token, the numbers of sessions, the turns of the pool and the length in the history
-- route. The destructor's loop has fuel, and one round more than there are entries is enough
-- (Actor.Mailbox.Laws). Digits take as much fuel as the number and one more, which is enough as
-- Base.Digits reads every number back. The JSON reader of the tests has nine levels of fuel, and
-- serves only the examples. The loop of a worker runs for the rounds that it is given; Runtime.Load
-- is the measure of how many it needs.
--
-- The database. The model of libpqxx knows the three tables that the repositories name, and the
-- text of each of their statements; what a statement does to the tables, or gives of them, is a law.
-- A transaction that is not committed is rolled back to the tables as they were when it began. A cell
-- is read in the form in which it was written; no law says what a conversion gives.
-- The schema is not part of the repository: that a name has one user, where a theorem needs it, is a
-- hypothesis.
--
-- Not modelled: log lines and the set-up of the logger, sockets, the pause of an idle worker, the
-- moments inside a single call at which threads may interleave, the flag that a signal sets (what
-- the threads do until then is an argument of `main`), and the
-- server of the old WebSocket code, which only writes to the log.
pub mod Actor
pub mod Application
pub mod Base
pub mod Config
pub mod Database
pub mod Dispatcher
pub mod Domain
pub mod Extern
pub mod Http
pub mod Jwt
pub mod Legacy
pub mod Listener
pub mod Postgres
pub mod Presentation
pub mod Runtime
pub mod Server
pub mod Session
pub mod Tests
