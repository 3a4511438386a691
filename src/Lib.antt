-- ===== src/Lib.antt =====
-- nomothetic is the HTTP service of a small robot and of the central server that a fleet of them
-- reports to. This library models the part of it that decides who may do what, and the state that
-- those decisions rest on: the requests of a client pass a rate limit, a device is paired by a secret
-- and its owner gets tokens, a plugin proves that it holds a key and gets a narrower token, every
-- route checks the token that it is called with, the chat relay keeps the histories that it sends to
-- a language model, a chat command drives the robot through the tools that it is allowed, and an
-- autonomy routine runs as a child process under a lease, with a log of its latest events. The client
-- of the hardware daemon sends what a request asks of the hardware. Paths are from the root of the
-- repository.
--
-- The parts, and the code of each:
--
--   Base            Python's `str` as a list of code points and `dict` as an association list in
--                   insertion order, with the operations that the code uses, a result for a call that
--                   may raise, lists and Boolean tests. Pattern is a regular expression of a class
--                   of characters between two anchors, as three files match with.
--   RateLimit       src/nomothetic/rate_limit.py. `RateLimiter` is the record of that name, `check`,
--                   `reset` and `clean_old` its methods, and each `*_rate_limit` a route dependency
--                   over the state of the application, `AppState`.
--   TokenStore      src/nomothetic/token_store.py, the in-memory store.
--   UserStore       src/nomothetic/user_store.py, the in-memory store.
--   Auth            src/nomothetic/auth.py. `AuthService` holds the two stores and the signing secret.
--                   Accounts, Tokens and Sessions are its methods, Routes the allow-list of
--                   `_plugin_may_call`, Guards the dependencies `jwt_required`, `device_jwt_required`
--                   and `owner_required`. Libraries holds bcrypt, SHA-256, `str.lower` and authlib as
--                   records of functions with their documented laws, which the theorems take as a
--                   parameter.
--   PluginAuth      src/nomothetic/plugin_auth.py. Names is `_validate_plugin_name`, Keys the class
--                   `PluginKeyStore` over a directory, Challenges the class `ChallengeStore`.
--   AiConversations src/nomothetic/ai_conversations.py. The methods of `AiConversationStore` are the
--                   functions `begin`, `commit`, `abort`, `expire` and `make_room`.
--   Files           The files of the next two: what opening, measuring, replacing and deleting one does.
--   DeviceJwt       src/nomothetic/device_jwt.py, the methods of `DeviceJwtSecretStore`.
--   Pairing         src/nomothetic/pairing.py. The parent holds the functions of the file, State the
--                   methods of `PairingState`.
--   DeviceAuthRoutes
--                   src/nomothetic/device_auth_routes.py: the handlers that pair a device, refresh a
--                   token and show or end a session, over Pairing, Auth, DeviceJwt and RateLimit.
--   PluginAuthRoutes
--                   src/nomothetic/plugin_auth_routes.py: the handlers `register`, `challenge` and
--                   `token`, over PluginAuth, Auth and RateLimit.
--   RoutineLog      src/nomothetic/routine_log_store.py. `record_event` is the method `record`, and
--                   `get_snapshot` the method `get`.
--   RoutineManager  src/nomothetic/routine_manager.py. Params is `validate_routine_params`, Launch the
--                   path and the environment of a child, Calls the public methods, Monitor the methods
--                   `_monitor` and `_terminate`, and Steps the event loop that interleaves them. It
--                   writes what happens to RoutineLog.
--   AiCommand       src/nomothetic/ai_command.py. The parent holds the table of tools and the check of
--                   the arguments, Loop the method `run_command`, Keys the store of the API keys.
--   HatClient       src/nomothetic/hat.py, the client of the daemon that drives the hardware. Requests is
--                   the connection and `_request` with its second try, Methods the public methods with
--                   the tests of their parameters. The socket and the daemon are parameters.
--   Toys            Concrete libraries that the witnesses of several parts share.
--
-- Conventions. A method takes the state and returns it, beside a `Result` where it may raise. What the
-- code draws from `secrets`, the clock and the outcome of a write are arguments, so a theorem holds
-- for each of them. A clock reading is a whole number of ticks, and a difference of two readings that
-- is compared with a span is written as a sum on the other side, since numbers stop at 0. The module
-- of each part states its laws in child modules named for what they prove, and its witnesses stand in
-- its module Examples.
--
-- The coroutines of the routine manager are cut where they wait, and each stretch between two waits is
-- one function. A step of the world is a call, a timer of the event loop, the end of a child or the
-- passing of time. `IsAllowed` says which steps can happen: time does not pass a timer that is due, so
-- that the loop runs its timers promptly; a monitor is cancelled once at most, since only the loop that
-- shuts down cancels one; and a launch draws an id that was not drawn before.
--
-- The model provider and the robot of a chat command are parameters: the provider answers what it is
-- sent, and the robot answers a request and changes a state of any type. A JSON number is a count of
-- the smallest step of a float, 2 ^ -1074, with its sign, so that every finite float is one.
--
-- Loops. `_make_room` of the conversations runs with as many rounds as there are conversations, which
-- is enough because each round that goes on deletes one. `run_command` runs over the rounds that its
-- source bounds. Every other loop is over a list, and a run of the event loop is a list of steps.
--
-- Not modelled: the SQL stores (queries to ArcadeDB, a service), the permissions and the group of a
-- file, logging, how the methods of the HAT client read their results, and the parts of the service
-- that are input and output (camera, audio, telemetry transport). A write to a temporary file that is
-- renamed is one step, since no part reads the temporary file. `str.isdigit` and, for addresses,
-- `str.lower` stand on Unicode tables, which are parameters. The call of a route that stops a routine is
-- not cancelled. The routes for accounts of the central server, for the fleet and for the routines, the
-- stores of the fleet, of telemetry and of autonomy, the wake service and the assembly of the
-- application are not modelled.
pub mod Base
pub mod RateLimit
pub mod TokenStore
pub mod UserStore
pub mod Auth
pub mod PluginAuth
pub mod PluginAuthRoutes
pub mod Toys
pub mod AiConversations
pub mod AiCommand
pub mod HatClient
pub mod Files
pub mod DeviceJwt
pub mod Pairing
pub mod DeviceAuthRoutes
pub mod RoutineLog
pub mod RoutineManager
