-- ===== src/Lib.antt =====
-- The messenger backend: accounts with rotating tokens, friendships, groups, messages, and delivery
-- to WebSockets over several workers.
--
-- Parts. A request comes in through src/api (Api), which authenticates its bearer token against the
-- worker's cache and the tables and calls a service of src/services (Services). A service runs
-- queries of src/database (Database) in transactions, publishes events of src/redis (Redis), and
-- spawns tasks that push to the WebSocket manager of every worker.
--   Base       Boolean tests, tables as lists of rows, sets and dictionaries of identifiers.
--   External   what the program relies on: PostgreSQL's order of rows and its choice of a reported
--              constraint, the hash functions, cachetools. It is an argument of all definitions.
--   Database   src/database: Models and Records of models.py, Enums, Errors, Connection, the tables
--              (Tables), the statements of sql.py with constraints and cascades (Sql, Fetch), the
--              set-up of tables and indexes (Schema), queries.py (Queries), and the schema's
--              integrity (Integrity).
--   Redis      src/redis: Events of events.py, Presence of queries.py, Stream of stream.py as a step
--              relation between publishers, Redis and one listener, PubSub of pubsub.py likewise,
--              Connection of connection.py and errors.py.
--   Effects    state passing with exceptions: the tables, the worker's token cache, the stream, the
--              spawned tasks; connection and transaction of src/database/connection.py as the
--              services meet them, while Database.Connection has their pool and all their errors.
--   Services   src/services: Errors and Translation of errors.py, Request, Cache and Auth of auth.py,
--              User, Group, Messaging, WebSocket; Consistency carries the schema through them. In
--              Auth.Race calls of refresh with one token run concurrently, statement by statement
--              at READ COMMITTED, under the row lock that the query takes; WebSocket.Views is a
--              quotient of the registries.
--   Config     src/config: Settings of settings.py, whose files are an argument, and Logging of
--              logging.py.
--   Utils      src/utils: Tasks of tasks.py as a step relation between calls, tasks and callbacks.
--   Api        src/api and the exception handlers of src/main.py: Schemas, Dependencies, Routers
--              with a handler for each route, Routes that authenticates, validates and calls them;
--              Tokens and Lockout are about authentication over time, Protected about requests
--              without a token, Integrity and Creators about sequences of requests; Lifespan is
--              the start and the end of a worker, where what the listeners end with is an
--              argument, Middleware the one that correlates requests with log records, Wiring the
--              objects that requests are served with.
--   Tests      a concrete External and small tables, with one witness for each theorem.
--
-- Bounds. Loops run over lists, or over the ten attempts of a connection. The only fuel is that of the
-- cascade of TRUNCATE, two, which is the longest chain of references of the schema.
-- The endless loops of the listeners are step relations. Identifiers and instants are natural
-- numbers, and so are the numbers of the settings; no arithmetic of the program wraps around.
--
-- Not modelled: the waits between attempts, the texts of errors and log messages, the DSN, CORS, the
-- matching of paths, and the concurrency of transactions other than those of refresh: each runs alone
-- otherwise. In Auth.Race the waits for rows that other transactions write are left out, and a
-- statement or a commit may fail at any time. Whether a listener that is cancelled ever ends is left
-- to the argument that says what the gather ends with. The coroutines of the WebSocket manager are
-- interleaved where they await.
pub mod Base
pub mod External
pub mod Effects
pub mod Database
pub mod Redis
pub mod Services
pub mod Config
pub mod Utils
pub mod Api
pub mod Tests
