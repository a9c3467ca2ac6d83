-- ===== src/Lib.antt =====
-- The game backend: a server for a game of territory between two players on a board of ten by
-- ten cells. Clients hold a WebSocket; instances of the server share Redis. The code is under
-- app/.
--
-- Parts and files, each with the code it models:
--
-- Constants, Schemas: the states, Redis keys and server messages of app/utils/constants.py and
--   app/models/schemas.py.
-- Board, Game: one game and its rules, `ActiveGame` with `_apply_place_action`,
--   `_check_game_over` and `_determine_winner` of app/core/game_engine.py. Game/Claims and
--   Game/Placement are about a placement, Game/Moves about which are accepted, Game/Turns about
--   the end of a turn, Game/Endings about a whole turn.
-- Elo: `_calculate_elo_changes` of app/core/game_engine.py, over floats that are a parameter.
-- Env: what lies outside the repository, as one record: Redis commands over an abstract store,
--   the outcome of each send, the clock, orjson and the settings. Env/Laws has the documented
--   behaviour that theorems rest on.
-- Connections: the connection manager of app/core/ws_manager.py, three registries and a log of
--   what went over the sockets. Connections/View has the one map from players to seats that the
--   registries stand for, Connections/Refinement compares the two. Connections/Closing is about
--   `close_all`.
-- Sessions: the session manager of app/core/session_manager.py and `RedisSession` of
--   app/models/redis_models.py.
-- World: the state of an instance (connections, games, store, published messages, tasks that
--   wait), and the sends and snapshots that the engine's handlers share.
-- Play: `create_game`, `process_action`, `_broadcast_state_update`, `_handle_game_over` and
--   `_cleanup_game`. Presence: `handle_player_disconnect`, `_disconnect_timer`,
--   `handle_player_reconnect` and `restore_game_from_snapshot`. Presence/Reachable has the
--   events of an instance as a step relation, Presence/Recovery is about a snapshot that is
--   restored, Presence/Shutdown about `shutdown_dependencies` of app/dependencies.py.
-- Matchmaking: app/core/matchmaking.py with its Lua script. Matchmaking/Pairs is about the
--   script's search, Matchmaking/Pops about one run of it, Matchmaking/Rounds about a round of
--   the loop. Matchmaking/Passes has the inner loop, Matchmaking/Ends is about its end.
-- RateLimit: `check_rate_limit` of app/api/middleware.py. RateLimit/Requests has the middleware
--   that calls it for each request.
-- PubSub: the handler registries and the dispatch of app/core/redis_pubsub.py, and the two
--   handlers of app/dependencies.py.
-- Gateway: the WebSocket endpoint of app/api/ws_routes.py, which calls all of the parts above.
--   Gateway/Messages is about the message loop, Gateway/Visits about how a connection begins and
--   ends; Gateway/Server has the events of a server as a step relation. Gateway/Entry has the
--   check of the token that comes first. Gateway/Health has `health_check` of
--   app/api/rest_routes.py, which reports on the same state.
-- Auth: the tokens of app/utils/auth.py, over a JWT library that is a parameter.
-- Database: the tables of app/models/database.py with the limits and keys of their columns, and
--   the session of app/persistence/database.py, with a commit and a rollback. Players and
--   Matches: the two repositories of app/persistence/repositories.py, and `_persist_result` of
--   app/core/game_engine.py, the task that a finished game leaves.
-- Accounts: registration, login, profiles and the leaderboard of app/api/rest_routes.py, over
--   password hashes, tokens and floats that are parameters. Accounts/Reachable has the calls
--   that change the tables as a step relation.
-- Examples: a concrete outside world, and a run of each theorem.
--
-- A handler takes the state and returns it with its result or its exception. It runs from one
-- end to the other: an `await` gives up control in the code, which the model does not follow,
-- but what the code does after a sleep (the end of a grace period, the clean-up of a finished
-- game) is a task of its own and an event of its own. The n-th question to the outside, such as
-- the clock or a send, is answered by the n-th answer, so that a theorem over every outside
-- world covers every outcome of every send.
--
-- Numbers: identifiers, counters and coordinates are unbounded in Python and in the model. Times
-- are counted in ticks, a million to the second in the script of matchmaking, which scales its
-- tolerances by as much. Integers of the database keep the 32 bits of their columns, and a
-- page's offset the 64 bits of its parameter: a number that does not fit is an error there.
-- Every loop is over a list, but for the inner loop of matchmaking, which runs on fuel: more
-- than half the length of the queue is enough, since each round that finds a pair takes two
-- players out of it.
--
-- The database's statements are written as functions on the tables, with the constraints that
-- the models declare; a session's transaction sees its own writes and runs alone. The order of
-- rows that a query orders alike is that of the table.
--
-- Not modelled: a Redis command or a database connection that fails, transactions of several
-- instances at once, the expiry of keys, the texts for humans in messages, the background loops'
-- sleeps, start and stop, the creation and closing of the engines, subscriptions to channels,
-- logging, configuration and the start of the application.
pub mod Base
pub mod Constants
pub mod Board
pub mod Schemas
pub mod Game
pub mod Elo
pub mod Env
pub mod Connections
pub mod Sessions
pub mod RateLimit
pub mod World
pub mod Play
pub mod Presence
pub mod Matchmaking
pub mod PubSub
pub mod Auth
pub mod Gateway
pub mod Database
pub mod Players
pub mod Matches
pub mod Accounts
pub mod Examples
