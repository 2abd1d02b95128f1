-- ===== src/Lib.antt =====
-- The backend of Crew Link: the realtime service of a convoy of vehicles, and the services over its
-- database.
--
-- A convoy's members hold a WebSocket each to an instance of the backend. A frame that a member sends
-- (a position, a hazard, the leader's route, a status) is parsed, checked against a schema and for who
-- may send it, sent on to the convoy's other members, and folded into stores from which a late joiner
-- is told the state of the convoy.
--
-- Which file models what (source paths from the repository's root):
--   Wire, Wire/Schema      backend/src/realtime/wire.ts: payload types, the schemas' bounds as tests,
--                          originatorOf. `Number` holds JavaScript numbers: the infinities, and the
--                          finite doubles as multiples of 2^-1074; NaN is not a JSON value.
--   JsMap                  the JavaScript Map with string keys, in insertion order.
--   Text                   white space, trim and slice of JavaScript's texts.
--   Promise                the outcome of an awaited call: a value, or a rejection.
--   Snapshot               backend/src/realtime/snapshot_store.ts, the interface SnapshotStore as a
--                          record of operations and laws over an abstract view of a convoy's state.
--     Memory               createInMemorySnapshotStore: stateFor, record, snapshot, clear,
--                          hazardReporter. Children: View, Replay, Store.
--     Redis                backend/src/realtime/redis_snapshot_store.ts over the hashes of a Redis.
--                          Children: View, Loop, Replay, Life, Store, Race.
--     Served, Agree        the two stores under the same requests and waits.
--   Redis                  hashes, commands and the laws of a Redis, as far as the backend needs them.
--   Fanout                 backend/src/realtime/fanout.ts, the interface FanoutAdapter.
--     Pool                 the Set of connections of one convoy, and the loop of publish.
--     InProcess            InProcessFanout. Child: Laws.
--     Redis                backend/src/realtime/redis_fanout.ts: RedisFanout, one of several instances.
--                          Children: Subscribed, Once, Adapter.
--   Positions              backend/src/realtime/position_store.ts, the interface PositionStore.
--   Heartbeat              backend/src/realtime/heartbeat.ts: startHeartbeat as a machine over the
--                          events pong, timer and stop.
--   FrameHandler           backend/src/realtime/frame_handler.ts: bufferToString and handleFrame. The
--                          checks are a chain with early returns (`authorise`), the effects follow
--                          (`commit`). Children: Authorised, Commit, Protect, Takeover, Conform.
--     Task                 a call of handleFrame as a task: where it stands (`Pc`), and the turn that
--                          takes it on to its next await. Children: Alone, Settled, Answers,
--                          Commits, Single (one task); System, Runs, Keeps, Safety, Conform, Races, Overtaken
--                          (many).
--   Gateway                backend/src/realtime/convoy_gateway.ts: upgrade, message, replay and close
--                          of the sockets as events. Children: Registered, Invariant, Delivered.
--   Positions/Database     createDbPositionStore over the tables. Shown compares save and replay.
--   Db                     backend/src/db/schema/: the tables as lists of rows. Rows and Joins hold the
--                          statements of SQL that the services use, Query the monad of a service
--                          (tables, and errors), Sql the checks and cascades of insert and delete.
--     Migrate              backend/src/db/migrate.ts and backend/src/db/client.ts.
--   Convoys                backend/src/services/convoys.ts. Children: Loaded, Members, Twice, Seats,
--                          Joined, Answered, Created, Guarded, Owner.
--   Auth                   backend/src/services/auth.ts. Children: Bearer, Resolvers, Upsert, Left.
--   Users                  backend/src/services/users.ts. Child: Erased.
--   InviteCode             backend/src/util/invite_code.ts.
--   LivekitTokens          backend/src/services/livekit_tokens.ts.
--   Routes                 backend/src/routes/: the handlers; those of convoys.ts here. Children: Patch,
--                          Shown, Vehicles and Ranges (vehicles.ts), Users, Ptt.
--   Config                 backend/src/config/env.ts.
--   Server                 backend/src/server.ts, buildApp, and the defaults of convoy_gateway.ts.
--                          Children: Verifier, Members, Sockets, Requests (allowed origins, the error
--                          handler, backend/src/routes/health.ts), Main (backend/src/index.ts).
--   Vehicles               backend/src/services/vehicles.ts. Children: RoundTrip, Single, and Overlap, in
--                          which two transactions of one user overlap.
--   FixPostgis             backend/scripts/fix-postgis-migration.ts: the pattern's matches in a text, and
--                          the replacement from left to right. Children: Fuel, Unquoted, and Files, the
--                          loop over the directory.
--   Base                   shared names, Boolean tests, lists, integers.
--   Tests                  a concrete convoy, and each theorem at it.
--
-- What is a parameter. `Services` (FrameHandler) takes what is not in this repository or is a
-- platform's: JSON text, UTF-8, Date.parse, and the schema library's parser, of which the theorems that
-- need it assume that it accepts only values within the schema (IsSoundParse). The stores and the
-- fan-out are taken through their interfaces, and the store can keep every frame that the parser lets
-- through. What resolvers answer is part of the state that an event finds, and an event can change it.
-- `Platform` (Server) takes what buildApp reaches outside the repository.
--
-- Asynchrony. FrameHandler.handle_frame and the Gateway run a call of the handler to its end before
-- the next event. FrameHandler/Task takes the call apart at its awaits: a query is answered in the
-- world of one moment, and the call goes on in the world of a later one; FrameHandler/Task/System
-- lets the calls of an instance take turns in any order, and anything else change the world in
-- between. A turn itself is not interrupted. `void fanout.publish(...)` and a rejected query leave
-- a rejection that nothing handles; the field `unhandled` of an outcome says so. A store write that
-- is not awaited is done at once, and its rejection is logged. A replay is read and sent at one
-- moment. Sets of connections are identified by numbers, which are given out in order.
--
-- Database. A service runs alone, but for the two overlapping transactions of Vehicles/Overlap, and
-- no statement fails but by the rules of the schema: other sessions and lost connections are not
-- modelled. Ids that Postgres draws, invite codes and times are arguments, and an id is the text of
-- a UUID as Postgres prints it. A convoy's id from the path of a request is any text, and the query
-- fails where it is no UUID: `with_uuid` (Db/Query) takes Postgres's cast as a parameter where a handler
-- of Routes makes its first query with the id. The id in a gateway's URL is taken as the text of a UUID,
-- and what the gateway does with another text is not modelled. `limit(1)` takes the first row. A statement leaves rows in their order and an insert adds
-- its row at the end, which SQL does not promise: equations of whole tables, and the order of a
-- vehicle's modifications, are up to that order.
--
-- Redis. A published message reaches an instance exactly if it is subscribed; for the fan-out, failures
-- of Redis and the order of messages of several instances are not modelled. The snapshot store has a
-- Redis whose commands may be rejected, carried out or not; Race alone looks at what another instance
-- writes in between. EXPIRE sets a key's time to live, and time that passes takes away the keys whose
-- time is over (`ttl` and `elapse` of the module Redis; Snapshot/Redis/Life follows a convoy's key). No
-- time passes within an operation, and none in the runs of the gateway and of FrameHandler/Task. The texts
-- of payloads are parameters, and a frame counts as kept where its payload is read back from its text.
--
-- Not modelled: the plugins of the server's framework, its logger, and that it runs the hooks of a
-- closing server; the command lines of the scripts; the mobile apps. Loops are structural
-- recursion. Fuel has the replacement of FixPostgis, the length of the text, which is enough since
-- every step goes past a unit of it, and `alone` of FrameHandler/Task, which counts turns: a call has
-- three at most, the first, the answer to a query, and what follows it.
pub mod Base
pub mod JsMap
pub mod Number
pub mod Wire
pub mod Promise
pub mod Snapshot
pub mod Fanout
pub mod Positions
pub mod FrameHandler
pub mod Heartbeat
pub mod Gateway
pub mod Tests
pub mod Db
pub mod Users
pub mod Vehicles
pub mod Convoys
pub mod Auth
pub mod Routes
pub mod Redis
pub mod Config
pub mod InviteCode
pub mod FixPostgis
pub mod Text
pub mod Server
pub mod LivekitTokens
