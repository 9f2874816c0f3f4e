-- ===== src/Lib.antt =====
-- A model of the core of the quiz backend: accounts and tokens, the handling of WebSocket messages,
-- matchmaking, private rooms, the WebSocket hub, scoring, answering and finishing a match,
-- leaderboards and question packs.
--
-- The parts. An account or a guest gets tokens, whose claims the middleware and the WebSocket read.
-- The handler routes the messages of a connection. A player meets another through the queue, or
-- opens a private room; the match service takes the questions of a pack, records the answers of each
-- player in Redis and finally scores them, saves the results and hands them to the leaderboards.
-- Messages go out through the hub.
--   Prelude: tests, lists by native length, maps as association lists, Go integers and strings,
--     results with early returns, and the lemmas on them.
--   Queue: internal/match/queue/manager.go, one function per method of Manager; Queue/Search says
--     what Enqueue picks, Queue/Settled follows histories of calls, Queue/Position has the rest.
--   Room: internal/match/room.go; Room/Rules has the invariant, Room/Invariant the histories,
--     Room/Joining the methods, Room/Code the room codes, Room/Race two creators at once.
--   Hub: pkg/http/ws/hub.go; a connection is an address, since hub and pumps share it. Hub/History
--     has the step relation, Hub/Members, Hub/Addresses and Hub/Connections its invariants, and
--     Hub/Delivery and Hub/Received what is sent to whom.
--   Scoring: internal/match/scoring/engine.go over an abstract float64 (Scoring/Float), which
--     Scoring/Bounds uses with the documented laws and Scoring/Streaks without any; Scoring/Whole has
--     integers in its place, for the tests.
--   Match: internal/match/types.go and state.go, whose lock is Match/Locks; Match/Answering is
--     SubmitAnswer and Match/Finalize FinalizeMatch of internal/match/service.go, with the properties
--     in their child modules; Match/Creating is CreateRandomMatch and CreatePrivateMatch, and
--     Match/Creating/Items follows a match from there to its end.
--   Leaderboard: internal/leaderboard/service.go and helpers.go, the keys and the pipelines of
--     commands; Leaderboard/Reading is what is read back, ranked and published;
--     Leaderboard/Http is http.go.
--   Question: internal/question/service.go; Question/Gather collects the questions, Question/Pack
--     checks them as FetchPack does.
--   Account: internal/auth. Account/Names has the rules, suggestions and guests' names of service.go,
--     Account/Tokens is jwt/token.go over an interface for golang-jwt, Account/Middleware is
--     middleware.go, Account/Store the interface of internal/db/repository/user_repo.go and of Redis,
--     and Account/Service the methods of service.go over it. Account/Tokens/Plain and
--     Account/Store/Single keep the laws of the two interfaces, for the tests.
--   Handler: internal/match/handler.go over the queue, the rooms, the hub and the match service, with
--     the messages in Handler/Types; Handler/History has the events of a server, Handler/Invariant
--     what each handler keeps, Handler/Effects what it does to the rooms, Handler/Refusals,
--     Handler/Starting and Handler/Stuck what becomes of a message, a match and a room,
--     Handler/Told what the players of a match are sent, and Handler/Http is http.go and
--     ws_handler.go of internal/match.
--
-- Correspondence. Functions carry the names of the source in snake case. A method under a mutex or
-- under the lock of a match is one step: it takes the state and returns its result with the new
-- state. BroadcastToMatch, which gives its mutex back before its loop, is one step too, for a run
-- that no other call of the hub interrupts. UUIDs are numbers, Go strings are byte lists, times and
-- durations are nanoseconds, `int` is an unbounded integer, since no value comes near 2^63. What
-- Redis, Postgres, the generator of questions, the clock and the random numbers reply are
-- arguments; what the match service asks of Redis and Postgres is the list of actions it returns,
-- while the accounts run on a state behind an interface. The WebSocket handler treats one message
-- at a time, and its JSON is read and written outside. The order in which `range` visits a map is
-- an argument too, and a permutation where that matters.
--
-- Loops are structural recursions. The one loop without a bound, the search for a free room code,
-- runs over the list of its draws: it has enough of them as soon as more different ones are drawn
-- than there are rooms.
--
-- Not modelled: the HTTP endpoints of the accounts, OAuth and mail, the keys of the match states,
-- caches, workers, the generated queries and the wiring; two messages that are handled at the same
-- time, but for the calls of CreateRoom. They are glue, generated, or left for a later version.
pub mod Prelude
pub mod Queue
pub mod Room
pub mod Hub
pub mod Scoring
pub mod Leaderboard
pub mod Match
pub mod Question
pub mod Account
pub mod Handler
