-- ===== src/Lib.antt =====
-- Deucepoint (tennis-wiki): the core logic of the Go services, over internal/.
--
-- `cmd/ingest` reads files of matches into PostgreSQL, `cmd/rate` replays the stored matches through
-- an Elo engine and writes a row of ratings for each week, `cmd/validate` replays them again and says
-- how good the predictions were, and `cmd/api` answers requests from the database and simulates
-- matches and draws. The parts that compute are the packages modelled here; they meet in the database,
-- or, as the engine and the validation do, through a callback.
--
-- Score: internal/score. A score line is normalised (Score/Normalise: `normalise`), cut at white
-- space and each token scanned (Score/Scanner: `parseToken` and the methods of `scanner`), and the
-- tokens are put together (Score/Parse: `Parse`). Score/Model and Score/Totals are the types and the
-- counts of score.go, Score/Print the `String` methods.
-- Rating: internal/rating. Rating/Elo has the formulas of elo.go, kfactor.go, blend.go and tier.go,
-- Rating/Week `WeekOf`, Rating/Keys the order that `flush` sorts by, Rating/Engine the engine itself:
-- `Add`, `rate`, `predict`, `flush`, `Close`, and the replay that calls them. Rating/Store is
-- `Matches` and the batches of `writer` of store.go, and the function in which `Run` joins the store
-- and the engine.
-- Simulate: internal/simulate. Simulate/Draw is `BuildBracket`, Simulate/Play `playOnce` and the
-- shares of `RunDraw`, Simulate/Anchor the widening lookup `Anchor`, Simulate/Match the chain of
-- match.go from a point to a match, with `Invert`; Simulate/Match/Race describes the races that its
-- tables compute.
-- Name: internal/name, `Slug` and `Normalise`.
-- Identity: internal/identity/identity.go. Identity/Key is `Key`, Identity the scores,
-- Identity/Group the treatment of one group of rows, Identity/Reconcile `Reconcile`.
-- Ingest: internal/ingest/pipeline.go and ledger.go. Ingest/Reading is `readFile`, Ingest/Writing the
-- single writer of `Run`, Ingest/Merge the orders in which the chunks that several readers send may
-- arrive, and Ingest/Sources the choice of the files, `plan` with the registry's `For` of source.go.
-- Events: internal/events, what an event is across seasons. Events/Names has the keys and what names
-- and ids are compared on, Events/Overrides overrides.go, Events/Ordinals `ordinalsWithinSeason`,
-- Events/Filing the two loops of `Resolve` over the rows, Events/Resolve the rest of it.
-- Validate: internal/validate/validate.go. Validate/Accumulator is `observe` and what it calls,
-- Validate/Report the tables of the report.
-- Charting: internal/charting/resolve.go. Charting/People is the comparison of names, Charting/Resolve
-- the index and `Resolve`.
--
-- Base has what they share: lists over native numbers, maps as lists of entries (Base/Dict), sorting
-- by a test (Base/Sort), texts as lists of bytes with the functions of Go's `strings` that are
-- called, Go's `int` as a pattern of 64 bits (Base/Int), and `float64` as a record of operations of
-- which no law is assumed (Base/Float), so that a theorem about floats holds of the expressions that
-- the program computes.
--
-- Go's maps are association lists. Where the program ranges over a map, the order visited is a
-- parameter, and that it is a permutation is a hypothesis. A pointer held in a map is changed through
-- the map. A callback is a list of what it was given. The classes of runes above ASCII, from Go's
-- `unicode`, are the record `Unicode`. The sink of the rating rows is a predicate that says which row
-- it refuses; the store of the ingest is a function that answers for each batch. Goroutines appear as
-- every interleaving of what they send, in runs that are not cancelled.
--
-- Bounds: the loop of `scanSets` has the length of the token and one more as its fuel, and each
-- round uses three bytes at least. `Itoa` has twenty digits as its fuel, which 64 bits do not
-- exceed. `Invert` makes the sixty rounds that the program makes, and the tables of match.go are
-- filled along their thirteen diagonals. The other loops are structural.
--
-- Not modelled: the SQL of the stores and what is generated from it, the reading of files, HTTP and its
-- middleware, Redis, the text of reports, and the frontend. Score lines are ASCII texts. Times are
-- days, and hours in Charting; the thresholds of Validate are not negative. The locks and goroutines
-- of `RunDraw` appear as the shares of the runs, and the generator of random numbers as the outcome of
-- each comparison.
pub mod Base
pub mod Score
pub mod Name
pub mod Events
pub mod Identity
pub mod Validate
pub mod Charting
pub mod Simulate
pub mod Rating
pub mod Ingest
