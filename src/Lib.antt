-- ===== src/Lib.antt =====
-- Verification of koinos-token-tracker, a service that indexes the token balances and transfers of
-- the Koinos chain.
--
-- The program's parts and where they are modelled:
-- - internal/config/config.go (TokenTrackerConfig, Load, SetExtraTokens): Config and its children.
-- - internal/indexer/indexer.go (ProcessBlock, processEvent and the three payload parsers): Indexer.
--   Nil pointers are `none`. The Go map of addresses is a list of its keys, each once, in the order of
--   insertion. Appending to a slice through a pointer is the return of a longer list.
-- - internal/store (SQLiteStore): Store. A table is the list of its rows, and Store.Writes and
--   Store.Reads give each SQL text its meaning on the lists. Store.Types.Store holds the committed
--   tables, the open transaction's copy of them, the mutex, and a schedule that says of each call of
--   the driver whether it fails; a theorem that does not restrict the schedule holds for every pattern
--   of database errors. A method is an Action: it returns, fails, or waits for the mutex for ever.
-- - internal/sync/sync.go (ProcessAndStore, SyncToHead): Sync. The answers of the chain and of the
--   block store, and the cancellation of the context, are functions of the round of the loop.
-- - internal/backfill/backfill.go (the client of koinos-rest, the decoders, opsOf, Collect, apply, Run,
--   DryRun): Backfill, with a module for each of them. The answers of the nodes and the cancellation of
--   the context are functions of a time that every look at them moves on. A body is read whole or not
--   at all.
-- - internal/reconcile (CheckToken, BalanceOf, decimalToSatoshis, fetchBalance, Run): Reconcile. The
--   feeder, the workers and the writer of Run are the step relation Reconcile.Run.Step on their shared
--   state, with the channels' capacities; a derivation Reach is one interleaving of them. What the
--   service answers to each attempt for each address is a parameter. A flush of the writer is one step.
-- - cmd/koinos-token-tracker/main.go (registerTrackedTokens, loadExtraTokens, repairBackfilledTxIDs,
--   runBackfills, verifyBackfill, and main from the open database to the historical sync): Startup.
--   What the nodes answer in the round of each record is a function of the try and of the round; the
--   loop around runBackfills runs on fuel, one for each try.
-- - internal/api (the parameter checks, the handlers, the routes and the CORS middleware): Api. A handler
--   takes a request and the store; its answer is a status and the values of its JSON body. Api.Routes
--   matches the path like http.ServeMux does a clean one; the documents and pages are constants.
-- - strconv, math/big and encoding/hex, as far as the source uses them, are written out in Decimal and
--   Sync.Process; SQL's ORDER BY, LIMIT and ON CONFLICT in Base.Sort and Base.Table.
-- Sync calls Indexer on each block and writes its result through Store inside one batch; Backfill
-- writes a page of a token's older history through the same Store, with the same clamp.
--
-- Parameters: base58 and protowire are the record Wire.Wire, with the documented behaviour that a
-- proof uses in Wire.IsWire and Wire.Encoder; encoding/json, encoding/base64 and bytes.TrimSpace are
-- Backfill.Decode.Codecs and, with net/http and the context, Backfill.Client.Net and
-- Reconcile.Check.Rpc; what the service answers to the reconciliation is an argument of
-- Reconcile.Run.Step; os.ReadFile and yaml.Unmarshal are arguments of Config.load. Tests.Toy has a
-- small wire format on which the laws hold.
--
-- Loops: a payload parser runs on as much fuel as the payload has bytes, since a round takes a byte;
-- the catch-up loop runs on fuel that the caller gives, and one round for each 1000 heights up to the
-- highest target is enough; Backfill.Run.run and Backfill.DryRun.dry_run run on fuel that the caller
-- gives, and under a context that is over at some time one round more than that time is enough;
-- getJSONFrom and fetchBalanceWithRetry run on their number of attempts; Run of the reconciliation is a
-- relation. Every other loop is a recursion on a list.
--
-- Integers: heights, times and values are natural numbers; where the source wraps (the loop's counter
-- of heights, int64 of a uint64 and its negation) the wrap is written out. A uint64 of
-- 2^63 or more is stored like any other, while database/sql refuses it as an argument. Error
-- texts keep their fixed words and not the values that they print. Where an ORDER BY leaves ties, the
-- rows keep the order in which they were inserted, as SQLite answers them in practice.
--
-- Not modelled: logging, sleeping, metrics and the progress report; opening and migrating the database
-- file (Store.Types has the tables of the current schema), so that the fallbacks for an older schema
-- do not come up; the transport of HTTP and AMQP, with the start and the shutdown of the server; the
-- flags, the API-only mode, the verdict of the dry run and the live loop of main.
pub mod Base
pub mod Decimal
pub mod Config
pub mod Wire
pub mod Indexer
pub mod Store
pub mod Sync
pub mod Backfill
pub mod Reconcile
pub mod Startup
pub mod Api
pub mod Tests
