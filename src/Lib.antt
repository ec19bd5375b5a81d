-- ===== src/Lib.antt =====
-- Duel Protocol: prediction markets between two tokens on Solana, each side with a bonding curve.
-- This library models the TypeScript code around the program on the chain. Paths are from the
-- repository's root.
--
-- The parts and the files that model them:
-- - Curve: scripts/curve-sim.ts, the curve in exact integers. `price`, `reserve_integral` and
--   `tokens_out` are `price`, `reserveIntegral` and `tokensOut`. Curve/Bisect has the search loop,
--   `bisect`, that `tokensOut` and the SDK's `calculateTokensOut` share.
--   Curve/Simulate has the report that the script prints.
-- - Sdk/Math: the math helpers of sdk/src/client.ts and the constants of sdk/src/constants.ts, under
--   the source's names. Their numbers are those of the interface Sdk/Number, whose laws are what
--   rounding to the nearest double keeps; `whole` is its instance of exact whole numbers.
-- - Sdk/Solana and Sdk/Pda: sdk/src/pda.ts. Keys are lists of bytes. What the Solana libraries
--   compute, `findProgramAddressSync` among it, is the parameter `Solana`.
-- - Sdk/Client: the instruction builders of sdk/src/client.ts, `build_deposit` being
--   `buildDepositInstruction` and so on. `Chain` holds what the chain answers to the fetches.
--   Sdk/Client/Graduation also has the accounts that backend/src/cranker.ts lists for a resolution.
-- - Sdk/Indexer: the analytics of sdk/src/indexer.ts, `update_analytics` being `updateAnalytics`.
--   The state `DuelIndexer` holds the markets in insertion order, the global counters, the
--   callbacks and their calls.
-- - Cranker: backend/src/cranker.ts. `cranker_loop` is one call of `crankerLoop`, from the markets
--   listed to the transactions sent, those of `ensureAta` with them; `decide` is the choice made for
--   one market. Cranker/Gates has the guards of record_twap_sample.rs and resolve_and_graduate.rs in
--   programs/duel/src/instructions on the market, the clock, the sides and the vaults; the checks on
--   the accounts passed are left out there.
-- - Cranker/Daemon: the process of backend/src/cranker.ts, `main` and `shutdown` with the awaits of
--   `crankerLoop`. Every call of `crankerLoop` that is at work has its place in a list. What runs between
--   two awaits is a function, and Cranker/Daemon/Steps has the orders in which ticks, signals and
--   answers may come.
-- - App and App/Pda: the market phases, the countdown and the derivations of app/app/lib/program.ts.
-- - App/Estimate: `estimateTokensOut` and `estimateSolOut` of app/app/duels/[id]/page.tsx.
-- - App/Duel: the page of a market, app/app/duels/[id]/page.tsx. `handle_buy` and `handle_sell` give
--   the transaction sent, as the steps of App/Transaction; App/Duel/Fetch has `fetchData`, App/Duel/Offers the buttons, and
--   App/Duel/Gates the guards of buy_tokens.rs, sell_tokens.rs and sell_post_resolution.rs.
-- - App/CompareDuel: the page of a compare duel, app/app/compare/[id]/page.tsx, with the guards of
--   programs/duel/src/instructions/deposit.rs and withdraw.rs in App/CompareDuel/Gates,
--   and the payouts shown in App/CompareDuel/Payouts.
-- - App/Create: app/app/create/page.tsx and app/app/compare/create/page.tsx, with the guards on the
--   schedule in App/Create/Gates.
-- - App/Listing: the lists of app/app/duels/page.tsx and app/app/compare/page.tsx.
-- - App/Listing/Tabs: the tabs of the lists and the rows of Supabase. App/Tokens: the known tokens
--   of app/app/lib/program.ts. App/Format: the texts of amounts and durations.
-- - Rpc: what the three indexers use of a connection, and their loop over batches of twenty
--   signatures.
-- - Sdk/Indexer/Backfill: `parseEvents`, `mapEvent` and `backfill` of sdk/src/indexer.ts.
-- - Sdk/Indexer/Session: `start`, `stop` and `getSnapshot`, with the listeners of the connection.
-- - Backend/Db: the statements of backend/src/db.ts, as columns, placeholders and values.
-- - Backend/Ingest: `handleEvent`, `syncAllMarkets`, `backfillFromSlot` and `updateReserves` of
--   backend/src/indexer.ts. The store is the statements that the database has run and the last slot;
--   the database decides which statements it accepts. Backend/Ingest/Rows has the rows.
-- - Backend/Table: the column of the status that those statements leave in the table of markets, as an
--   interface to what PostgreSQL makes of an upsert.
-- - Backend/Live: the listener of backend/src/indexer.ts, whose calls of `handleEvent` interleave at
--   their awaits; Backend/Live/Steps has the runs, with the events heard.
-- - Backend/Start: `runMigrations` of backend/src/db.ts with the files of backend/migrations, and the
--   programs backend/src/index.ts, migrate.ts, indexer.ts and cranker.ts up to where they serve.
-- - Backend/Routes: the queries of backend/src/routes/markets.ts and trades.ts, as conditions,
--   placeholders and parameters.
-- - Scripts/TwapCranker: `crankerLoop` of scripts/cranker.ts, as the transactions sent;
--   Scripts/TwapCranker/Turns reads its markets as turns of the backend's cranker,
--   and Scripts/TwapCranker/Resolution has the accounts of its resolution.
-- - Scripts/SupabaseIndexer: scripts/indexer.ts. The store is what has been written, and a flag says
--   whether no event has thrown; its Rows and Synced have the rows.
-- - Backend/Health: the health check of backend/src/routes/health.ts.
--
-- Bounds and fuel. The search loops run on fuel two above the number of tokens for sale, one round
-- for each amount and one to find the range empty; the estimates of the app two above the number of
-- their steps of 100 tokens. The wait of the cranker's shutdown runs on 101 rounds, one for each of
-- the 100 sleeps of 100 milliseconds that fit into its ten seconds and one to end. The loops over
-- batches run on the length of their list. All other functions recur on their lists.
-- Natural numbers stand for `bigint`, and for the counts and times that the sources keep far below
-- 2^53. The guards in Rust cut to 32 and 64 bits as the source does.
--
-- Not modelled: what the pages of the app draw but for the payouts of a compare duel, the database
-- but for its table of markets and its columns, how subscriptions fail and reconnect, timers and
-- logs, removals of a listener that fail, and the program on the chain but for the guards named
-- above.
mod Prelude
pub mod Rpc
pub mod Curve
pub mod Sdk
pub mod Cranker
pub mod App
pub mod Backend
pub mod Scripts
