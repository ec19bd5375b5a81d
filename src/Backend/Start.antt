-- ===== src/Backend/Start.antt =====
-- The start of the backend's services: `runMigrations` of backend/src/db.ts with the files of
-- backend/migrations, and the programs backend/src/index.ts, migrate.ts, indexer.ts and cranker.ts up
-- to where they serve. What PostgreSQL makes of a statement is an interface.
pub mod Laws
mod Tests
use Prim.Native.String.{compare}
use Prim.Native.Nat.{Ordering}
use text.Mathlib.Text.{◌==◌ as str_eq}
use duel_protocol.Prelude.{
  ℕ, ◌≡◌, String, Bool, true, false, Option, none, some, List, [], ◌∷◌, ◌++◌, ◌&&◌, ◌||◌,
  if◌then◌else◌, not,
}

-- The statements of the migrations, by the table that they are about.
pub data Ddl : Type 0 where
  create_table : (table : String) (columns : List String) → Ddl
  create_index : (table column : String) → Ddl
  drop_column : (table column : String) → Ddl
  add_column : (table column : String) → Ddl
  rename_column : (table from to : String) → Ddl
  drop_table : (table : String) → Ddl
  seed : (table : String) → Ddl

abbrev pub make_markets : List Ddl
make_markets =
    create_table "markets" (
      "pubkey" ∷ "authority" ∷ "market_id" ∷ "deadline" ∷ "battle_tax_bps" ∷ "protocol_fee_bps"
      ∷ "creator_fee_bps" ∷ "sell_penalty_max_bps" ∷ "twap_window" ∷ "twap_interval" ∷ "status"
      ∷ "winner" ∷ "final_twap_a" ∷ "final_twap_b" ∷ "battle_tax_collected"
      ∷ "protocol_fee_collected" ∷ "side_a_pubkey" ∷ "side_b_pubkey" ∷ "token_mint_a"
      ∷ "token_mint_b" ∷ "reserve_a" ∷ "reserve_b" ∷ "circulating_a" ∷ "circulating_b"
      ∷ "quote_mint" ∷ "graduated_side" ∷ "dex_pool" ∷ "resolution_mode" ∷ "created_at"
      ∷ "updated_at" ∷ [])
    ∷ create_index "markets" "status"
    ∷ create_index "markets" "deadline"
    ∷ create_index "markets" "authority"
    ∷ []

abbrev pub trades_columns : List String
trades_columns =
    "id" ∷ "market_pubkey" ∷ "side" ∷ "trader" ∷ "trade_type" ∷ "sol_amount" ∷ "token_amount"
    ∷ "price_after" ∷ "penalty_applied" ∷ "slot" ∷ "created_at" ∷ []

abbrev pub make_others : List Ddl
make_others =
    create_index "trades" "market_pubkey"
    ∷ create_index "trades" "trader"
    ∷ create_index "trades" "slot"
    ∷ create_table "twap_samples" (
        "id" ∷ "market_pubkey" ∷ "price_a" ∷ "price_b" ∷ "sample_count" ∷ "slot" ∷ "created_at"
        ∷ [])
    ∷ create_index "twap_samples" "market_pubkey"
    ∷ create_table "graduations" (
        "id" ∷ "market_pubkey" ∷ "side" ∷ "dex_pool" ∷ "sol_seeded" ∷ "tokens_seeded" ∷ "slot"
        ∷ "created_at" ∷ [])
    ∷ create_index "graduations" "market_pubkey"
    ∷ create_table "indexer_state" ("key" ∷ "value" ∷ "updated_at" ∷ [])
    ∷ seed "indexer_state"
    ∷ []

-- backend/migrations/001_initial.sql
abbrev pub migration_001 : List Ddl
migration_001 = make_markets ++ create_table "trades" trades_columns ∷ make_others

abbrev pub change_markets : List Ddl
change_markets =
    drop_column "markets" "battle_tax_bps"
    ∷ drop_column "markets" "sell_penalty_max_bps"
    ∷ drop_column "markets" "protocol_fee_bps"
    ∷ drop_column "markets" "creator_fee_bps"
    ∷ drop_column "markets" "battle_tax_collected"
    ∷ drop_column "markets" "protocol_fee_collected"
    ∷ drop_column "markets" "graduated_side"
    ∷ drop_column "markets" "resolution_mode"
    ∷ add_column "markets" "sol_seeded"
    ∷ add_column "markets" "tokens_seeded"
    ∷ add_column "markets" "loser_reserve_transferred"
    ∷ []

-- backend/migrations/002_refactor.sql
abbrev pub migration_002 : List Ddl
migration_002 =
    change_markets
    ++ rename_column "trades" "penalty_applied" "fee_amount" ∷ drop_table "graduations" ∷ []

-- A file of the folder and its statements, which stand between `BEGIN` and `COMMIT`.
abbrev pub File : Type 0
File = String × List Ddl

abbrev pub migrations : List File
migrations = ("002_refactor.sql", migration_002) ∷ ("001_initial.sql", migration_001) ∷ []

-- `files.sort()`
abbrev pub not_after : String → String → Bool
not_after a b = elim (compare a b) [ Ordering.gt ↦ false | _ ↦ true ]

unfoldable pub insert : File → List File → List File
insert f [] = f ∷ []
insert f (g ∷ gs) = let rest = insert f gs in if not_after f.0 g.0 then f ∷ g ∷ gs else g ∷ rest

unfoldable pub sort : List File → List File
unfolding insert
sort [] = []
sort (f ∷ fs) = insert f (sort fs)

-- `file.endsWith(suffix)`
unfoldable pub ends_with : String → String → Bool
ends_with suffix String.[] = str_eq String.[] suffix
ends_with suffix (String.◌∷◌ c s) = str_eq (String.◌∷◌ c s) suffix || ends_with suffix s

-- A database: what a statement makes of it, `none` for an error, its tables, and their columns.
pub record Schemas : Type 1 where
  pub Schema : Type 0
  pub run : Ddl → Schema → Option Schema
  pub has_table : Schema → String → Bool
  pub has_column : Schema → String → String → Bool

module _ (sql : Schemas) where
  -- The statements of a file, in one transaction.
  unfoldable pub run_all : List Ddl → sql.Schema → Option sql.Schema
  run_all [] s = some s
  run_all (q ∷ qs) s = elim (sql.run q s) as (λ o. Option sql.Schema) [
    | none ↦ none
    | some s' ↦ run_all qs s'
  ]

  -- The files in order; an error leaves the schema as it was before its file and is thrown.
  unfoldable pub run_files : List File → sql.Schema → sql.Schema × Bool
  run_files [] s = (s, true)
  run_files ((name, qs) ∷ fs) s =
      let rest = run_files fs s in
      if ends_with ".sql" name
      then elim (run_all qs s) as (λ o. sql.Schema × Bool) [
        | none ↦ (s, false)
        | some s' ↦ run_files fs s'
      ]
      else rest

  unfoldable pub run_migrations : List File → sql.Schema → sql.Schema × Bool
  run_migrations files s = run_files (sort files) s

-- The programs, and what each does after the migrations.
pub data Program : Type 0 where
  api migrate indexer cranker : Program

pub data Action : Type 0 where
  serve close_pool sync_all_markets backfill_from_slot start_event_listener : Action
  update_heartbeat check_balance first_tick handle_signals : Action
  heartbeat_timer reserves_timer balance_timer poll_timer : Action

unfoldable pub after_migrations : Program → List Action
after_migrations api = serve ∷ handle_signals ∷ []
after_migrations migrate = close_pool ∷ []
after_migrations indexer =
    sync_all_markets ∷ backfill_from_slot ∷ start_event_listener ∷ reserves_timer ∷ heartbeat_timer
    ∷ update_heartbeat ∷ handle_signals ∷ []
after_migrations cranker =
    check_balance ∷ heartbeat_timer ∷ update_heartbeat ∷ balance_timer ∷ first_tick ∷ poll_timer
    ∷ handle_signals ∷ []

-- The schema after the start, what the program does, and whether it ends by `process.exit(1)`.
pub record Start (A : Type 0) : Type 0 where
  pub schema : A
  pub actions : List Action
  pub exits : Bool

unfoldable pub main : (sql : Schemas) → Program → List File → sql.Schema → Start sql.Schema
unfolding after_migrations
main sql p files s =
    let ran = run_migrations sql files s in
    record { schema = ran.0; actions = if ran.1 then after_migrations p else []; exits = not ran.1 }
