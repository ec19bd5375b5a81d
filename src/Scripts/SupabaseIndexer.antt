-- ===== src/Scripts/SupabaseIndexer.antt =====
-- The first indexer, scripts/indexer.ts, which writes to Supabase. An event's data are the fields
-- that the decoder gives, which need not be those that the script reads. The database, the decoder
-- of logs and the program's accounts are inputs.
pub mod Rows
pub mod Synced
pub mod Laws
mod Tests
use package.text.Mathlib.Text.{◌==◌ as str_eq}
use duel_protocol.Prelude.{
  ℕ, ◌+◌, String, Bool, true, false, Option, none, some, List, [], ◌∷◌, ◌++◌, map, length,
  if◌then◌else◌,
}
use duel_protocol.Sdk.Solana.{◌>>=◌}
use duel_protocol.Rpc.{Signature, Transaction, Connection, usable_logs, each_batch}
use duel_protocol.Backend.Db.{Row}
use Synced.{Market, synced_row, Reserves, reserves_row}
use Rows.{
  Fields, created_row, bought_row, sold_row, sampled_row, resolved_row, graduation_row,
  graduated_row, key_of,
}

-- `upsert` with `onConflict: "pubkey"`, or `insert` into a table.
pub data Write : Type 0 where
  upsert_market : Row → Write
  insert_trade insert_twap_sample insert_graduation : Row → Write

-- `error` is only logged: the writes that the database accepts are kept, oldest first.
abbrev pub Database : Type 0
Database = List Write → Write → Bool

abbrev pub Store : Type 0
Store = List Write

-- The name that the decoder gives, with the data.
pub record Event : Type 0 where
  pub name : String
  pub fields : Fields

module _ (db : Database) where
  unfoldable pub write : Write → Store → Store
  write w s = if db s w then s ++ w ∷ [] else s

  module _ (fetch : String → Option Market) (now_ms : ℕ) where
    -- `syncSingleMarket` catches every error.
    unfoldable pub sync_single_market : String → Store → Store
    unfolding write
    sync_single_market market s = elim (fetch market) as (λ o. Store) [
      | none ↦ s
      | some found ↦ write (upsert_market (synced_row now_ms market found)) s
    ]

    -- A row that throws ends the handler.
    unfoldable pub write_row : (Row → Write) → Option Row → Store → Store × Bool
    unfolding write
    write_row make none s = (s, false)
    write_row make (some row) s = (write (make row) s, true)

    -- `MarketCreated`
    unfoldable pub on_created : Fields → Store → Store × Bool
    unfolding write_row sync_single_market
    on_created data' s =
        let upserted = write_row upsert_market (created_row data') s in
        elim (key_of "market" data') as (λ o. Store × Bool) [
          | none ↦ upserted
          | some market ↦
              if upserted.1 then (sync_single_market market upserted.0, true) else upserted
        ]

    -- `TokensGraduated`
    unfoldable pub on_graduated : Fields → ℕ → Store → Store × Bool
    unfolding write_row
    on_graduated data' slot s =
        let inserted = write_row insert_graduation (graduation_row data' slot) s in
        if inserted.1 then write_row upsert_market (graduated_row data') inserted.0 else inserted

    -- The store after an event, and whether the handler returned.
    unfoldable pub handle_event : Event → ℕ → Store → Store × Bool
    unfolding on_created on_graduated
    handle_event e slot s =
        if str_eq e.name "MarketCreated"
        then on_created e.fields s
        else if str_eq e.name "TokensBought"
        then write_row insert_trade (bought_row e.fields slot) s
        else if str_eq e.name "TokensSold"
        then write_row insert_trade (sold_row e.fields slot) s
        else if str_eq e.name "TwapSampled"
        then write_row insert_twap_sample (sampled_row e.fields slot) s
        else if str_eq e.name "MarketResolved"
        then write_row upsert_market (resolved_row e.fields) s
        else if str_eq e.name "TokensGraduated"
        then on_graduated e.fields slot s
        else (s, true)

    -- The loop over the events of a transaction; one that throws ends the backfill.
    unfoldable pub handle_events : List Event → ℕ → Store × Bool → Store × Bool
    handle_events [] slot s = s
    handle_events (e ∷ es) slot (s, false) = (s, false)
    handle_events (e ∷ es) slot (s, true) = handle_events es slot (handle_event e slot s)

    module _ (parse_logs : List String → List Event) (connection : Connection) where
      unfoldable pub process_tx : Option Transaction → Store × Bool → Store × Bool
      process_tx tx s = elim (usable_logs tx) as (λ o. Store × Bool) [
        | none ↦ s
        | some (slot, logs) ↦ handle_events (parse_logs logs) slot s
      ]

      unfoldable pub process_txs : List (Option Transaction) → Store × Bool → Store × Bool
      process_txs [] s = s
      process_txs (tx ∷ txs) s = process_txs txs (process_tx tx s)

      -- One batch; the flag is cleared by an error, which ends the loop.
      unfoldable pub process_batch : List Signature → Store × Bool → Option (Store × Bool)
      process_batch batch (s, false) = some (s, false)
      process_batch batch (s, true) =
          elim (connection.get_transactions (map (λ (g : Signature). g.signature) batch))
            as (λ o. Option (Store × Bool)) [
              | none ↦ some (s, false)
              | some txs ↦ some (process_txs txs (s, true))
            ]

      unfoldable pub backfill_events : ℕ → Store → Option (Store × Bool)
      unfolding process_batch
      backfill_events limit s =
          elim (connection.get_signatures_for_address limit) as (λ o. Option (Store × Bool)) [
            | none ↦ some (s, false)
            | some signatures ↦ each_batch (length signatures) process_batch signatures (s, true)
          ]

    -- `syncAllMarkets`, over the markets listed, if they are.
    unfoldable pub sync_each : List String → Store → Store
    unfolding sync_single_market
    sync_each [] s = s
    sync_each (m ∷ ms) s = sync_each ms (sync_single_market m s)

    unfoldable pub sync_all_markets : Option (List String) → Store → Store
    sync_all_markets none s = s
    sync_all_markets (some markets) s = sync_each markets s

    -- `updateReserves`: each active market by its key and sides, `none` where a fetch of its sides or
    -- vaults throws.
    unfoldable pub update_market_reserves : String × Option Reserves → Store → Store
    unfolding write
    update_market_reserves (pubkey, none) s = s
    update_market_reserves (pubkey, some r) s = write (upsert_market (reserves_row pubkey r)) s

    unfoldable pub update_reserves : List (String × Option Reserves) → Store → Store
    unfolding update_market_reserves
    update_reserves [] s = s
    update_reserves (m ∷ ms) s = update_reserves ms (update_market_reserves m s)
