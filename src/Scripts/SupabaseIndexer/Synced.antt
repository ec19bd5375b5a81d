-- ===== src/Scripts/SupabaseIndexer/Synced.antt =====
-- The rows of `syncSingleMarket` and `updateReserves` of scripts/indexer.ts.
use duel_protocol.Prelude.{
  ℕ, ◌+◌, ◌*◌, String, Bool, Option, none, some, [], ◌∷◌, ◌++◌, leb, ltb, ◌&&◌, if◌then◌else◌,
}
use duel_protocol.Backend.Db.{Value, str, num, null, Row}
use duel_protocol.Scripts.SupabaseIndexer.Rows.{Fields, plain_entry}

-- The account of a market, the rates that it may no longer have, and its sides and vaults when both
-- are fetched.
pub record Sides : Type 0 where
  pub circulating_a : ℕ
  pub circulating_b : ℕ
  pub token_mint_a : String
  pub token_mint_b : String
  pub vaults : Option (ℕ × ℕ)

pub record Market : Type 0 where
  pub authority : String
  pub deadline : ℕ
  pub rates : Fields
  pub twap_window : ℕ
  pub twap_interval : ℕ
  pub is_resolved : Bool
  pub winner : Option ℕ
  pub side_a : String
  pub side_b : String
  pub sides : Option Sides

unfoldable pub get_market_status : ℕ → Market → String
get_market_status now_ms market =
    if market.is_resolved
    then "resolved"
    else if leb (1000 * market.deadline) (now_ms + 1000 * market.twap_window)
        && ltb now_ms (1000 * market.deadline)
    then "twap"
    else if leb (1000 * market.deadline) now_ms
    then "twap"
    else "active"

abbrev opt : {A : Type 0} → (A → Value) → Option A → Value
opt f none = null
opt f (some a) = f a

-- The entries of the sides; the reserves are 0 and the mints null where they are not fetched.
unfoldable pub side_entries : Market → Option Sides → Row
side_entries m none =
    ("reserve_a", num 0)
    ∷ ("reserve_b", num 0)
    ∷ ("side_a_pubkey", str m.side_a)
    ∷ ("side_b_pubkey", str m.side_b)
    ∷ ("token_mint_a", null)
    ∷ ("token_mint_b", null)
    ∷ ("circulating_a", num 0)
    ∷ ("circulating_b", num 0)
    ∷ []
side_entries m (some s) =
    let reserves = elim s.vaults as (λ v. ℕ × ℕ) [ none ↦ (0, 0) | some v ↦ v ] in
    ("reserve_a", num reserves.0)
    ∷ ("reserve_b", num reserves.1)
    ∷ ("side_a_pubkey", str m.side_a)
    ∷ ("side_b_pubkey", str m.side_b)
    ∷ ("token_mint_a", str s.token_mint_a)
    ∷ ("token_mint_b", str s.token_mint_b)
    ∷ ("circulating_a", num s.circulating_a)
    ∷ ("circulating_b", num s.circulating_b)
    ∷ []

unfoldable pub synced_row : ℕ → String → Market → Row
unfolding get_market_status side_entries
synced_row now_ms pubkey m =
    ("pubkey", str pubkey)
    ∷ ("authority", str m.authority)
    ∷ ("deadline", num m.deadline)
    ∷ (plain_entry "battle_tax_bps" "battleTaxBps" m.rates
        ++ plain_entry "protocol_fee_bps" "protocolFeeBps" m.rates
        ++ plain_entry "sell_penalty_max_bps" "sellPenaltyMaxBps" m.rates
        ++ ("twap_window", num m.twap_window)
          ∷ ("twap_interval", num m.twap_interval)
          ∷ ("status", str (get_market_status now_ms m))
          ∷ ("winner", opt num m.winner)
          ∷ side_entries m m.sides)

pub record Reserves : Type 0 where
  pub reserve_a : ℕ
  pub reserve_b : ℕ
  pub circulating_a : ℕ
  pub circulating_b : ℕ

unfoldable pub reserves_row : String → Reserves → Row
reserves_row pubkey r =
    ("pubkey", str pubkey)
    ∷ ("reserve_a", num r.reserve_a)
    ∷ ("reserve_b", num r.reserve_b)
    ∷ ("circulating_a", num r.circulating_a)
    ∷ ("circulating_b", num r.circulating_b)
    ∷ []
