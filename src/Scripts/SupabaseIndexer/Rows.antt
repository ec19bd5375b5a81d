-- ===== src/Scripts/SupabaseIndexer/Rows.antt =====
-- The rows that scripts/indexer.ts builds. A missing field reads as undefined: reading a property of
-- it throws (`none`), `Number` of it is no number, which is sent as null, and as an entry it is not
-- sent at all.
use package.text.Mathlib.Text.{◌==◌ as str_eq}
use duel_protocol.Prelude.{ℕ, String, Option, none, some, List, [], ◌∷◌, ◌++◌, if◌then◌else◌}
use duel_protocol.Sdk.Solana.{◌>>=◌}
use duel_protocol.Backend.Db.{Value, str, num, digits, null, Row}

-- A public key is its text (`str`), a `BN` its digits (`digits`).
abbrev pub Fields : Type 0
Fields = List (String × Value)

unfoldable pub field : String → Fields → Option Value
field name [] = none
field name ((k, v) ∷ rest) = let later = field name rest in if str_eq k name then some v else later

-- `data.name.toBase58()`
abbrev as_key : Value → Option String
as_key (str k) = some k
as_key _ = none

unfoldable pub key_of : String → Fields → Option String
unfolding field
key_of name data' = field name data' >>= as_key

-- `data.name.toString()`
abbrev as_digits : Value → Option Value
as_digits null = none
as_digits (num n) = some (digits n)
as_digits v = some v

unfoldable pub digits_of : String → Fields → Option Value
unfolding field
digits_of name data' = field name data' >>= as_digits

-- `Number(data.name)`
abbrev as_number : Option Value → Value
as_number (some (digits n)) = num n
as_number (some (num n)) = num n
as_number _ = null

unfoldable pub number_of : String → Fields → Value
unfolding field
number_of name data' = as_number (field name data')

-- The entry `column: data.name`.
abbrev entry_of : String → Option Value → Row
entry_of column none = []
entry_of column (some v) = (column, v) ∷ []

unfoldable pub plain_entry : String → String → Fields → Row
unfolding field
plain_entry column name data' = entry_of column (field name data')

unfoldable pub created_row : Fields → Option Row
created_row data' = do
  market ← key_of "market" data'
  authority ← key_of "authority" data'
  some (
      ("pubkey", str market)
      ∷ ("authority", str authority)
      ∷ ("deadline", number_of "deadline" data')
      ∷ (plain_entry "battle_tax_bps" "battleTaxBps" data'
          ++ ("status", str "active")
            ∷ ("name_a", str "")
            ∷ ("name_b", str "")
            ∷ ("symbol_a", str "")
            ∷ ("symbol_b", str "")
            ∷ []))

unfoldable pub bought_row : Fields → ℕ → Option Row
bought_row data' slot = do
  market ← key_of "market" data'
  trader ← key_of "buyer" data'
  sol_amount ← digits_of "solAmount" data'
  token_amount ← digits_of "tokensReceived" data'
  price_after ← digits_of "newPrice" data'
  some (
      ("market_pubkey", str market)
      ∷ (plain_entry "side" "side" data'
          ++ ("trader", str trader)
            ∷ ("trade_type", str "buy")
            ∷ ("sol_amount", sol_amount)
            ∷ ("token_amount", token_amount)
            ∷ ("price_after", price_after)
            ∷ ("penalty_applied", digits 0)
            ∷ ("slot", num slot)
            ∷ []))

unfoldable pub sold_row : Fields → ℕ → Option Row
sold_row data' slot = do
  market ← key_of "market" data'
  trader ← key_of "seller" data'
  sol_amount ← digits_of "solReceived" data'
  token_amount ← digits_of "tokenAmount" data'
  price_after ← digits_of "newPrice" data'
  penalty ← digits_of "penaltyApplied" data'
  some (
      ("market_pubkey", str market)
      ∷ (plain_entry "side" "side" data'
          ++ ("trader", str trader)
            ∷ ("trade_type", str "sell")
            ∷ ("sol_amount", sol_amount)
            ∷ ("token_amount", token_amount)
            ∷ ("price_after", price_after)
            ∷ ("penalty_applied", penalty)
            ∷ ("slot", num slot)
            ∷ []))

unfoldable pub sampled_row : Fields → ℕ → Option Row
sampled_row data' slot = do
  market ← key_of "market" data'
  price_a ← digits_of "priceA" data'
  price_b ← digits_of "priceB" data'
  some (
      ("market_pubkey", str market)
      ∷ ("price_a", price_a)
      ∷ ("price_b", price_b)
      ∷ (plain_entry "sample_count" "sampleCount" data' ++ ("slot", num slot) ∷ []))

unfoldable pub resolved_row : Fields → Option Row
resolved_row data' = do
  market ← key_of "market" data'
  final_twap_a ← digits_of "finalTwapA" data'
  final_twap_b ← digits_of "finalTwapB" data'
  tax ← digits_of "transferAmount" data'
  fee ← digits_of "protocolFee" data'
  some (
      ("pubkey", str market)
      ∷ ("status", str "resolved")
      ∷ (plain_entry "winner" "winner" data'
          ++ ("final_twap_a", final_twap_a)
            ∷ ("final_twap_b", final_twap_b)
            ∷ ("battle_tax_collected", tax)
            ∷ ("protocol_fee_collected", fee)
            ∷ []))

unfoldable pub graduation_row : Fields → ℕ → Option Row
graduation_row data' slot = do
  market ← key_of "market" data'
  dex_pool ← key_of "dexPool" data'
  sol_seeded ← digits_of "solSeeded" data'
  tokens_seeded ← digits_of "tokensSeeded" data'
  some (
      ("market_pubkey", str market)
      ∷ (plain_entry "side" "side" data'
          ++ ("dex_pool", str dex_pool)
            ∷ ("sol_seeded", sol_seeded)
            ∷ ("tokens_seeded", tokens_seeded)
            ∷ ("slot", num slot)
            ∷ []))

unfoldable pub graduated_row : Fields → Option Row
graduated_row data' = do
  market ← key_of "market" data'
  dex_pool ← key_of "dexPool" data'
  some (
      ("pubkey", str market)
      ∷ (plain_entry "graduated_side" "side" data' ++ ("dex_pool", str dex_pool) ∷ []))
