-- ===== src/Sdk/Client/Tests.antt =====
-- The builders where an address is the seeds it is derived from, and the chain answers every fetch.
use mathlib.Core.Option
use duel_protocol.Prelude.{◌≡◌, refl, false, Option, none, some, List, [], ◌∷◌, ◌++◌}
use duel_protocol.Sdk.Solana.{PublicKey, Solana, codes}
use duel_protocol.Sdk.Pda.Seeds.{joined}
use duel_protocol.Sdk.Client.{
  Chain, MarketData, SideData, CompareDuelAccount, DepositAccount, Instruction, PreInstruction,
}
use duel_protocol.Sdk.Client.Trading.{build_buy_tokens}
use duel_protocol.Sdk.Client.Compare.{build_deposit}
use duel_protocol.Sdk.Client.Graduation.{crank_resolution, build_resolve_and_graduate}
use duel_protocol.Sdk.Client.Laws.{as_cranked, crank_resolution-build, account_of}

-- The mint of wrapped SOL under both of its names.
abbrev plain : Solana
plain = record {
  public_key = codes;
  find_program_address = λ s p. (joined s, 255);
  get_associated_token_address = λ mint owner off. some (mint ++ owner);
  token_program_id = 1 ∷ [];
  native_mint = codes "So11111111111111111111111111111111111111112";
  system_program_id = 3 ∷ [];
  sysvar_rent_pubkey = 4 ∷ [];
}

abbrev market_data : MarketData
market_data = record {
  side_a = 20 ∷ [];
  side_b = 21 ∷ [];
  quote_mint = 22 ∷ [];
  creator_fee_account = 23 ∷ [];
}

abbrev side_data : SideData
side_data = record {
  token_mint = 30 ∷ [];
  token_reserve_vault = 31 ∷ [];
  quote_reserve_vault = 32 ∷ [];
}

abbrev compare_duel : CompareDuelAccount
compare_duel = record {
  oracle_a = 50 ∷ [];
  oracle_b = 51 ∷ [];
  pool_vault_a = 52 ∷ [];
  pool_vault_b = 53 ∷ [];
  winner = none;
  creator_fee_account = 54 ∷ [];
  protocol_fee_account = 55 ∷ [];
}

abbrev deposit : DepositAccount
deposit = record { side = 1 }

abbrev chain : Chain
chain = record {
  fetch_market = λ k. some market_data;
  fetch_side = λ k. some side_data;
  fetch_config = λ k. some (record { protocol_fee_account = 40 ∷ [] });
  fetch_compare_duel = λ k. some compare_duel;
  fetch_deposit = λ k. some deposit;
  account_exists = λ k. some false;
}

abbrev user : PublicKey
user = 9 ∷ []

abbrev market : PublicKey
market = 10 ∷ []

crank_resolution-build_example :
    crank_resolution plain chain user market market_data (11 ∷ []) side_data side_data 1
    ≡ Option.map
        (as_cranked user (11 ∷ []))
        (build_resolve_and_graduate plain chain market 1 user (11 ∷ []) (22 ∷ []))
crank_resolution-build_example =
    crank_resolution-build plain chain refl user market (11 ∷ []) market_data side_data side_data 1
      refl refl refl

abbrev value_or {ℓ} : {A : Type ℓ} → A → Option A → A
value_or a none = a
value_or a (some b) = b

abbrev nothing : Instruction
nothing = record { method = ""; args = []; accounts = []; signers = [] }

abbrev purchase : List PreInstruction × Instruction
purchase = value_or ([], nothing) (build_buy_tokens plain chain market 1 500 3 user (12 ∷ []))

bought : build_buy_tokens plain chain market 1 500 3 user (12 ∷ []) ≡ some purchase
unfolding build_buy_tokens
bought = refl

bought_run : account_of "buyerTokenAccount" purchase.1.accounts ≡ some (30 ∷ 9 ∷ [])
unfolding build_buy_tokens
bought_run = refl

abbrev paid : Instruction × PublicKey
paid = value_or (nothing, []) (build_deposit plain chain market 1 700 user (12 ∷ []))

deposited : build_deposit plain chain market 1 700 user (12 ∷ []) ≡ some paid
unfolding build_deposit
deposited = refl

deposited_run : account_of "poolVault" paid.0.accounts ≡ some (53 ∷ [])
unfolding build_deposit
deposited_run = refl
