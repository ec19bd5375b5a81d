-- ===== src/Sdk/Client.antt =====
-- The instruction builders of sdk/src/client.ts: what they read from the chain, and the
-- instructions that they assemble. An account list is what `accountsPartial` is given.
pub mod Admin
pub mod Trading
pub mod Lifecycle
pub mod Graduation
pub mod Compare
pub mod Laws
mod Tests
use duel_protocol.Prelude.{ℕ, Bool, Option, some, String, List, ◌==◌, if◌then◌else◌}
use duel_protocol.Sdk.Solana.{PublicKey}

pub data Arg : Type 0 where
  num : ℕ → Arg
  text : String → Arg
  flag : Bool → Arg
  null : Arg

infix 70 ◌⇒◌
abbrev pub ◌⇒◌ : String → PublicKey → String × Option PublicKey
name ⇒ k = (name, some k)

pub record Instruction : Type 0 where
  pub method : String
  pub args : List Arg
  pub accounts : List (String × Option PublicKey)
  pub signers : List PublicKey

-- Instructions to run first: the creation of a token account (payer, account, owner, mint), and
-- the compute budget.
pub data PreInstruction : Type 0 where
  create_associated_token_account : PublicKey → PublicKey → PublicKey → PublicKey → PreInstruction
  set_compute_unit_limit : ℕ → PreInstruction

-- The accounts of markets, sides and the configuration, with the fields that the builders read.
pub record MarketData : Type 0 where
  pub side_a : PublicKey
  pub side_b : PublicKey
  pub quote_mint : PublicKey
  pub creator_fee_account : PublicKey

pub record SideData : Type 0 where
  pub token_mint : PublicKey
  pub token_reserve_vault : PublicKey
  pub quote_reserve_vault : PublicKey

pub record ConfigData : Type 0 where
  pub protocol_fee_account : PublicKey

-- `CompareDuelAccount`, with the fields that the builders read.
pub record CompareDuelAccount : Type 0 where
  pub oracle_a : PublicKey
  pub oracle_b : PublicKey
  pub pool_vault_a : PublicKey
  pub pool_vault_b : PublicKey
  pub winner : Option ℕ
  pub creator_fee_account : PublicKey
  pub protocol_fee_account : PublicKey

-- `DepositAccount`, likewise.
pub record DepositAccount : Type 0 where
  pub side : ℕ

-- What the chain answers while one instruction is built; `none` is an error of the fetch.
-- `account_exists` is whether `getAccountInfo` finds the account.
pub record Chain : Type 0 where
  pub fetch_market : PublicKey → Option MarketData
  pub fetch_side : PublicKey → Option SideData
  pub fetch_config : PublicKey → Option ConfigData
  pub fetch_compare_duel : PublicKey → Option CompareDuelAccount
  pub fetch_deposit : PublicKey → Option DepositAccount
  pub account_exists : PublicKey → Option Bool

-- `side === 0 ? marketData.sideA : marketData.sideB`
abbrev pub pick {ℓ} : {A : Type ℓ} → ℕ → A → A → A
pick side a b = if side == 0 then a else b
