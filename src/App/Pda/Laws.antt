-- ===== src/App/Pda/Laws.antt =====
-- The app derives what the SDK would derive if the SDK had the app's program id.
use text.Mathlib.Text.{◌==◌ as str_eq}
use mathlib.Core.Option
use duel_protocol.Prelude.{ℕ, ◌≡◌, refl, Option, none, some, List, if◌then◌else◌}
use duel_protocol.Sdk.Solana.{PublicKey, Solana, ◌>>=◌}
use duel_protocol.Sdk.Pda
use duel_protocol.Sdk.Pda.{u64_le}
use duel_protocol.App.Pda.{
  app_program_id, find_market_pda, find_side_pda, find_quote_vault_pda, find_token_vault_pda,
  find_mint_pda, find_config_pda, find_metadata_pda, find_compare_duel_pda, find_compare_vault_pda,
  find_deposit_pda,
}

-- The libraries with the SDK's program id read as the app's.
abbrev pub as_app : Solana → Solana
as_app sol = record sol {
  public_key = λ t.
      if str_eq t "CgR6V1AxC7exDFNoh3Q5JP9aea9YuPqq283EwACUGpZE"
      then app_program_id sol
      else sol.public_key t;
}

-- The address in a derivation that may fail.
abbrev pub address : Option (PublicKey × ℕ) → Option PublicKey
address = Option.map (λ found. found.0)

-- Each derivation of the app finds the SDK's address, or fails where the SDK's fails.
pub record DerivesAlike (sol : Solana) : Type 0 where
  pub markets :
      (creator : PublicKey) (n : ℕ)
      → find_market_pda sol creator n ≡ address (Pda.find_market_pda (as_app sol) creator n)
  pub sides :
      (m : PublicKey) (i : ℕ) → find_side_pda sol m i ≡ (Pda.find_side_pda (as_app sol) m i).0
  pub quote_vaults :
      (m : PublicKey) (i : ℕ)
      → find_quote_vault_pda sol m i ≡ (Pda.find_quote_vault_pda (as_app sol) m i).0
  pub token_vaults :
      (m : PublicKey) (i : ℕ)
      → find_token_vault_pda sol m i ≡ (Pda.find_token_vault_pda (as_app sol) m i).0
  pub mints :
      (m : PublicKey) (i : ℕ) → find_mint_pda sol m i ≡ (Pda.find_mint_pda (as_app sol) m i).0
  pub config : find_config_pda sol ≡ (Pda.find_config_pda (as_app sol)).0
  pub metadata :
      (mint : PublicKey) → find_metadata_pda sol mint ≡ (Pda.find_metadata_pda (as_app sol) mint).0
  pub compare_duels :
      (creator : PublicKey) (n : ℕ)
      → find_compare_duel_pda sol creator n
        ≡ address (Pda.find_compare_duel_pda (as_app sol) creator n)
  pub compare_vaults :
      (d : PublicKey) (i : ℕ)
      → find_compare_vault_pda sol d i ≡ (Pda.find_compare_vault_pda (as_app sol) d i).0
  pub deposits :
      (d u : PublicKey) → find_deposit_pda sol d u ≡ (Pda.find_deposit_pda (as_app sol) d u).0

address_bind :
    (o : Option (List ℕ)) (f : List ℕ → PublicKey × ℕ)
    → (o >>= (λ b. some (f b).0)) ≡ address (o >>= (λ b. some (f b)))
address_bind none f = refl
address_bind (some b) f = refl

-- Every derivation of the app is the SDK's under the app's program.
pub find_pda-DerivesAlike : (sol : Solana) → DerivesAlike sol
unfolding find_market_pda find_side_pda find_quote_vault_pda find_token_vault_pda find_mint_pda
    find_config_pda find_metadata_pda find_compare_duel_pda find_compare_vault_pda find_deposit_pda
    Pda.find_market_pda Pda.find_side_pda Pda.find_quote_vault_pda Pda.find_token_vault_pda
    Pda.find_mint_pda Pda.find_config_pda Pda.find_metadata_pda Pda.find_compare_duel_pda
    Pda.find_compare_vault_pda Pda.find_deposit_pda
find_pda-DerivesAlike sol = record {
  markets = λ creator n. address_bind (u64_le n) _;
  sides = λ m i. refl;
  quote_vaults = λ m i. refl;
  token_vaults = λ m i. refl;
  mints = λ m i. refl;
  config = refl;
  metadata = λ mint. refl;
  compare_duels = λ creator n. address_bind (u64_le n) _;
  compare_vaults = λ d i. refl;
  deposits = λ d u. refl;
}
