-- ===== src/Sdk/Pda.antt =====
-- The program-derived addresses of sdk/src/pda.ts, each as its seeds and then the derivation.
pub mod Seeds
pub mod Pool
mod Tests
use duel_protocol.Prelude.{
  ℕ, zero, suc, true, false, String, ◌/◌, ◌%◌, ◌^◌, Option, none, some, Bool, List, [], ◌∷◌, ltb,
  ◌==◌, if◌then◌else◌,
}
use duel_protocol.Sdk.Solana.{
  PublicKey, Solana, codes, ◌>>=◌, program_id, meteora_damm_v2_program_id,
  token_metadata_program_id, wsol_mint,
}

-- The `n` low bytes, lowest first.
unfoldable pub low_bytes : ℕ → ℕ → List ℕ
low_bytes zero x = []
low_bytes (suc n) x = x % 256 ∷ low_bytes n (x / 256)

-- `writeBigUInt64LE`, which throws (`none`) past 64 bits.
unfoldable pub u64_le : ℕ → Option (List ℕ)
unfolding low_bytes
u64_le x = if ltb x (2 ^ 64) then some (low_bytes 8 x) else none

-- `Buffer.from([sideIndex])` keeps the low byte.
abbrev pub byte : ℕ → List ℕ
byte i = i % 256 ∷ []

abbrev pub id_seeds : String → PublicKey → List ℕ → List (List ℕ)
id_seeds name creator buf = codes name ∷ creator ∷ buf ∷ []

abbrev pub side_seeds : String → PublicKey → ℕ → List (List ℕ)
side_seeds name account side_index = codes name ∷ account ∷ byte side_index ∷ []

-- `Buffer.compare(a, b) > 0`, byte by byte, a proper extension being greater.
unfoldable pub greater : List ℕ → List ℕ → Bool
greater [] ys = false
greater (x ∷ xs) [] = true
greater (x ∷ xs) (y ∷ ys) = if x == y then greater xs ys else ltb y x

module _ (sol : Solana) where
  open sol use {find_program_address}

  unfoldable pub find_market_pda : PublicKey → ℕ → Option (PublicKey × ℕ)
  find_market_pda creator market_id = do
    buf ← u64_le market_id
    some (find_program_address (id_seeds "market" creator buf) (program_id sol))

  unfoldable pub find_side_pda : PublicKey → ℕ → PublicKey × ℕ
  find_side_pda market side_index =
      find_program_address (side_seeds "side" market side_index) (program_id sol)

  unfoldable pub find_mint_pda : PublicKey → ℕ → PublicKey × ℕ
  find_mint_pda market side_index =
      find_program_address (side_seeds "mint" market side_index) (program_id sol)

  unfoldable pub find_token_vault_pda : PublicKey → ℕ → PublicKey × ℕ
  find_token_vault_pda market side_index =
      find_program_address (side_seeds "token_vault" market side_index) (program_id sol)

  unfoldable pub find_quote_vault_pda : PublicKey → ℕ → PublicKey × ℕ
  find_quote_vault_pda market side_index =
      find_program_address (side_seeds "quote_vault" market side_index) (program_id sol)

  unfoldable pub find_config_pda : PublicKey × ℕ
  find_config_pda = find_program_address (codes "config" ∷ []) (program_id sol)

  unfoldable pub find_metadata_pda : PublicKey → PublicKey × ℕ
  find_metadata_pda mint =
      find_program_address (codes "metadata" ∷ token_metadata_program_id sol ∷ mint ∷ [])
        (token_metadata_program_id sol)

  unfoldable pub find_compare_duel_pda : PublicKey → ℕ → Option (PublicKey × ℕ)
  find_compare_duel_pda creator duel_id = do
    buf ← u64_le duel_id
    some (find_program_address (id_seeds "compare_duel" creator buf) (program_id sol))

  unfoldable pub find_compare_vault_pda : PublicKey → ℕ → PublicKey × ℕ
  find_compare_vault_pda compare_duel side_index =
      find_program_address (side_seeds "compare_vault" compare_duel side_index) (program_id sol)

  unfoldable pub find_deposit_pda : PublicKey → PublicKey → PublicKey × ℕ
  find_deposit_pda compare_duel depositor =
      find_program_address (codes "deposit" ∷ compare_duel ∷ depositor ∷ []) (program_id sol)

  -- `deriveDammV2Pool`; the greater key comes first.
  unfoldable pub derive_damm_v2_pool : PublicKey → PublicKey → PublicKey × ℕ
  derive_damm_v2_pool token_a_mint token_b_mint =
      let max_key = if greater token_a_mint token_b_mint then token_a_mint else token_b_mint in
      let min_key = if greater token_a_mint token_b_mint then token_b_mint else token_a_mint in
      find_program_address (codes "cpool" ∷ max_key ∷ min_key ∷ []) (meteora_damm_v2_program_id sol)

  unfoldable pub derive_damm_v2_pool_authority : PublicKey × ℕ
  derive_damm_v2_pool_authority =
      find_program_address (codes "pool_authority" ∷ []) (meteora_damm_v2_program_id sol)

  unfoldable pub derive_damm_v2_event_authority : PublicKey × ℕ
  derive_damm_v2_event_authority =
      find_program_address (codes "__event_authority" ∷ []) (meteora_damm_v2_program_id sol)

  unfoldable pub derive_position_address : PublicKey → PublicKey × ℕ
  derive_position_address position_nft_mint =
      find_program_address (codes "position" ∷ position_nft_mint ∷ [])
        (meteora_damm_v2_program_id sol)

  unfoldable pub derive_position_nft_account : PublicKey → PublicKey × ℕ
  derive_position_nft_account position_nft_mint =
      find_program_address (codes "position_nft_account" ∷ position_nft_mint ∷ [])
        (meteora_damm_v2_program_id sol)

  unfoldable pub derive_damm_v2_token_vault : PublicKey → PublicKey → PublicKey × ℕ
  derive_damm_v2_token_vault pool mint =
      find_program_address (codes "token_vault" ∷ mint ∷ pool ∷ []) (meteora_damm_v2_program_id sol)

pub record MarketAccounts : Type 0 where
  pub market : PublicKey
  pub side_a : PublicKey
  pub side_b : PublicKey
  pub mint_a : PublicKey
  pub mint_b : PublicKey
  pub token_vault_a : PublicKey
  pub token_vault_b : PublicKey
  pub quote_vault_a : PublicKey
  pub quote_vault_b : PublicKey

pub record DammV2Accounts : Type 0 where
  pub pool : PublicKey
  pub pool_authority : PublicKey
  pub event_authority : PublicKey
  pub position : PublicKey
  pub position_nft_account : PublicKey
  pub token_a_vault : PublicKey
  pub token_b_vault : PublicKey

module _ (sol : Solana) where
  unfoldable pub derive_market_accounts : PublicKey → ℕ → Option MarketAccounts
  derive_market_accounts creator market_id = do
    found ← find_market_pda sol creator market_id
    let market' = found.0
    some (record {
      market = market';
      side_a = (find_side_pda sol market' 0).0;
      side_b = (find_side_pda sol market' 1).0;
      mint_a = (find_mint_pda sol market' 0).0;
      mint_b = (find_mint_pda sol market' 1).0;
      token_vault_a = (find_token_vault_pda sol market' 0).0;
      token_vault_b = (find_token_vault_pda sol market' 1).0;
      quote_vault_a = (find_quote_vault_pda sol market' 0).0;
      quote_vault_b = (find_quote_vault_pda sol market' 1).0;
    })

  -- `tokenBMint` defaults to `WSOL_MINT` in the source; every caller writes it.
  unfoldable pub derive_damm_v2_accounts : PublicKey → PublicKey → PublicKey → DammV2Accounts
  derive_damm_v2_accounts token_a_mint position_nft_mint token_b_mint =
      let pool' = (derive_damm_v2_pool sol token_a_mint token_b_mint).0 in
      record {
        pool = pool';
        pool_authority = (derive_damm_v2_pool_authority sol).0;
        event_authority = (derive_damm_v2_event_authority sol).0;
        position = (derive_position_address sol position_nft_mint).0;
        position_nft_account = (derive_position_nft_account sol position_nft_mint).0;
        token_a_vault = (derive_damm_v2_token_vault sol pool' token_a_mint).0;
        token_b_vault = (derive_damm_v2_token_vault sol pool' token_b_mint).0;
      }
