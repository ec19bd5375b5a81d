-- ===== src/App/CompareDuel/Laws.antt =====
-- The deposit and the withdrawal of the page are the ones that the SDK builds.
use mathlib.Core.Option
use duel_protocol.Prelude.{
  ℕ, ◌≡◌, refl, Option, none, some, Option-cases, Bool, false, inl, inr, [], ◌∷◌, ◌++◌,
}
use duel_protocol.Sdk.Solana.{PublicKey, Solana, ◌>>=◌}
use duel_protocol.Sdk.Pda
use duel_protocol.Sdk.Client.{Chain, CompareDuelAccount}
use duel_protocol.Sdk.Client.Compare.{build_deposit, build_withdraw, withdraw_vault}
use duel_protocol.App.Pda.{find_config_pda, find_deposit_pda}
use duel_protocol.App.Pda.Laws.{as_app}
use duel_protocol.App.Transaction.{call, add_missing, wrap_sol}
use duel_protocol.App.CompareDuel.{
  CompareDuel, pool_vault_of, deposit_instruction, deposit_transaction, withdraw_instruction,
  withdraw_transaction,
}

-- The page's duel has the vaults and the winner of the account.
pub record IsFetched (duel : CompareDuel) (account : CompareDuelAccount) : Type 0 where
  pub vault_a : duel.pool_vault_a ≡ account.pool_vault_a
  pub vault_b : duel.pool_vault_b ≡ account.pool_vault_b
  pub winner : duel.winner ≡ account.winner

pool_vault_of-withdraw_vault :
    (w : Option ℕ) (side : ℕ) (a b : PublicKey)
    → pool_vault_of w side a b ≡ withdraw_vault w side a b
unfolding pool_vault_of withdraw_vault
pool_vault_of-withdraw_vault none side a b = refl
pool_vault_of-withdraw_vault (some winner) side a b = refl

module _ (sol : Solana) (chain : Chain) (has_account : PublicKey → Bool) (duel_key : PublicKey)
    (duel : CompareDuel) (account : CompareDuelAccount)
    (fetched : chain.fetch_compare_duel duel_key ≡ some account)
    (same : IsFetched duel account) where
  -- Where the page holds the vaults and winner of the account, the deposit it sends is the SOL
  -- wrapped for the amount and the deposit that the SDK under the app's program builds.
  pub deposit_transaction-build :
      (depositor : PublicKey) (side lamports : ℕ)
      → deposit_transaction sol has_account duel_key duel depositor side lamports ≡ (
          sol.get_associated_token_address sol.native_mint depositor false >>= (λ wsol_ata.
            Option.map
              (λ built.
                wrap_sol has_account wsol_ata depositor sol.native_mint lamports
                ++ call built.0 ∷ [])
              (build_deposit (as_app sol) chain duel_key side lamports depositor sol.native_mint)))
  unfolding deposit_transaction deposit_instruction build_deposit find_config_pda find_deposit_pda
      Pda.find_config_pda Pda.find_deposit_pda
  deposit_transaction-build depositor side lamports =
      elim (Option-cases (sol.get_associated_token_address sol.native_mint depositor false)) [
        | inl off ↦ rw off refl
        | inr (wsol_ata, on) ↦ rw (on, fetched, same.vault_a, same.vault_b) refl
      ]

  -- Where the page holds the vaults and winner of the account and the side of the record, the
  -- withdrawal it sends is the account for wrapped SOL if it is missing and the withdrawal that
  -- the SDK under the app's program builds.
  pub withdraw_transaction-build :
      (depositor : PublicKey) (side : ℕ)
      → chain.fetch_deposit (find_deposit_pda sol duel_key depositor)
        ≡ some (record { side = side })
      → withdraw_transaction sol has_account duel_key duel depositor side ≡ (
          sol.get_associated_token_address sol.native_mint depositor false >>= (λ wsol_ata.
            Option.map
              (λ built.
                add_missing has_account wsol_ata depositor sol.native_mint ++ call built ∷ [])
              (build_withdraw (as_app sol) chain duel_key depositor sol.native_mint)))
  unfolding withdraw_transaction withdraw_instruction build_withdraw find_config_pda
      find_deposit_pda Pda.find_config_pda Pda.find_deposit_pda
  withdraw_transaction-build depositor side recorded =
      elim (Option-cases (sol.get_associated_token_address sol.native_mint depositor false)) [
        | inl off ↦ rw off refl
        | inr (wsol_ata, on) ↦
            rw
              (
                on,
                fetched,
                recorded,
                same.vault_a,
                same.vault_b,
                same.winner,
                pool_vault_of-withdraw_vault account.winner side account.pool_vault_a
                    account.pool_vault_b,
              )
              refl
      ]
