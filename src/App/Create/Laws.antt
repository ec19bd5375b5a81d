-- ===== src/App/Create/Laws.antt =====
-- The schedules of the pages, and their instructions against the SDK's.
use mathlib.Core.Option
use duel_protocol.Prelude.{
  ℕ, ◌+◌, ◌*◌, ◌/◌, ◌≤◌, ◌<◌, ◌≡◌, refl, String, List, ◌++◌, take, drop, false, arith, max, min,
  true, Option, some, Option-cases, inl, inr,
}
use duel_protocol.Sdk.Solana.{PublicKey, Solana}
use duel_protocol.Sdk.Pda
use duel_protocol.Sdk.Pda.{u64_le}
use duel_protocol.Sdk.Client.{Instruction, Chain}
use duel_protocol.Sdk.Client.Admin.{MarketParams, build_initialize_market}
use duel_protocol.Sdk.Client.Compare.{CompareParams, build_create_compare_duel}
use duel_protocol.App.Pda.{
  find_config_pda, find_metadata_pda, find_market_pda, find_side_pda, find_mint_pda,
  find_token_vault_pda, find_quote_vault_pda, find_compare_duel_pda, find_compare_vault_pda,
}
use duel_protocol.App.Pda.Laws.{as_app}
use duel_protocol.App.Create.Market.{
  TextLibrary, MarketForm, CompareForm, market_creation, duel_creation,
}
use duel_protocol.App.Create.{deadline_of, twap_window_of, twap_interval_of}
use duel_protocol.App.Create.Gates.{accepts_schedule}

sampling : (w : ℕ) → w ≤ 43200 → w / max 10 (w / 720) ≤ 791
sampling w h = grind arith

-- For one hour or more, if the chain's clock is less than 45 minutes ahead of the page's and the
-- least duration is kept, the program accepts the schedule that the pages make, and the window has
-- at most 791 intervals.
pub schedule-accepted :
    (hours now chain_now min_market_duration : ℕ)
    → 0 < hours
    → chain_now < now + 2700
    → chain_now + min_market_duration ≤ deadline_of now hours
    → (accepts_schedule min_market_duration chain_now
          (deadline_of now hours)
          (twap_window_of hours)
          (twap_interval_of hours)
        ≡ true)
      × (twap_window_of hours / twap_interval_of hours ≤ 791)
unfolding deadline_of twap_window_of twap_interval_of accepts_schedule
schedule-accepted hours now chain_now min_market_duration some_hours prompt long =
    (ground arith, sampling (max 60 (min 43200 (hours * 3600 / 4))) (ground arith))

-- The accounts with the creator's fee account four places earlier.
unfoldable pub fee_account_first :
    List (String × Option PublicKey) → List (String × Option PublicKey)
fee_account_first l = take 13 l ++ (take 1 (drop 17 l) ++ (take 4 (drop 13 l) ++ drop 18 l))

abbrev pub as_paged : Instruction → Instruction
as_paged ix = record ix { accounts = fee_account_first ix.accounts }

abbrev pub market_params : TextLibrary → MarketForm → ℕ → PublicKey → MarketParams
market_params texts form now fee_account = record {
  deadline = deadline_of now form.duration_hours;
  twap_window = twap_window_of form.duration_hours;
  twap_interval = twap_interval_of form.duration_hours;
  name_a = texts.trim form.name_a;
  symbol_a = texts.to_upper_case (texts.trim form.symbol_a);
  uri_a = "";
  name_b = texts.trim form.name_b;
  symbol_b = texts.to_upper_case (texts.trim form.symbol_b);
  uri_b = "";
  creator_fee_account = fee_account;
}

module _ (sol : Solana) (chain : Chain)
    (rent : sol.public_key "SysvarRent111111111111111111111111111111111" ≡ sol.sysvar_rent_pubkey)
    (creator fee_account : PublicKey)
    (on : sol.get_associated_token_address sol.native_mint creator false ≡ some fee_account)
    (now_ms now : ℕ) where
  -- Where the creator's account for fees is found and the rent account is the library's, the
  -- creation that the page sends is the SDK's under the app's program, with the account for fees
  -- four places earlier.
  pub market_creation-build :
      (texts : TextLibrary) (form : MarketForm)
      → market_creation sol chain texts form creator now_ms now
        ≡ Option.map
            (λ built. as_paged built.0)
            (build_initialize_market
              (as_app sol)
              chain
              creator
              now_ms
              (market_params texts form now fee_account)
              sol.native_mint)
  unfolding market_creation build_initialize_market Pda.derive_market_accounts fee_account_first
      find_market_pda find_side_pda find_mint_pda find_token_vault_pda find_quote_vault_pda
      find_metadata_pda find_config_pda Pda.find_market_pda Pda.find_side_pda Pda.find_mint_pda
      Pda.find_token_vault_pda Pda.find_quote_vault_pda Pda.find_metadata_pda Pda.find_config_pda
  market_creation-build texts form = elim (Option-cases (u64_le now_ms)) [
    | inl long ↦ rw long refl
    | inr (bytes, fits) ↦ elim (Option-cases (chain.fetch_config (find_config_pda sol))) [
      | inl lost ↦ rw (fits, lost) refl
      | inr (config, found) ↦ rw (fits, found, on, rent) refl
    ]
  ]

  -- Where the keys and the amount of the form parse, the creation of a duel that the page sends is the
  -- SDK's under the app's program.
  pub duel_creation-build :
      (form : CompareForm) (params : CompareParams)
      → form.token_a_mint ≡ some params.token_a_mint
      → form.token_b_mint ≡ some params.token_b_mint
      → form.oracle_a ≡ some params.oracle_a
      → form.oracle_b ≡ some params.oracle_b
      → form.min_deposit_lamports ≡ some params.min_deposit
      → params.deadline ≡ deadline_of now form.duration_hours
      → params.twap_window ≡ twap_window_of form.duration_hours
      → params.twap_interval ≡ twap_interval_of form.duration_hours
      → params.creator_fee_account ≡ fee_account
      → duel_creation sol chain form creator now_ms now
        ≡ Option.map
            (λ built. built.0)
            (build_create_compare_duel (as_app sol) chain creator now_ms params sol.native_mint)
  unfolding duel_creation build_create_compare_duel find_compare_duel_pda find_compare_vault_pda
      find_config_pda Pda.find_compare_duel_pda Pda.find_compare_vault_pda Pda.find_config_pda
  duel_creation-build form params mint_a mint_b oracle_a oracle_b least deadline window interval
        fee =
      elim (Option-cases (u64_le now_ms)) [
        | inl long ↦ rw long refl
        | inr (bytes, fits) ↦ elim (Option-cases (chain.fetch_config (find_config_pda sol))) [
          | inl lost ↦ rw (fits, lost) refl
          | inr (config, found) ↦
              rw
                (
                  fits, found, on, rent, mint_a, mint_b, oracle_a, oracle_b, least, deadline,
                  window, interval, fee,
                )
                refl
        ]
      ]
