-- ===== src/App/Create/Tests.antt =====
-- The pages that create on an example, and their laws there.
use duel_protocol.Prelude.{
  ℕ, ◌+◌, ◌/◌, ◌≤◌, ◌≡◌, refl, none, some, true, false, [], ◌∷◌, ◌++◌, arith,
}
use duel_protocol.Sdk.Solana.{Solana}
use duel_protocol.Sdk.Client.{Chain, create_associated_token_account}
use duel_protocol.Sdk.Client.Compare.{CompareParams}
use duel_protocol.Sdk.Pda.{u64_le}
use duel_protocol.App.Pda.{find_market_pda}
use duel_protocol.App.Transaction.{prepare}
use duel_protocol.App.Create.{deadline_of, twap_window_of, twap_interval_of, send_creation}
use duel_protocol.App.Create.Market.{
  TextLibrary, MarketForm, CompareForm, can_create, handle_create, fee_account_after,
}
use duel_protocol.App.Create.Gates.{accepts_schedule}
use duel_protocol.App.Create.Laws.{schedule-accepted}

abbrev sol : Solana
sol = record {
  public_key = λ t. 4 ∷ [];
  find_program_address = λ s p. (9 ∷ [], 255);
  get_associated_token_address = λ mint owner off. some (mint ++ owner);
  token_program_id = 1 ∷ [];
  native_mint = 2 ∷ [];
  system_program_id = 3 ∷ [];
  sysvar_rent_pubkey = 4 ∷ [];
}

abbrev chain : Chain
chain = record {
  fetch_market = λ k. none;
  fetch_side = λ k. none;
  fetch_config = λ k. some (record { protocol_fee_account = 31 ∷ [] });
  fetch_compare_duel = λ k. none;
  fetch_deposit = λ k. none;
  account_exists = λ k. none;
}

abbrev texts : TextLibrary
texts = record { trim = λ t. t; to_upper_case = λ t. t }

abbrev form : MarketForm
form = record {
  name_a = "Cats";
  symbol_a = "CAT";
  name_b = "Dogs";
  symbol_b = "DOG";
  duration_hours = 24;
}

day_run : (twap_window_of 24 ≡ 21600) × (twap_interval_of 24 ≡ 30)
unfolding twap_window_of twap_interval_of
day_run = (refl, refl)

-- The account of the creator is not confirmed, so nothing else is sent.
only_account :
    handle_create sol chain texts form false (some (7 ∷ [])) (λ k. false) false 1000 1
    ≡ (prepare (create_associated_token_account (7 ∷ []) (2 ∷ 7 ∷ []) (7 ∷ []) (2 ∷ [])) ∷ []) ∷ []
unfolding handle_create can_create send_creation fee_account_after find_market_pda u64_le
only_account = refl

abbrev hours : ℕ
hours = 24

long : 1002 + 10 ≤ deadline_of 1000 hours
unfolding deadline_of
long = omega arith

schedule-accepted_example :
    (accepts_schedule 10 1002
        (deadline_of 1000 hours)
        (twap_window_of hours)
        (twap_interval_of hours)
      ≡ true)
    × (twap_window_of hours / twap_interval_of hours ≤ 791)
schedule-accepted_example = schedule-accepted hours 1000 1002 10 (omega arith) (omega arith) long

abbrev duel_form : CompareForm
duel_form = record {
  token_a_mint = some (51 ∷ []);
  token_b_mint = some (52 ∷ []);
  oracle_a = some (53 ∷ []);
  oracle_b = some (54 ∷ []);
  same_mint = false;
  duration_hours = 24;
  min_deposit_lamports = some 10000000;
}

abbrev params : CompareParams
params = record {
  deadline = deadline_of 1 24;
  twap_window = twap_window_of 24;
  twap_interval = twap_interval_of 24;
  min_deposit = 10000000;
  oracle_a = 53 ∷ [];
  oracle_b = 54 ∷ [];
  token_a_mint = 51 ∷ [];
  token_b_mint = 52 ∷ [];
  creator_fee_account = 2 ∷ 7 ∷ [];
}
