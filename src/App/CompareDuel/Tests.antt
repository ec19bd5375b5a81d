-- ===== src/App/CompareDuel/Tests.antt =====
-- The page of a compare duel on an example, and its laws there.
use duel_protocol.Prelude.{
  ℕ, ◌≡◌, ◌↔◌, refl, Option, none, some, Bool, true, false, [], ◌∷◌, ◌++◌, arith, ◌<◌,
}
use duel_protocol.Sdk.Solana.{PublicKey, Solana, codes}
use duel_protocol.Sdk.Client.{Chain, CompareDuelAccount, pick}
use duel_protocol.App.{get_compare_phase}
use duel_protocol.App.Transaction.{ignored}
use duel_protocol.App.CompareDuel.{
  CompareDuel, Deposit, can_deposit, can_withdraw, may_claim, pool_vault_of, handle_withdraw,
  use_countdown, hours_minutes_seconds, twap_progress,
}
use duel_protocol.App.CompareDuel.Gates.{State, same_key, accepts_deposit, withdraw}
use duel_protocol.App.CompareDuel.Laws.{IsFetched}
use duel_protocol.App.CompareDuel.Offers.{
  IsShown, fair_share, can_deposit-accepts_deposit_iff, can_withdraw-paid,
}

abbrev sol : Solana
sol = record {
  public_key = codes;
  find_program_address = λ s p. (9 ∷ [], 255);
  get_associated_token_address = λ mint owner off. some (mint ++ owner);
  token_program_id = 1 ∷ [];
  native_mint = 2 ∷ [];
  system_program_id = 3 ∷ [];
  sysvar_rent_pubkey = 4 ∷ [];
}

abbrev account : CompareDuelAccount
account = record {
  oracle_a = 41 ∷ [];
  oracle_b = 42 ∷ [];
  pool_vault_a = 43 ∷ [];
  pool_vault_b = 44 ∷ [];
  winner = some 1;
  creator_fee_account = 45 ∷ [];
  protocol_fee_account = 46 ∷ [];
}

abbrev chain : Chain
chain = record {
  fetch_market = λ k. none;
  fetch_side = λ k. none;
  fetch_config = λ k. none;
  fetch_compare_duel = λ k. some account;
  fetch_deposit = λ k. some (record { side = 1 });
  account_exists = λ k. none;
}

abbrev duel : Bool → Option ℕ → CompareDuel
duel done winner = record {
  schedule = record { deadline = 1000; twap_window = 100; is_resolved = done };
  pool_vault_a = 43 ∷ [];
  pool_vault_b = 44 ∷ [];
  winner = winner;
}

abbrev state : Bool → Option ℕ → State
state done winner = record {
  is_active = false;
  is_resolved = done;
  deadline = 1000;
  twap_window = 100;
  min_deposit = 10;
  winner = winner;
  side_a_total = 600;
  side_b_total = 400;
  net_pool = 990;
  pool_vault_a = 43 ∷ [];
  pool_vault_b = 44 ∷ [];
}

abbrev has_account : PublicKey → Bool
has_account k = true

abbrev key : PublicKey
key = 40 ∷ []

abbrev depositor : PublicKey
depositor = 7 ∷ []

fetched : IsFetched (duel true (some 1)) account
fetched = record { vault_a = refl; vault_b = refl; winner = refl }

not_loaded :
    handle_withdraw sol has_account key (duel true none) (some depositor) none true ≡ ignored
unfolding handle_withdraw
not_loaded = refl

abbrev deposit : Deposit
deposit = record { side = 1; amount = 40; withdrawn = false }

-- The winners share the net pool: 40 of 400 get a tenth of 990.
paid : withdraw (state true (some 1)) false 1 40 (44 ∷ []) ≡ some 99
unfolding withdraw same_key
paid = refl

-- After the deadline, before the chain has resolved the duel, the page offers a refund that the
-- program refuses.
offered_early :
    (can_withdraw 1000000 (duel false none) (some deposit) ≡ true)
    × (withdraw (state false none) false 1 40 (44 ∷ []) ≡ none)
unfolding can_withdraw may_claim get_compare_phase withdraw
offered_early = (refl, refl)

shown : (now : ℕ) → 899 < now → IsShown now (duel true (some 1)) (state true (some 1))
shown now late = record {
  deadline = refl;
  twap_window = refl;
  status = refl;
  winner = refl;
  vault_a = refl;
  vault_b = refl;
  one_status = refl;
  before_window = λ early open'. absurd (ground arith);
}

offer : can_withdraw 1000000 (duel true (some 1)) (some deposit) ≡ true
unfolding can_withdraw get_compare_phase may_claim
offer = refl

can_withdraw-paid_example :
    withdraw (state true (some 1)) false 1 40 (pool_vault_of (some 1) 1 (43 ∷ []) (44 ∷ []))
    ≡ some (fair_share (state true (some 1)) 40 (some 1))
can_withdraw-paid_example =
    can_withdraw-paid 1000000 (duel true (some 1)) (state true (some 1)) deposit
      (shown 1000 (omega arith))
      (record { some_amount = omega arith; counted = omega arith; fits = omega arith }) refl offer

abbrev early_state : State
early_state = record (state false none) { is_active = true }

early_shown : IsShown 500 (duel false none) early_state
early_shown = record {
  deadline = refl;
  twap_window = refl;
  status = refl;
  winner = refl;
  vault_a = refl;
  vault_b = refl;
  one_status = refl;
  before_window = λ early open'. refl;
}

abbrev amount : ℕ
amount = 50

can_deposit-accepts_deposit_iff_example :
    (can_deposit 500999 (duel false none) none ≡ true)
    ↔ (accepts_deposit false 500 early_state false 1 amount (pick 1 (43 ∷ []) (44 ∷ [])) ≡ true)
can_deposit-accepts_deposit_iff_example =
    can_deposit-accepts_deposit_iff false false 500999 (duel false none) early_state none 1 amount
      refl refl early_shown (omega arith) (omega arith)

clock_run : use_countdown 100 (some 3800) ≡ hours_minutes_seconds 1 1 40
unfolding use_countdown
clock_run = refl

progress_run :
    twap_progress 950 (duel false none).schedule 10 4 945
    ≡ some (record { elapsed = 50; current_samples = 4; max_samples = 10; next_sample_in = 5 })
unfolding twap_progress
progress_run = refl
