-- ===== src/Cranker/Tests.antt =====
-- Runs of the cranker, and instances of its theorems.
use duel_protocol.Prelude.{ℕ, ◌≡◌, ◌↔◌, refl, true, false, some, List, [], ◌∷◌, arith}
use duel_protocol.Cranker.{
  Account, Cranker, Turn, Sides, Replies, token_ata, ata_ixs, ensure_ata, create_and_graduate,
  record_twap_sample, create_accounts, resolve_and_graduate, sample, resolve, decide,
  twap_observation, submit_sample, submit_resolution, perform, crank_market, crank_all,
  active_markets, poll, cranker_loop, determine_expected_winner,
}
use duel_protocol.Cranker.Gates.{
  accepts_sample, accepts_resolution, winner, TokenVaults, can_graduate,
}
use duel_protocol.Cranker.Laws.{
  IsFitting, expected, decide-eq-sample_iff, decide-eq-resolve_iff,
  determine_expected_winner-winner,
}

-- A market that ends at second 1000, watched from second 700 every 30 seconds.
abbrev watched : ℕ → ℕ → Account
watched samples last = record {
  deadline = 1000;
  twap_window = 300;
  twap_interval = 30;
  status = twap_observation;
  twap_samples_count = samples;
  last_sample_ts = last;
}

abbrev fetched : Sides
fetched = record {
  twap_accumulator_a = 50;
  twap_accumulator_b = 60;
  quote_vault_a = 70000000;
  quote_vault_b = 90000000;
}

abbrev replies : Replies
replies = record {
  signalled = false;
  sample_confirmed = true;
  sides = some fetched;
  token_account = some false;
  wsol_account = some true;
  created = true;
  resolve_confirmed = false;
}

abbrev turn : ℕ → Account → Turn
turn key account' = record { market = key; account = account'; replies = replies }

abbrev idle : Cranker
idle = record {
  is_shutting_down = false;
  is_processing = false;
  total_samples = 0;
  total_resolutions = 0;
  total_errors = 0;
  sent = [];
}

abbrev turns : List Turn
turns = turn 11 (watched 5 900) ∷ turn 12 (watched 4 900) ∷ turn 13 (watched 4 970) ∷ []

loop_run : cranker_loop 1000 false (some turns) idle ≡ record idle {
  total_samples = 3;
  sent = record_twap_sample 11 ∷ record_twap_sample 12 ∷ record_twap_sample 13 ∷ [];
}
unfolding cranker_loop poll crank_all active_markets crank_market perform decide submit_sample
loop_run = refl

late_run : cranker_loop 1001 false (some turns) idle ≡ record idle {
  total_errors = 1;
  sent = create_accounts 11 (token_ata ∷ []) ∷ resolve_and_graduate 11 1 ∷ [];
}
unfolding cranker_loop poll crank_all active_markets crank_market perform decide submit_resolution
    ata_ixs ensure_ata create_and_graduate determine_expected_winner
late_run = refl

decide-eq-sample_iff_example :
    (decide 800 (watched 2 760) ≡ sample) ↔ (accepts_sample 800 (watched 2 760) ≡ true)
decide-eq-sample_iff_example = decide-eq-sample_iff 800 (watched 2 760) refl

abbrev token_vaults : TokenVaults
token_vaults = record { token_vault_a = 500; token_vault_b = 400 }

fetched-IsFitting : IsFitting (watched 5 990) fetched
fetched-IsFitting = record { fits_a = omega arith; fits_b = omega arith }

graduates : can_graduate fetched token_vaults (expected (watched 5 990) fetched) ≡ true
unfolding can_graduate determine_expected_winner
graduates = refl

decide-eq-resolve_iff_example : (decide 1001 (watched 5 990) ≡ resolve) ↔ (
    (accepts_resolution 1001 (watched 5 990) fetched token_vaults (expected (watched 5 990) fetched)
      ≡ true)
    × (accepts_sample 1001 (watched 5 990) ≡ false))
decide-eq-resolve_iff_example =
    decide-eq-resolve_iff 1001 (watched 5 990) fetched token_vaults refl (omega arith) (omega arith)
      fetched-IsFitting graduates

determine_expected_winner-winner_example :
    determine_expected_winner 50 60 5 7 9 ≡ winner 50 60 5 7 9
determine_expected_winner-winner_example =
    determine_expected_winner-winner 50 60 5 7 9 (omega arith) (omega arith) (omega arith)
