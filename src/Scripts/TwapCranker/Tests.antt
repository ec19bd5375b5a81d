-- ===== src/Scripts/TwapCranker/Tests.antt =====
-- Runs of the first cranker, and its agreement with the backend's on a market past its deadline.
use mathlib.Core.Option
use duel_protocol.Prelude.{ℕ, ◌≡◌, refl, Option, some, Bool, true, false, List, [], ◌∷◌, ◌++◌}
use duel_protocol.Cranker
use duel_protocol.Cranker.{Cranker, Account, active, Sides}
use duel_protocol.Scripts.TwapCranker.{
  token_ata, MarketData, sample_tx, ata_tx, resolve_tx, cranker_loop, crank_all, crank_market,
  resolve_market, insufficient, determine_expected_winner, ata_ixs, ensure_ata, send_resolution,
}
use duel_protocol.Scripts.TwapCranker.Turns.{messages, as_turns}
use duel_protocol.Scripts.TwapCranker.Laws.{cranker_loop-sent}

abbrev account : ℕ → Account
account last = record {
  deadline = 1000;
  twap_window = 100;
  twap_interval = 10;
  status = active;
  twap_samples_count = 8;
  last_sample_ts = last;
}

abbrev sides : Sides
sides = record {
  twap_accumulator_a = 80;
  twap_accumulator_b = 160;
  quote_vault_a = 5;
  quote_vault_b = 6;
}

abbrev market : ℕ → Bool → MarketData
market key created = record {
  key = key;
  account = account 950;
  replies = record {
    sides = some sides;
    token_account = some false;
    wsol_account = some true;
    created = created;
    sample_confirmed = true;
    resolve_confirmed = true;
  };
}

-- The second market's account is not created, so its resolution is not sent.
resolves :
    cranker_loop 1001 false (some (market 1 true ∷ market 2 false ∷ []))
    ≡ ata_tx 1 (token_ata ∷ []) ∷ resolve_tx 1 1 ∷ ata_tx 2 (token_ata ∷ []) ∷ []
unfolding cranker_loop crank_all crank_market resolve_market insufficient determine_expected_winner
    ata_ixs ensure_ata send_resolution
resolves = refl

samples : cranker_loop 1000 false (some (market 1 true ∷ [])) ≡ sample_tx 1 ∷ []
unfolding cranker_loop crank_all crank_market
samples = refl

abbrev idle : Cranker
idle = record {
  is_shutting_down = false;
  is_processing = false;
  total_samples = 0;
  total_resolutions = 0;
  total_errors = 0;
  sent = [];
}

abbrev markets : Option (List MarketData)
markets = some (market 1 true ∷ market 2 false ∷ [])

cranker_loop-sent_example :
    (Cranker.cranker_loop 1001 false (Option.map as_turns markets) idle).sent
    ≡ idle.sent ++ messages (cranker_loop 1001 false markets)
cranker_loop-sent_example = cranker_loop-sent 1001 false markets idle refl refl
