-- ===== src/App/Listing/Tests.antt =====
-- A list of three markets in order.
use mathlib.Core.List.{Permᴰ}
use duel_protocol.Prelude.{ℕ, ◌≡◌, refl, none, Bool, true, false, List, [], ◌∷◌, map}
use duel_protocol.App.{get_market_phase}
use duel_protocol.App.Listing.{
  MarketEntry, parse_markets, fetch_from_chain, sort_parsed, insert_sorted, not_after, order,
}
use duel_protocol.App.Listing.Laws.{IsOrdered, fetch_from_chain-IsOrdered}

abbrev entry : ℕ → ℕ → Bool → MarketEntry
entry k deadline done = record {
  public_key = k ∷ [];
  schedule = record { deadline = deadline; twap_window = 10; is_resolved = done };
  winner = none;
  name_a = none;
  name_b = none;
  symbol_a = none;
  symbol_b = none;
  vault_amounts = none;
}

abbrev entries : List MarketEntry
entries = entry 1 50 true ∷ entry 2 90 false ∷ entry 3 95 false ∷ entry 4 45 false ∷ []

-- At second 40 the fourth is in its window.
listed_run :
    map (λ m. m.public_key) (fetch_from_chain 40000 entries)
    ≡ (3 ∷ []) ∷ (2 ∷ []) ∷ (4 ∷ []) ∷ (1 ∷ []) ∷ []
unfolding fetch_from_chain parse_markets sort_parsed insert_sorted not_after order get_market_phase
listed_run = refl

fetch_from_chain-IsOrdered_example :
    Permᴰ (parse_markets 40000 entries) (fetch_from_chain 40000 entries)
    × IsOrdered (λ m. m.status) (λ m. m.deadline) (fetch_from_chain 40000 entries)
fetch_from_chain-IsOrdered_example = fetch_from_chain-IsOrdered 40000 entries
