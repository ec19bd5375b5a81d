-- ===== src/App/Listing.antt =====
-- The lists of markets and of compare duels, app/app/duels/page.tsx and app/app/compare/page.tsx:
-- what is fetched from the chain, and its order. `Array.prototype.sort` is stable, as an insertion
-- sort is.
pub mod Laws
pub mod Tabs
mod Tests
use duel_protocol.Prelude.{
  ℕ, String, Option, none, some, Bool, List, [], ◌∷◌, ltb, leb, ◌==◌, ◌||◌, ◌&&◌, if◌then◌else◌,
}
use duel_protocol.Sdk.Solana.{PublicKey, ◌>>=◌}
use duel_protocol.App.{
  MarketPhase, active, twap, resolved, Schedule, get_market_phase, get_compare_phase,
}

-- `order`
unfoldable pub order : MarketPhase → ℕ
order active = 0
order twap = 1
order resolved = 2

-- Whether the comparison of two entries, by status and deadline, is at most 0: the difference of
-- their orders if it is not 0, else the second deadline less the first.
unfoldable pub not_after : MarketPhase → ℕ → MarketPhase → ℕ → Bool
unfolding order
not_after status_a deadline_a status_b deadline_b =
    if order status_a == order status_b
    then leb deadline_b deadline_a
    else ltb (order status_a) (order status_b)

-- The market's account, its names if it has them, and what the fetches of its vaults answer:
-- `none` where one of them throws.
pub record MarketEntry : Type 0 where
  pub public_key : PublicKey
  pub schedule : Schedule
  pub winner : Option ℕ
  pub name_a : Option String
  pub name_b : Option String
  pub symbol_a : Option String
  pub symbol_b : Option String
  pub vault_amounts : Option (ℕ × ℕ)

pub record MarketData : Type 0 where
  pub public_key : PublicKey
  pub name_a : String
  pub name_b : String
  pub symbol_a : String
  pub symbol_b : String
  pub deadline : ℕ
  pub status : MarketPhase
  pub reserve_a : ℕ
  pub reserve_b : ℕ
  pub winner : Option ℕ

-- `value ?? default`
abbrev pub or_else {ℓ} : {A : Type ℓ} → Option A → A → A
or_else none d = d
or_else (some a) d = a

unfoldable pub parse_market : ℕ → MarketEntry → MarketData
parse_market now_ms m = record {
  public_key = m.public_key;
  name_a = or_else m.name_a "Side A";
  name_b = or_else m.name_b "Side B";
  symbol_a = or_else m.symbol_a "A";
  symbol_b = or_else m.symbol_b "B";
  deadline = m.schedule.deadline;
  status = get_market_phase now_ms m.schedule;
  reserve_a = (or_else m.vault_amounts (0, 0)).0;
  reserve_b = (or_else m.vault_amounts (0, 0)).1;
  winner = m.winner;
}

unfoldable pub parse_markets : ℕ → List MarketEntry → List MarketData
unfolding parse_market
parse_markets now_ms [] = []
parse_markets now_ms (m ∷ ms) = parse_market now_ms m ∷ parse_markets now_ms ms

-- `parsed.sort(...)` of both pages, on what the comparison reads of an entry.
module _ {ℓ} {A : Type ℓ} (status : A → MarketPhase) (deadline : A → ℕ) where
  unfoldable pub insert_sorted : A → List A → List A
  insert_sorted a [] = a ∷ []
  insert_sorted a (b ∷ bs) =
      let rest = insert_sorted a bs in
      if not_after (status a) (deadline a) (status b) (deadline b) then a ∷ b ∷ bs else b ∷ rest

  unfoldable pub sort_parsed : List A → List A
  sort_parsed [] = []
  sort_parsed (a ∷ rest) = insert_sorted a (sort_parsed rest)

unfoldable pub fetch_from_chain : ℕ → List MarketEntry → List MarketData
fetch_from_chain now_ms ms = sort_parsed (λ m. m.status) (λ m. m.deadline) (parse_markets now_ms ms)

-- The account of a compare duel, and what the second page lists of it. The symbols are those of the
-- known tokens, or else shortened addresses.
pub record DuelEntry : Type 0 where
  pub public_key : PublicKey
  pub schedule : Schedule
  pub token_a_mint : PublicKey
  pub token_b_mint : PublicKey
  pub side_a_total : ℕ
  pub side_b_total : ℕ
  pub winner : Option ℕ

pub record CompareDuelData : Type 0 where
  pub public_key : PublicKey
  pub token_a_mint : PublicKey
  pub token_b_mint : PublicKey
  pub symbol_a : String
  pub symbol_b : String
  pub deadline : ℕ
  pub status : MarketPhase
  pub side_a_total : ℕ
  pub side_b_total : ℕ
  pub winner : Option ℕ

module _ (symbol_of : PublicKey → Option String) (shorten_address : PublicKey → String) where
  unfoldable pub parse_duel : ℕ → DuelEntry → CompareDuelData
  parse_duel now_ms d = record {
    public_key = d.public_key;
    token_a_mint = d.token_a_mint;
    token_b_mint = d.token_b_mint;
    symbol_a = or_else (symbol_of d.token_a_mint) (shorten_address d.token_a_mint);
    symbol_b = or_else (symbol_of d.token_b_mint) (shorten_address d.token_b_mint);
    deadline = d.schedule.deadline;
    status = get_compare_phase now_ms d.schedule;
    side_a_total = d.side_a_total;
    side_b_total = d.side_b_total;
    winner = d.winner;
  }

  unfoldable pub parse_duels : ℕ → List DuelEntry → List CompareDuelData
  unfolding parse_duel
  parse_duels now_ms [] = []
  parse_duels now_ms (d ∷ ds) = parse_duel now_ms d ∷ parse_duels now_ms ds

  unfoldable pub fetch_compare_duels : ℕ → List DuelEntry → List CompareDuelData
  fetch_compare_duels now_ms ds =
      sort_parsed (λ d. d.status) (λ d. d.deadline) (parse_duels now_ms ds)
