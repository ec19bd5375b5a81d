-- ===== src/App/Duel/Fetch/Laws.antt =====
-- What a fetch leaves on the page of a market.
use duel_protocol.Prelude.{
  ℕ, ◌≡◌, refl, sym, ◌∙◌, Option, none, some, some-inj, none-ne-some, false,
}
use duel_protocol.Sdk.Solana.{PublicKey, Solana}
use duel_protocol.Sdk.Client.{Chain, MarketData, SideData}
use duel_protocol.App.{Schedule}
use duel_protocol.App.Duel.{Page}
use duel_protocol.App.Duel.Fetch.{
  Fetched, Balances, set_reserves, set_user_balances, set_sides, set_market, fetch_data, page_of,
}

-- A fetch gives what the chain holds, or throws.
pub data IsAnswer {ℓ} {A : Type ℓ} (held : Option A) : Option A → Type ℓ where
  thrown : IsAnswer held none
  answered : {answer : Option A} → answer ≡ held → IsAnswer held answer

-- The market on the page is the chain's, and so are its sides, which come with their market.
pub record IsHeld (truth : Chain) (market_key : PublicKey) (s : Fetched) : Type 0 where
  pub market : (m : MarketData) → s.market ≡ some m → truth.fetch_market market_key ≡ some m
  pub side_a :
      (a : SideData)
      → s.side_a ≡ some a
      → (m : MarketData) × (s.market ≡ some m) × (truth.fetch_side m.side_a ≡ some a)
  pub side_b :
      (b : SideData)
      → s.side_b ≡ some b
      → (m : MarketData) × (s.market ≡ some m) × (truth.fetch_side m.side_b ≡ some b)

-- The same market and sides.
record IsSame (s s' : Fetched) : Type 0 where
  market : s'.market ≡ s.market
  side_a : s'.side_a ≡ s.side_a
  side_b : s'.side_b ≡ s.side_b

set_reserves-IsSame : (a b : Option ℕ) (s : Fetched) → IsSame s (set_reserves a b s)
unfolding set_reserves
set_reserves-IsSame (some a) (some b) s = record { market = refl; side_a = refl; side_b = refl }
set_reserves-IsSame (some a) none s = record { market = refl; side_a = refl; side_b = refl }
set_reserves-IsSame none b s = record { market = refl; side_a = refl; side_b = refl }

module _ (sol : Solana) (chain truth : Chain) (balances : Balances) (market_key : PublicKey) where
  set_user_balances-IsSame :
      (a b : SideData) (user : Option PublicKey) (s : Fetched)
      → IsSame s (set_user_balances sol chain balances a b user s)
  unfolding set_user_balances
  set_user_balances-IsSame a b none s = record { market = refl; side_a = refl; side_b = refl }
  set_user_balances-IsSame a b (some user) s = record {
    market = refl;
    side_a = refl;
    side_b = refl;
  }

  IsHeld-same :
      (s s' : Fetched) → IsSame s s' → IsHeld truth market_key s → IsHeld truth market_key s'
  IsHeld-same s s' same held = record {
    market = λ m at. held.market m (sym same.market ∙ at);
    side_a = λ a at.
        let (m, there, fetched) = held.side_a a (sym same.side_a ∙ at) in
        (m, same.market ∙ there, fetched);
    side_b = λ b at.
        let (m, there, fetched) = held.side_b b (sym same.side_b ∙ at) in
        (m, same.market ∙ there, fetched);
  }

  module _ (m : MarketData) where
    set_sides-IsHeld :
        (oa ob : Option SideData) (user : Option PublicKey) (s : Fetched)
        → s.market ≡ some m
        → IsAnswer (truth.fetch_side m.side_a) oa
        → IsAnswer (truth.fetch_side m.side_b) ob
        → IsHeld truth market_key s
        → IsHeld truth market_key (set_sides sol chain balances oa ob user s)
    unfolding set_sides
    set_sides-IsHeld (some a) (some b) user s here (answered is_a) (answered is_b) held =
        let both = record s { side_a = some a; side_b = some b } in
        let reserves =
          set_reserves (balances.vault a.quote_reserve_vault) (balances.vault b.quote_reserve_vault)
            both in
        let held_both : IsHeld truth market_key both = record {
          market = held.market;
          side_a = λ a' at. (m, here, sym is_a ∙ at);
          side_b = λ b' at. (m, here, sym is_b ∙ at);
        } in
        IsHeld-same reserves (set_user_balances sol chain balances a b user reserves)
          (set_user_balances-IsSame a b user reserves)
          (IsHeld-same both reserves
            (set_reserves-IsSame (balances.vault a.quote_reserve_vault)
              (balances.vault b.quote_reserve_vault) both)
            held_both)
    set_sides-IsHeld (some a) none user s here got_a got_b held = held
    set_sides-IsHeld none ob user s here got_a got_b held = held

  set_market-IsHeld :
      (om : Option MarketData) (user : Option PublicKey) (s : Fetched)
      → IsAnswer (truth.fetch_market market_key) om
      → ((k : PublicKey) → IsAnswer (truth.fetch_side k) (chain.fetch_side k))
      → IsHeld truth market_key s
      → IsHeld truth market_key (set_market sol chain balances om user s)
  unfolding set_market
  set_market-IsHeld none user s got sides held = held
  set_market-IsHeld (some m) user s (answered is_m) sides held =
      set_sides-IsHeld m (chain.fetch_side m.side_a) (chain.fetch_side m.side_b) user
        (record s { market = some m }) refl (sides m.side_a) (sides m.side_b)
        (record {
          market = λ m' at. sym is_m ∙ at;
          side_a = λ a at.
              let (m', there, fetched) = held.side_a a at in
              let same : m' ≡ m = some-inj (sym (held.market m' there) ∙ sym is_m) in (m, refl, cc);
          side_b = λ b at.
              let (m', there, fetched) = held.side_b b at in
              let same : m' ≡ m = some-inj (sym (held.market m' there) ∙ sym is_m) in (m, refl, cc);
        })

  -- Where every fetch gives what the chain holds or throws, a fetch keeps the market on the page
  -- the chain's, and its sides those of that market, and ends the loading.
  pub fetch_data-IsHeld :
      (user : Option PublicKey) (s : Fetched)
      → IsAnswer (truth.fetch_market market_key) (chain.fetch_market market_key)
      → ((k : PublicKey) → IsAnswer (truth.fetch_side k) (chain.fetch_side k))
      → IsHeld truth market_key s
      → IsHeld truth market_key (fetch_data sol chain balances market_key user s)
        × ((fetch_data sol chain balances market_key user s).loading ≡ false)
  unfolding fetch_data
  fetch_data-IsHeld user s market sides held =
      let after = set_market sol chain balances (chain.fetch_market market_key) user s in
      let kept = set_market-IsHeld (chain.fetch_market market_key) user s market sides held in
      (
        IsHeld-same after (record after { loading = false })
            (record { market = refl; side_a = refl; side_b = refl }) kept,
        refl,
      )

-- What the handlers find on the page is what the chain holds.
pub record IsChains (truth : Chain) (page : Page) : Type 0 where
  pub market : truth.fetch_market page.market_key ≡ some page.market
  pub side_a : truth.fetch_side page.market.side_a ≡ some page.side_a
  pub side_b : truth.fetch_side page.market.side_b ≡ some page.side_b

-- Where the page holds what the chain does, so do the market and sides that the handlers take.
pub page_of-IsChains :
    (truth : Chain) (market_key : PublicKey) (schedule : Schedule) (selected : ℕ) (s : Fetched)
    (page : Page)
    → IsHeld truth market_key s
    → page_of market_key schedule selected s.market s.side_a s.side_b ≡ some page
    → IsChains truth page
unfolding page_of
page_of-IsChains truth market_key schedule selected s page held got =
    from s.market s.side_a s.side_b refl refl refl got
  where
    from :
        (om : Option MarketData) (oa ob : Option SideData)
        → s.market ≡ om
        → s.side_a ≡ oa
        → s.side_b ≡ ob
        → page_of market_key schedule selected om oa ob ≡ some page
        → IsChains truth page
    from (some m) (some a) (some b) is_m is_a is_b made =
        let (m', there, at_a) = held.side_a a is_a in
        let (m'', there', at_b) = held.side_b b is_b in
        let at_m = held.market m is_m in
        let same : m' ≡ m = some-inj (sym there ∙ is_m) in
        let same' : m'' ≡ m = some-inj (sym there' ∙ is_m) in
        let page' = some-inj made in rw⁻¹ page' (record { market = at_m; side_a = cc; side_b = cc })
    from none oa ob is_m is_a is_b made = absurd (none-ne-some made)
    from (some m) none ob is_m is_a is_b made = absurd (none-ne-some made)
    from (some m) (some a) none is_m is_a is_b made = absurd (none-ne-some made)
