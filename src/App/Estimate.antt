-- ===== src/App/Estimate.antt =====
-- The estimates on the page of a market, app/app/duels/[id]/page.tsx, and the price of
-- app/app/lib/program.ts. Amounts are whole numbers, whose sums and products stay exact below 2^53:
-- so does `k * k` up to a supply of 94 million tokens.
pub mod WalkUp
pub mod Laws
mod Tests
use duel_protocol.Prelude.{
  ℕ, zero, suc, ◌+◌, ◌-◌, ◌*◌, ◌/◌, Option, none, some, Bool, ltb, leb, ◌==◌, ◌||◌, ◌&&◌, min,
  if◌then◌else◌,
}

abbrev pub total_supply : ℕ
total_supply = 1000000000

unfoldable pub calculate_price : ℕ → ℕ
calculate_price circulating_supply = circulating_supply * circulating_supply / 1000000000 + 1

abbrev step : ℕ
step = 100

-- The loop of `estimateTokensOut`: `none` means that the fuel ran out. The price is positive, so its
-- test for a price of zero or less is never met.
unfoldable pub walk_up : ℕ → ℕ → ℕ → ℕ → Option ℕ
unfolding calculate_price
walk_up zero remaining supply tokens = none
walk_up (suc fuel) remaining supply tokens =
    let price = calculate_price supply in
    let batch_cost = price * step in
    let on = walk_up fuel (remaining - batch_cost) (supply + step) (tokens + step) in
    if ltb 0 remaining && ltb supply total_supply
    then if leb batch_cost remaining then on else some (tokens + remaining / price)
    else some tokens

unfoldable pub estimate_tokens_out : ℕ → ℕ → Option ℕ
estimate_tokens_out current_circulating sol_lamports =
    if sol_lamports == 0 || leb total_supply current_circulating
    then some 0
    else walk_up ((total_supply - current_circulating) / step + 2) sol_lamports current_circulating
        0

-- The loop of `estimateSolOut`.
unfoldable pub walk_down : ℕ → ℕ → ℕ → ℕ → Option ℕ
unfolding calculate_price
walk_down zero remaining supply lamports = none
walk_down (suc fuel) remaining supply lamports =
    let batch = min step (min remaining supply) in
    let price = calculate_price (supply - batch) in
    let on = walk_down fuel (remaining - batch) (supply - batch) (lamports + price * batch) in
    if ltb 0 remaining && ltb 0 supply then on else some lamports

unfoldable pub estimate_sol_out : ℕ → ℕ → Option ℕ
estimate_sol_out current_circulating token_amount =
    if token_amount == 0 || current_circulating == 0
    then some 0
    else walk_down (token_amount / step + 2) token_amount current_circulating 0
