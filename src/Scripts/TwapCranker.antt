-- ===== src/Scripts/TwapCranker.antt =====
-- The first TWAP cranker, scripts/cranker.ts: one call of its `crankerLoop`, as the transactions
-- that it sends. It keeps no counters: whether a transaction is confirmed is only logged, but for
-- the one that creates accounts.
pub mod Turns
pub mod Resolution
pub mod Laws
mod Tests
use mathlib.Core.Option
use duel_protocol.Prelude.{
  ℕ, ◌+◌, ◌/◌, Option, none, some, Bool, true, false, List, [], ◌∷◌, ◌++◌, leb, ltb, ◌==◌, ◌&&◌,
  ◌||◌, not, max, if◌then◌else◌,
}
use duel_protocol.Sdk.Solana.{◌>>=◌}
use duel_protocol.Cranker.{Account, Status, resolved, Sides}

-- The token accounts of the market: for the winning token and for wrapped SOL.
pub data Ata : Type 0 where
  token_ata wsol_ata : Ata

-- What the chain answers about one market: the accounts fetched (`none` when a fetch throws),
-- whether each token account exists (`none` when `getAccountInfo` throws), whether their creation
-- is confirmed, and whether the sample and the resolution are.
pub record Replies : Type 0 where
  pub sides : Option Sides
  pub token_account : Option Bool
  pub wsol_account : Option Bool
  pub created : Bool
  pub sample_confirmed : Bool
  pub resolve_confirmed : Bool

pub record MarketData : Type 0 where
  pub key : ℕ
  pub account : Account
  pub replies : Replies

-- The transactions, with the market's key.
pub data Transaction : Type 0 where
  sample_tx : ℕ → Transaction
  ata_tx : ℕ → List Ata → Transaction
  resolve_tx : ℕ → ℕ → Transaction

abbrev pub is_resolved : Status → Bool
is_resolved resolved = true
is_resolved _ = false

unfoldable pub determine_expected_winner : Sides → ℕ → ℕ
determine_expected_winner s samples =
    if samples == 0
    then 0
    else (let final_twap_a = s.twap_accumulator_a / samples in
        let final_twap_b = s.twap_accumulator_b / samples in
        if ltb final_twap_b final_twap_a
        then 0
        else if ltb final_twap_a final_twap_b
        then 1
        else if leb s.quote_vault_b s.quote_vault_a
        then 0
        else 1)

-- The instructions needed for an account: none when it exists.
unfoldable pub ensure_ata : Ata → Option Bool → Option (List Ata)
ensure_ata ata none = none
ensure_ata ata (some true) = some []
ensure_ata ata (some false) = some (ata ∷ [])

-- `ataIxs`
unfoldable pub ata_ixs : Replies → Option (List Ata)
unfolding ensure_ata
ata_ixs r = do
  token ← ensure_ata token_ata r.token_account
  wsol ← ensure_ata wsol_ata r.wsol_account
  some (token ++ wsol)

-- The transactions from the creation of the accounts on; a failed creation ends the attempt.
unfoldable pub send_resolution : ℕ → Bool → ℕ → Option (List Ata) → List Transaction
send_resolution key created winner none = []
send_resolution key created winner (some []) = resolve_tx key winner ∷ []
send_resolution key created winner (some (ix ∷ ixs)) =
    ata_tx key (ix ∷ ixs) ∷ (if created then resolve_tx key winner ∷ [] else [])

-- The second `try`.
unfoldable pub resolve_market : Bool → MarketData → Option Sides → List Transaction
unfolding determine_expected_winner ata_ixs send_resolution
resolve_market dry_run m none = []
resolve_market dry_run m (some s) =
    let expected_winner = determine_expected_winner s m.account.twap_samples_count in
    if dry_run
    then []
    else send_resolution m.key m.replies.created expected_winner (ata_ixs m.replies)

-- `twapSamplesCount < minSamples`; a zero interval makes the quotient Infinity, or NaN at a zero
-- window.
unfoldable pub insufficient : Account → Bool
insufficient a =
    if a.twap_interval == 0
    then not (a.twap_window == 0)
    else ltb a.twap_samples_count (max 1 (max 1 (a.twap_window / a.twap_interval) / 2))

-- The body of the loop, over the integers.
unfoldable pub crank_market : ℕ → Bool → MarketData → List Transaction
unfolding insufficient resolve_market
crank_market now dry_run m =
    let a = m.account in
    let in_twap_window = leb a.deadline (now + a.twap_window) && leb now a.deadline in
    let interval_elapsed = a.last_sample_ts == 0 || leb (a.last_sample_ts + a.twap_interval) now in
    if in_twap_window && interval_elapsed
    then if dry_run then [] else sample_tx m.key ∷ []
    else if leb a.deadline now && not (is_resolved a.status)
    then if insufficient a then [] else resolve_market dry_run m m.replies.sides
    else []

-- The loop over the markets that the filter keeps.
unfoldable pub crank_all : ℕ → Bool → List MarketData → List Transaction
crank_all now dry_run [] = []
crank_all now dry_run (m ∷ ms) =
    let rest = crank_all now dry_run ms in
    if is_resolved m.account.status then rest else crank_market now dry_run m ++ rest

-- `markets` is `none` when `market.all()` throws.
unfoldable pub cranker_loop : ℕ → Bool → Option (List MarketData) → List Transaction
unfolding crank_all
cranker_loop now dry_run none = []
cranker_loop now dry_run (some markets) = crank_all now dry_run markets
