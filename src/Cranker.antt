-- ===== src/Cranker.antt =====
-- The TWAP cranker, backend/src/cranker.ts: one call of `crankerLoop`. What the chain answers, and
-- whether a shutdown signal arrives while the loop waits, are inputs of the model.
pub mod Gates
pub mod Laws
pub mod Daemon
mod Tests
use duel_protocol.Prelude.{
  ℕ, ◌+◌, ◌-◌, ◌*◌, ◌/◌, Option, none, some, Bool, true, false, List, [], ◌∷◌, ◌++◌, leb, ltb, ◌==◌,
  ◌&&◌, ◌||◌, not, max, if◌then◌else◌,
}

pub data Status : Type 0 where
  active twap_observation resolved : Status

-- The fields of `MarketData.account` that the loop reads. Times are whole seconds.
pub record Account : Type 0 where
  pub deadline : ℕ
  pub twap_window : ℕ
  pub twap_interval : ℕ
  pub status : Status
  pub twap_samples_count : ℕ
  pub last_sample_ts : ℕ

abbrev pub is_resolved : Status → Bool
is_resolved resolved = true
is_resolved _ = false

-- BigInt division throws on a zero divisor, which the first test rules out.
unfoldable pub determine_expected_winner : ℕ → ℕ → ℕ → ℕ → ℕ → ℕ
determine_expected_winner acc_a acc_b samples quote_vault_a quote_vault_b =
    if samples == 0
    then 0
    else (let final_twap_a = acc_a / samples in
        let final_twap_b = acc_b / samples in
        if ltb final_twap_b final_twap_a
        then 0
        else if ltb final_twap_a final_twap_b
        then 1
        else if leb quote_vault_b quote_vault_a
        then 0
        else 1)

-- `now >= dl - twWindow && now <= dl`, over the integers.
unfoldable pub in_twap_window : ℕ → Account → Bool
in_twap_window now m = leb m.deadline (now + m.twap_window) && leb now m.deadline

-- `lastSample === 0 || now - lastSample >= twInterval`, over the integers.
unfoldable pub interval_elapsed : ℕ → Account → Bool
interval_elapsed now m = m.last_sample_ts == 0 || leb (m.last_sample_ts + m.twap_interval) now

-- `twapSamplesCount < minSamples` with
-- `minSamples = Math.max(1, Math.floor(Math.max(1, twWindow / twInterval) / 2))`. A zero interval
-- makes the quotient Infinity, which no count reaches, or NaN at a zero window, which no count is
-- less than.
unfoldable pub too_few_samples : Account → Bool
too_few_samples m =
    if m.twap_interval == 0
    then not (m.twap_window == 0)
    else ltb m.twap_samples_count (max 1 (max 1 (m.twap_window / m.twap_interval) / 2))

-- What the loop does about one market that is not resolved.
pub data Decision : Type 0 where
  sample wait starve resolve : Decision

unfoldable pub decide : ℕ → Account → Decision
unfolding in_twap_window interval_elapsed too_few_samples
decide now m =
    if in_twap_window now m && interval_elapsed now m
    then sample
    else if leb m.deadline now && not (is_resolved m.status)
    then if too_few_samples m then starve else resolve
    else wait

-- The two sides and vaults, as fetched before a resolution.
pub record Sides : Type 0 where
  pub twap_accumulator_a : ℕ
  pub twap_accumulator_b : ℕ
  pub quote_vault_a : ℕ
  pub quote_vault_b : ℕ

-- The token accounts of the market: for the winning token and for wrapped SOL.
pub data Ata : Type 0 where
  token_ata wsol_ata : Ata

-- What happens around one market: a shutdown signal before its turn, whether the transaction of a
-- sample is confirmed, the accounts fetched (`none` when a fetch throws), whether each token account
-- of the market exists (`none` when `getAccountInfo` throws), whether the transaction that creates
-- those that do not is confirmed, and whether the resolution is.
pub record Replies : Type 0 where
  pub signalled : Bool
  pub sample_confirmed : Bool
  pub sides : Option Sides
  pub token_account : Option Bool
  pub wsol_account : Option Bool
  pub created : Bool
  pub resolve_confirmed : Bool

pub record Turn : Type 0 where
  pub market : ℕ
  pub account : Account
  pub replies : Replies

-- The transactions that the cranker sends, with the market's key: a sample, the creation of token
-- accounts, and a resolution with the winner that it expects.
pub data Sent : Type 0 where
  record_twap_sample : ℕ → Sent
  create_accounts : ℕ → List Ata → Sent
  resolve_and_graduate : ℕ → ℕ → Sent

pub record Cranker : Type 0 where
  pub is_shutting_down : Bool
  pub is_processing : Bool
  pub total_samples : ℕ
  pub total_resolutions : ℕ
  pub total_errors : ℕ
  pub sent : List Sent

abbrev submit : Cranker → Sent → Cranker
submit c msg = record c { sent = c.sent ++ msg ∷ [] }

abbrev pub fail : Cranker → Cranker
fail c = record c { total_errors = c.total_errors + 1 }

-- A sample that is not confirmed counts as an error; a dry run only logs.
unfoldable pub submit_sample : Bool → Turn → Cranker → Cranker
submit_sample dry_run t c =
    if dry_run
    then c
    else (let c' = submit c (record_twap_sample t.market) in
        if t.replies.sample_confirmed
        then record c' { total_samples = c'.total_samples + 1 }
        else fail c')

-- `createIx`, if it is not null.
unfoldable pub ensure_ata : Ata → Option Bool → Option (List Ata)
ensure_ata ata none = none
ensure_ata ata (some true) = some []
ensure_ata ata (some false) = some (ata ∷ [])

-- `ataIxs`: the second account is looked up only if the first look-up has not thrown.
unfoldable pub ata_ixs : Replies → Option (List Ata)
unfolding ensure_ata
ata_ixs r = elim (ensure_ata token_ata r.token_account) as (λ o. Option (List Ata)) [
  | none ↦ none
  | some token ↦ elim (ensure_ata wsol_ata r.wsol_account) as (λ o. Option (List Ata)) [
    | none ↦ none
    | some wsol ↦ some (token ++ wsol)
  ]
]

unfoldable pub submit_graduation : Turn → ℕ → Cranker → Cranker
submit_graduation t expected_winner c =
    let c' = submit c (resolve_and_graduate t.market expected_winner) in
    if t.replies.resolve_confirmed
    then record c' { total_resolutions = c'.total_resolutions + 1 }
    else fail c'

-- From the accounts of the market on: those that are missing are created first, in a transaction of
-- their own, and the resolution follows once that is confirmed.
unfoldable pub create_and_graduate : Option (List Ata) → Turn → ℕ → Cranker → Cranker
unfolding submit_graduation
create_and_graduate none t expected_winner c = fail c
create_and_graduate (some []) t expected_winner c = submit_graduation t expected_winner c
create_and_graduate (some (ix ∷ ixs)) t expected_winner c =
    let c' = submit c (create_accounts t.market (ix ∷ ixs)) in
    if t.replies.created then submit_graduation t expected_winner c' else fail c'

unfoldable pub resolve_with : Bool → Turn → Sides → Cranker → Cranker
unfolding ata_ixs create_and_graduate
resolve_with dry_run t s c =
    let expected_winner =
      determine_expected_winner s.twap_accumulator_a s.twap_accumulator_b
        t.account.twap_samples_count s.quote_vault_a s.quote_vault_b in
    if dry_run then c else create_and_graduate (ata_ixs t.replies) t expected_winner c

unfoldable pub submit_resolution : Bool → Turn → Cranker → Cranker
unfolding resolve_with
submit_resolution dry_run t c = elim t.replies.sides [
  | none ↦ fail c
  | some s ↦ resolve_with dry_run t s c
]

-- The branches of the body for each decision.
unfoldable pub perform : Decision → Bool → Turn → Cranker → Cranker
perform sample dry_run t c = submit_sample dry_run t c
perform wait dry_run t c = c
perform starve dry_run t c = c
perform resolve dry_run t c = submit_resolution dry_run t c

-- The body of the loop for one market.
unfoldable pub crank_market : ℕ → Bool → Turn → Cranker → Cranker
crank_market now dry_run t c = perform (decide now t.account) dry_run t c

-- `if (isShuttingDown) break`, after a signal that came while the loop waited.
abbrev pub signal : Turn → Cranker → Cranker
signal t c = record c { is_shutting_down = c.is_shutting_down || t.replies.signalled }

unfoldable pub crank_all : ℕ → Bool → List Turn → Cranker → Cranker
crank_all now dry_run [] c = c
crank_all now dry_run (t ∷ ts) c =
    let c' = signal t c in
    let rest = crank_all now dry_run ts (crank_market now dry_run t c') in
    if c'.is_shutting_down then c' else rest

-- `markets.filter((m) => !isResolved(m.account.status))`
unfoldable pub active_markets : List Turn → List Turn
active_markets [] = []
active_markets (t ∷ ts) =
    let rest = active_markets ts in if is_resolved t.account.status then rest else t ∷ rest

-- The body of the outer `try`; `markets` is `none` when `market.all()` throws.
unfoldable pub poll : ℕ → Bool → Option (List Turn) → Cranker → Cranker
poll now dry_run none c = fail c
poll now dry_run (some ts) c = crank_all now dry_run (active_markets ts) c

-- A second call while one is at work does nothing; `finally` clears `isProcessing`.
unfoldable pub cranker_loop : ℕ → Bool → Option (List Turn) → Cranker → Cranker
cranker_loop now dry_run markets c =
    if c.is_processing || c.is_shutting_down
    then c
    else (let busy = record c { is_processing = true } in
        let after = poll now dry_run markets busy in record after { is_processing = false })

-- `shutdown`: only the first call has an effect.
unfoldable pub shutdown : Cranker → Cranker
shutdown c = if c.is_shutting_down then c else record c { is_shutting_down = true }
