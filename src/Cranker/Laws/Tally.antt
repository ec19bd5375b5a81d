-- ===== src/Cranker/Laws/Tally.antt =====
-- What one market and one call may send, and what stops them.
use duel_protocol.Prelude.{
  ℕ, ◌+◌, ◌*◌, ◌≤◌, ◌≡◌, Bool, true, false, Option, none, some, List, [], ◌∷◌, ◌++◌, arith, length,
  length-append,
}
use duel_protocol.Cranker.{
  Ata, Cranker, Turn, Sides, Decision, sample, resolve, perform, signal, record_twap_sample,
  create_accounts, resolve_and_graduate, decide, submit_sample, submit_resolution, ata_ixs,
  determine_expected_winner, submit_graduation, create_and_graduate, resolve_with, crank_market,
  crank_all, active_markets, poll, cranker_loop, shutdown,
}

-- The cranker after a part of a turn that sends at most so many transactions.
pub record IsPart (n : ℕ) (c c' : Cranker) : Type 0 where
  pub at_most : length c'.sent ≤ length c.sent + n
  pub processing : c'.is_processing ≡ c.is_processing
  pub shutting : c'.is_shutting_down ≡ c.is_shutting_down

-- How a turn may move the cranker: it sends at most the creation of accounts and a resolution.
pub record IsTurn (dry_run : Bool) (c c' : Cranker) : Type 0 where
  pub at_most_two : length c'.sent ≤ length c.sent + 2
  pub silent : dry_run ≡ true → c'.sent ≡ c.sent
  pub processing : c'.is_processing ≡ c.is_processing
  pub shutting : c'.is_shutting_down ≡ c.is_shutting_down

submit_sample-IsTurn :
    (dry_run : Bool) (t : Turn) (c : Cranker) → IsTurn dry_run c (submit_sample dry_run t c)
unfolding submit_sample
submit_sample-IsTurn dry_run t c =
    ground (arith, length-append c.sent (record_twap_sample t.market ∷ []))

submit_graduation-IsPart : (t : Turn) (w : ℕ) (c : Cranker) → IsPart 1 c (submit_graduation t w c)
unfolding submit_graduation
submit_graduation-IsPart t w c =
    ground (arith, length-append c.sent (resolve_and_graduate t.market w ∷ []))

create_and_graduate-IsPart :
    (ixs : Option (List Ata)) (t : Turn) (w : ℕ) (c : Cranker)
    → IsPart 2 c (create_and_graduate ixs t w c)
unfolding create_and_graduate
create_and_graduate-IsPart none t w c = ground arith
create_and_graduate-IsPart (some []) t w c = ground (arith, submit_graduation-IsPart t w c)
create_and_graduate-IsPart (some (ix ∷ ixs)) t w c =
    let msg = create_accounts t.market (ix ∷ ixs) in
    let c' = record c { sent = c.sent ++ msg ∷ [] } in
    ground (arith, submit_graduation-IsPart t w c', length-append c.sent (msg ∷ []))

resolve_with-IsTurn :
    (dry_run : Bool) (t : Turn) (s : Sides) (c : Cranker)
    → IsTurn dry_run c (resolve_with dry_run t s c)
unfolding resolve_with
resolve_with-IsTurn true t s c = ground arith
resolve_with-IsTurn false t s c =
    let w =
      determine_expected_winner s.twap_accumulator_a s.twap_accumulator_b
        t.account.twap_samples_count s.quote_vault_a s.quote_vault_b in
    let part = create_and_graduate-IsPart (ata_ixs t.replies) t w c in
    record {
      at_most_two = part.at_most;
      silent = λ dry. cc;
      processing = part.processing;
      shutting = part.shutting;
    }

submit_resolution-IsTurn :
    (dry_run : Bool) (t : Turn) (c : Cranker) → IsTurn dry_run c (submit_resolution dry_run t c)
unfolding submit_resolution
submit_resolution-IsTurn dry_run t c = by_sides t.replies.sides
  where
    by_sides :
        (o : Option Sides)
        → IsTurn dry_run c (elim o as (λ x. Cranker) [
          | none ↦ record c { total_errors = c.total_errors + 1 }
          | some s ↦ resolve_with dry_run t s c
        ])
    by_sides none = ground arith
    by_sides (some s) = resolve_with-IsTurn dry_run t s c

perform-IsTurn :
    (d : Decision) (dry_run : Bool) (t : Turn) (c : Cranker)
    → IsTurn dry_run c (perform d dry_run t c)
unfolding perform
perform-IsTurn sample dry_run t c = submit_sample-IsTurn dry_run t c
perform-IsTurn resolve dry_run t c = submit_resolution-IsTurn dry_run t c
perform-IsTurn _ dry_run t c = ground arith

pub crank_market-IsTurn :
    (now : ℕ) (dry_run : Bool) (t : Turn) (c : Cranker)
    → IsTurn dry_run c (crank_market now dry_run t c)
unfolding crank_market
crank_market-IsTurn now dry_run t c = perform-IsTurn (decide now t.account) dry_run t c

-- How the loop over the markets may move it.
record IsRun (dry_run : Bool) (turns : ℕ) (c c' : Cranker) : Type 0 where
  at_most : length c'.sent ≤ length c.sent + 2 * turns
  silent : dry_run ≡ true → c'.sent ≡ c.sent
  processing : c'.is_processing ≡ c.is_processing
  stopped : c.is_shutting_down ≡ true → c'.sent ≡ c.sent

crank_all-IsRun :
    (now : ℕ) (dry_run : Bool) (ts : List Turn) (c : Cranker)
    → IsRun dry_run (length ts) c (crank_all now dry_run ts c)
unfolding crank_all
crank_all-IsRun now dry_run [] c = ground arith
crank_all-IsRun now dry_run (t ∷ ts) c = ground (
  arith,
  crank_market-IsTurn now dry_run t (signal t c),
  crank_all-IsRun now dry_run ts (crank_market now dry_run t (signal t c)),
)

length-active_markets : (ts : List Turn) → length (active_markets ts) ≤ length ts
unfolding active_markets
length-active_markets [] = omega arith
length-active_markets (t ∷ ts) = ground (arith, length-active_markets ts)

-- A call on listed markets sends at most two transactions for each of them, and leaves the flag
-- isProcessing as it was.
pub cranker_loop_limits :
    (now : ℕ) (dry_run : Bool) (ts : List Turn) (c : Cranker)
    → let c' = cranker_loop now dry_run (some ts) c in
      (length c'.sent ≤ length c.sent + 2 * length ts) × (c'.is_processing ≡ c.is_processing)
unfolding cranker_loop poll
cranker_loop_limits now dry_run ts c = ground (
  arith,
  length-active_markets ts,
  crank_all-IsRun now dry_run (active_markets ts) (record c { is_processing = true }),
)

-- A dry run sends nothing, and after a shutdown a call leaves the cranker as it is.
pub cranker_loop_quiet :
    (now : ℕ) (dry_run : Bool) (markets : Option (List Turn)) (c : Cranker)
    → ((cranker_loop now true markets c).sent ≡ c.sent)
      × (cranker_loop now dry_run markets (shutdown c) ≡ shutdown c)
unfolding cranker_loop poll shutdown
cranker_loop_quiet now dry_run none c = ground arith
cranker_loop_quiet now dry_run (some ts) c =
    ground (arith, crank_all-IsRun now true (active_markets ts) (record c { is_processing = true }))
