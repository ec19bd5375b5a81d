-- ===== src/Cranker/Gates.antt =====
-- What the program on the chain demands of the cranker's two transactions: the guards of
-- programs/duel/src/instructions/record_twap_sample.rs and resolve_and_graduate.rs that read the
-- market, the clock, the accumulators and the vaults.
use duel_protocol.Prelude.{
  ℕ, ◌+◌, ◌/◌, ◌%◌, ◌^◌, Bool, true, leb, ltb, ◌==◌, ◌&&◌, not, max, if◌then◌else◌,
}
use duel_protocol.Cranker.{Account, Sides, is_resolved}

-- The guards of `record_twap_sample` on the market and the clock.
unfoldable pub accepts_sample : ℕ → Account → Bool
accepts_sample now m =
    not (is_resolved m.status)
    && leb m.deadline (now + m.twap_window)
    && leb now m.deadline
    && (if ltb 0 m.last_sample_ts then leb (m.last_sample_ts + m.twap_interval) now else true)

-- `min_samples`, cut to 32 bits; a zero interval panics in the source and is refused at creation.
unfoldable pub min_samples : Account → ℕ
min_samples m = max (max (m.twap_window / m.twap_interval) 1 / 2) 1 % 2 ^ 32

-- The winner by the averages, cut to 64 bits, and by the vaults on a tie.
unfoldable pub winner : ℕ → ℕ → ℕ → ℕ → ℕ → ℕ
winner acc_a acc_b samples reserve_a reserve_b =
    let final_twap_a = acc_a / samples % 2 ^ 64 in
    let final_twap_b = acc_b / samples % 2 ^ 64 in
    if ltb final_twap_b final_twap_a
    then 0
    else if ltb final_twap_a final_twap_b
    then 1
    else if leb reserve_b reserve_a
    then 0
    else 1

-- The guards of `resolve_and_graduate` on the status, the clock and the number of samples.
unfoldable pub is_due : ℕ → Account → Bool
unfolding min_samples
is_due now m =
    not (is_resolved m.status) && leb m.deadline now && leb (min_samples m) m.twap_samples_count

-- The tokens left in the vaults of the two sides.
pub record TokenVaults : Type 0 where
  pub token_vault_a : ℕ
  pub token_vault_b : ℕ

-- `MIN_GRADUATION_RESERVE`, in lamports.
abbrev pub min_graduation_reserve : ℕ
min_graduation_reserve = 100000000

-- The guards on what goes into the pool: `sol_for_pool`, the winning vault once the losing reserve is
-- in it, and `tokens_available`.
unfoldable pub can_graduate : Sides → TokenVaults → ℕ → Bool
can_graduate s v winner' =
    let sol_for_pool = s.quote_vault_a + s.quote_vault_b in
    let tokens_available = if winner' == 0 then v.token_vault_a else v.token_vault_b in
    leb min_graduation_reserve sol_for_pool && ltb 0 tokens_available

-- All guards of `resolve_and_graduate` on the market, the clock, the sides and the vaults. Those on
-- the accounts passed, and the steps after the guards with their calls of other programs, are left
-- out.
unfoldable pub accepts_resolution : ℕ → Account → Sides → TokenVaults → ℕ → Bool
accepts_resolution now m s v expected_winner =
    let winner' =
      winner s.twap_accumulator_a s.twap_accumulator_b m.twap_samples_count s.quote_vault_a
        s.quote_vault_b in
    is_due now m && winner' == expected_winner && can_graduate s v winner'
