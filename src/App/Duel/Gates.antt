-- ===== src/App/Duel/Gates.antt =====
-- What a trade meets on the chain, in programs/duel/src/instructions/buy_tokens.rs, sell_tokens.rs
-- and sell_post_resolution.rs: for a purchase the guards on the market, the clock and the
-- configuration, for a sale also those on the quote of the curve and on the vault. The guards on the
-- accounts passed, and the transfers, are left out.
use duel_protocol.Prelude.{ℕ, Bool, true, false, Option, none, some, ltb, leb, ◌&&◌, not}

pub record Market : Type 0 where
  pub deadline : ℕ
  pub is_resolved : Bool
  pub winner : Option ℕ
  pub locked : Bool

abbrev pub is_none : Option ℕ → Bool
is_none none = true
is_none (some w) = false

-- `now` is `clock.unix_timestamp`.
unfoldable pub accepts_buy : Bool → ℕ → Market → ℕ → Bool
accepts_buy paused now m quote_amount =
    not paused && not m.is_resolved && ltb now m.deadline && ltb 0 quote_amount && not m.locked

-- What the curve gives for the tokens: before and after the trade fee, and what the vault holds.
pub record Quote : Type 0 where
  pub raw_quote : ℕ
  pub net_quote : ℕ
  pub vault_balance : ℕ

-- The pause, the status, the deadline, the amount, the lock, the slippage and the vault.
unfoldable pub accepts_sell : Bool → ℕ → Market → Quote → ℕ → ℕ → Bool
accepts_sell paused now m q token_amount min_quote_out =
    not paused
    && not m.is_resolved
    && ltb now m.deadline
    && ltb 0 token_amount
    && not m.locked
    && leb min_quote_out q.net_quote
    && leb q.raw_quote q.vault_balance

-- The same without the deadline, for a market resolved without a winner; no fee is taken.
unfoldable pub accepts_sell_post_resolution : Bool → Market → Quote → ℕ → ℕ → Bool
accepts_sell_post_resolution paused m q token_amount min_quote_out =
    not paused
    && m.is_resolved
    && is_none m.winner
    && not m.locked
    && ltb 0 token_amount
    && leb min_quote_out q.raw_quote
    && leb q.raw_quote q.vault_balance
