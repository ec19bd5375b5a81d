-- ===== src/Cranker/Laws/Messages.antt =====
-- What the chain's guards make of the transactions that the cranker sends.
use mathlib.Core.List.{Memᴰ}
use duel_protocol.Prelude.{ℕ, ◌^◌, ◌<◌, ◌≡◌, true, false, some, List, All}
use duel_protocol.Cranker.{
  Ata, Cranker, Turn, Sides, Sent, record_twap_sample, create_accounts, resolve_and_graduate,
  is_resolved, resolve, decide, ata_ixs,
}
use duel_protocol.Cranker.Gates.{accepts_sample, accepts_resolution, TokenVaults, can_graduate}
use duel_protocol.Cranker.Laws.{IsFitting}

-- What the chain guarantees of a market, and of its sides when they are fetched: the interval is
-- positive and the window below 2^32 seconds by the checks at creation, and the averages of the
-- 64-bit prices fit 64 bits.
pub record IsOnChain (t : Turn) : Type 0 where
  pub ticking : 0 < t.account.twap_interval
  pub short : t.account.twap_window < 2 ^ 32
  pub fits : (s : Sides) → t.replies.sides ≡ some s → IsFitting t.account s

-- The transaction is for a listed market, at the cranker's time. A sample is accepted. Token accounts
-- are created for a resolution, those that are missing. A resolution, for the sides fetched, is
-- accepted exactly when what goes into the pool is enough, whatever the vaults of tokens hold.
pub data IsJustified (now : ℕ) (ts : List Turn) : Sent → Type 0 where
  a_sample :
      {k : ℕ} (t : Turn)
      → Memᴰ t ts
      → t.market ≡ k
      → accepts_sample now t.account ≡ true
      → IsJustified now ts (record_twap_sample k)
  a_creation :
      {k : ℕ} {ixs : List Ata} (t : Turn)
      → Memᴰ t ts
      → t.market ≡ k
      → decide now t.account ≡ resolve
      → ata_ixs t.replies ≡ some ixs
      → IsJustified now ts (create_accounts k ixs)
  a_resolution :
      {k w : ℕ} (t : Turn) (s : Sides)
      → Memᴰ t ts
      → t.market ≡ k
      → t.replies.sides ≡ some s
      → ((v : TokenVaults) → accepts_resolution now t.account s v w ≡ can_graduate s v w)
      → IsJustified now ts (resolve_and_graduate k w)

abbrev AllJustified : ℕ → List Turn → Cranker → Type 0
AllJustified now ts c = All (IsJustified now ts) c.sent

-- A market that the loop comes to.
record IsDue (ts : List Turn) (t : Turn) : Type 0 where
  listed : Memᴰ t ts
  live : is_resolved t.account.status ≡ false
  onchain : IsOnChain t
