-- ===== src/Rpc.antt =====
-- What sdk/src/indexer.ts, backend/src/indexer.ts and scripts/indexer.ts use of a connection and of
-- Anchor's event parser, and the loop over batches of signatures that they have.
pub mod Batches
use duel_protocol.Prelude.{
  ℕ, zero, suc, Option, none, some, Bool, List, [], ◌∷◌, ◌≡◌, map, String, take, drop,
  if◌then◌else◌,
}
use duel_protocol.Sdk.Solana.{◌>>=◌}

pub record Signature : Type 0 where
  pub signature : String
  pub slot : ℕ

-- `tx.meta`: whether `err` is set, and `logMessages`, which may be missing.
pub record Meta : Type 0 where
  pub err : Bool
  pub log_messages : Option (List String)

pub record Transaction : Type 0 where
  pub slot : ℕ
  pub meta : Option Meta

-- `tx.meta.logMessages || []`
abbrev or_empty : Option (List String) → List String
or_empty none = []
or_empty (some logs) = logs

-- The slot and the logs; `none` is `if (!tx || !tx.meta || tx.meta.err) continue`.
unfoldable pub usable_logs : Option Transaction → Option (ℕ × List String)
usable_logs none = none
usable_logs (some tx) = do
  meta' ← tx.meta
  if meta'.err then none else some (tx.slot, or_empty meta'.log_messages)

-- `none` is an error of the call; a transaction that is not found is `none` in the list.
pub record Connection : Type 0 where
  pub get_signatures_for_address : ℕ → Option (List Signature)
  pub get_transactions : List String → Option (List (Option Transaction))

-- `getTransactions` answers, and looks up each signature by itself.
pub record IsLookup (connection : Connection) (find : String → Option Transaction) : Type 0 where
  pub found : (s : List String) → connection.get_transactions s ≡ some (map find s)

-- `for (let i = 0; i < xs.length; i += 20)` over the slices from `i`; `fuel` is the length of the
-- list, and the rest of the list stands for `i`.
unfoldable pub each_batch {ℓ κ} :
    {A : Type ℓ} {S : Type κ} → ℕ → (List A → S → Option S) → List A → S → Option S
each_batch zero f xs s = some s
each_batch (suc fuel) f [] s = some s
each_batch (suc fuel) f (x ∷ xs) s = do
  s' ← f (take 20 (x ∷ xs)) s
  each_batch fuel f (drop 20 (x ∷ xs)) s'
