-- ===== src/Scripts/TwapCranker/Turns.antt =====
-- One market of the first cranker as a turn of the backend's, and the transactions that each sends
-- for it.
use duel_protocol.Prelude.{
  ℕ, ◌+◌, ◌≡◌, refl, sym, ◌∙◌, Option, none, some, Bool, true, false, List, [], ◌∷◌, ◌++◌, map,
  Bool-cases, inl, inr, if◌then◌else◌, arith,
}
use mathlib.Core.List.{append-nil, append_assoc}
use duel_protocol.Cranker
use duel_protocol.Cranker.{
  Cranker, Turn, Sent, Sides, record_twap_sample, create_accounts, resolve_and_graduate,
}
use duel_protocol.Scripts.TwapCranker.{
  Ata, token_ata, wsol_ata, ensure_ata, Replies, MarketData, Transaction, sample_tx, ata_tx,
  resolve_tx, determine_expected_winner, ata_ixs, send_resolution, resolve_market, insufficient,
  crank_market,
}

abbrev as_ata : Ata → Cranker.Ata
as_ata token_ata = Cranker.token_ata
as_ata wsol_ata = Cranker.wsol_ata

-- The transactions as the backend's cranker names them.
unfoldable pub messages : List Transaction → List Sent
messages [] = []
messages (sample_tx k ∷ ts) = record_twap_sample k ∷ messages ts
messages (ata_tx k ixs ∷ ts) = create_accounts k (map as_ata ixs) ∷ messages ts
messages (resolve_tx k w ∷ ts) = resolve_and_graduate k w ∷ messages ts

-- The same market and answers as the backend's cranker sees them, with no shutdown signal.
unfoldable pub as_turn : MarketData → Turn
as_turn m = record {
  market = m.key;
  account = m.account;
  replies = record {
    signalled = false;
    sample_confirmed = m.replies.sample_confirmed;
    sides = m.replies.sides;
    token_account = m.replies.token_account;
    wsol_account = m.replies.wsol_account;
    created = m.replies.created;
    resolve_confirmed = m.replies.resolve_confirmed;
  };
}

unfoldable pub as_turns : List MarketData → List Turn
as_turns [] = []
as_turns (m ∷ ms) = as_turn m ∷ as_turns ms

pub messages-append : (xs ys : List Transaction) → messages (xs ++ ys) ≡ messages xs ++ messages ys
unfolding messages
messages-append [] ys = refl
messages-append (sample_tx k ∷ xs) ys = rw (messages-append xs ys)
messages-append (ata_tx k ixs ∷ xs) ys = rw (messages-append xs ys)
messages-append (resolve_tx k w ∷ xs) ys = rw (messages-append xs ys)

winner_same :
    (s : Sides) (n : ℕ)
    → determine_expected_winner s n
      ≡ Cranker.determine_expected_winner s.twap_accumulator_a s.twap_accumulator_b n
          s.quote_vault_a s.quote_vault_b
unfolding determine_expected_winner Cranker.determine_expected_winner
winner_same s n = refl

abbrev as_atas : Option (List Ata) → Option (List Cranker.Ata)
as_atas none = none
as_atas (some ixs) = some (map as_ata ixs)

ata_ixs_by_answers :
    (r : Replies) (r' : Cranker.Replies) (p q : Option Bool)
    → Cranker.ata_ixs (record r' { token_account = p; wsol_account = q })
      ≡ as_atas (ata_ixs (record r { token_account = p; wsol_account = q }))
unfolding Cranker.ata_ixs Cranker.ensure_ata ata_ixs ensure_ata
ata_ixs_by_answers r r' none q = refl
ata_ixs_by_answers r r' (some true) none = refl
ata_ixs_by_answers r r' (some true) (some true) = refl
ata_ixs_by_answers r r' (some true) (some false) = refl
ata_ixs_by_answers r r' (some false) none = refl
ata_ixs_by_answers r r' (some false) (some true) = refl
ata_ixs_by_answers r r' (some false) (some false) = refl

ata_ixs_same : (m : MarketData) → Cranker.ata_ixs (as_turn m).replies ≡ as_atas (ata_ixs m.replies)
unfolding as_turn
ata_ixs_same m =
    ata_ixs_by_answers m.replies (as_turn m).replies m.replies.token_account m.replies.wsol_account

-- The backend's cranker after it sent these messages.
pub record IsSending (c c' : Cranker) (msgs : List Sent) : Type 0 where
  pub sent : c'.sent ≡ c.sent ++ msgs
  pub flag : c'.is_shutting_down ≡ c.is_shutting_down

module _ (now : ℕ) (dry_run : Bool) where
  submit_sample_sends :
      (m : MarketData) (c : Cranker)
      → IsSending c
          (Cranker.submit_sample dry_run (as_turn m) c)
          (messages (if dry_run then [] else sample_tx m.key ∷ []))
  unfolding Cranker.submit_sample messages as_turn
  submit_sample_sends m c = ground (arith, append-nil c.sent)

  graduation_sends :
      (m : MarketData) (w : ℕ) (c : Cranker)
      → IsSending c (Cranker.submit_graduation (as_turn m) w c) (resolve_and_graduate m.key w ∷ [])
  unfolding Cranker.submit_graduation as_turn
  graduation_sends m w c = ground arith

  create_and_graduate_sends :
      (ixs : Option (List Ata)) (m : MarketData) (w : ℕ) (c : Cranker)
      → IsSending c
          (Cranker.create_and_graduate (as_atas ixs) (as_turn m) w c)
          (messages (send_resolution m.key m.replies.created w ixs))
  unfolding Cranker.create_and_graduate as_turn send_resolution messages
  create_and_graduate_sends none m w c = ground (arith, append-nil c.sent)
  create_and_graduate_sends (some []) m w c = graduation_sends m w c
  create_and_graduate_sends (some (ix ∷ ixs)) m w c = by_created m.replies.created
    where
      msg : Sent
      msg = create_accounts m.key (map as_ata (ix ∷ ixs))

      c' : Cranker
      c' = record c { sent = c.sent ++ msg ∷ [] }

      by_created :
          (b : Bool)
          → IsSending c
              (if b then Cranker.submit_graduation (as_turn m) w c' else Cranker.fail c')
              (msg ∷ messages (if b then resolve_tx m.key w ∷ [] else []))
      by_created true =
          let sends = graduation_sends m w c' in
          record {
            sent = sends.sent ∙ append_assoc c.sent (msg ∷ []) (resolve_and_graduate m.key w ∷ []);
            flag = sends.flag;
          }
      by_created false = record { sent = refl; flag = refl }

  resolve_with_sends :
      (m : MarketData) (s : Sides) (c : Cranker)
      → IsSending c
          (Cranker.resolve_with dry_run (as_turn m) s c)
          (messages (resolve_market dry_run m (some s)))
  unfolding Cranker.resolve_with resolve_market messages as_turn
  resolve_with_sends m s c = elim (Bool-cases dry_run) [
    | inl dry ↦ rw dry (record { sent = sym (append-nil c.sent); flag = refl })
    | inr wet ↦
        let w = determine_expected_winner s m.account.twap_samples_count in
        rw (wet, ← winner_same s m.account.twap_samples_count, ata_ixs_same m)
          (create_and_graduate_sends (ata_ixs m.replies) m w c)
  ]

  lost_sends :
      (m : MarketData) (c : Cranker)
      → IsSending c
          (record c { total_errors = c.total_errors + 1 })
          (messages (resolve_market dry_run m none))
  unfolding resolve_market messages
  lost_sends m c = ground (arith, append-nil c.sent)

  submit_resolution_sends :
      (m : MarketData) (c : Cranker)
      → IsSending c
          (Cranker.submit_resolution dry_run (as_turn m) c)
          (messages (resolve_market dry_run m m.replies.sides))
  unfolding Cranker.submit_resolution as_turn
  submit_resolution_sends m c = settle m.replies.sides
    where
      settle :
          (o : Option Sides)
          → IsSending c
              (elim o as (λ x. Cranker) [
                | none ↦ record c { total_errors = c.total_errors + 1 }
                | some s ↦ Cranker.resolve_with dry_run (as_turn m) s c
              ])
              (messages (resolve_market dry_run m o))
      settle none = lost_sends m c
      settle (some s) = resolve_with_sends m s c

  pub crank_market_sends :
      (m : MarketData) (c : Cranker)
      → IsSending c
          (Cranker.crank_market now dry_run (as_turn m) c)
          (messages (crank_market now dry_run m))
  unfolding Cranker.crank_market Cranker.decide Cranker.perform as_turn crank_market insufficient
      messages
  crank_market_sends m c =
      ground (arith, submit_sample_sends m c, submit_resolution_sends m c, append-nil c.sent)
