-- ===== src/Scripts/TwapCranker/Laws.antt =====
-- The first cranker and the backend's send the same transactions.
use duel_protocol.Prelude.{
  ℕ, ◌≡◌, refl, sym, Option, none, some, Bool, true, false, List, [], ◌∷◌, ◌++◌, Bool-cases, inl,
  inr,
}
use mathlib.Core.List.{append-nil, append_assoc}
use mathlib.Core.Option
use duel_protocol.Cranker
use duel_protocol.Cranker.{Cranker, Turn, Sent, Sides, record_twap_sample, resolve_and_graduate}
use duel_protocol.Scripts.TwapCranker.{
  MarketData, is_resolved, crank_market, crank_all, cranker_loop,
}
use duel_protocol.Scripts.TwapCranker.Turns.{
  messages, as_turn, as_turns, messages-append, crank_market_sends,
}

module _ (now : ℕ) (dry_run : Bool) where
  messages-crank_all_done :
      (m : MarketData) (ms : List MarketData)
      → is_resolved m.account.status ≡ true
      → messages (crank_all now dry_run (m ∷ ms)) ≡ messages (crank_all now dry_run ms)
  unfolding crank_all
  messages-crank_all_done m ms done = rw done refl

  crank_all_skip :
      (m : MarketData) (ms : List MarketData) (c : Cranker)
      → is_resolved m.account.status ≡ true
      → Cranker.crank_all now dry_run (Cranker.active_markets (as_turns (m ∷ ms))) c
        ≡ Cranker.crank_all now dry_run (Cranker.active_markets (as_turns ms)) c
  unfolding Cranker.active_markets as_turns as_turn
  crank_all_skip m ms c done = rw done refl

  crank_all_none :
      (c : Cranker)
      → (Cranker.crank_all now dry_run (Cranker.active_markets (as_turns [])) c).sent
        ≡ c.sent ++ messages (crank_all now dry_run [])
  unfolding Cranker.crank_all Cranker.active_markets as_turns crank_all messages
  crank_all_none c = sym (append-nil c.sent)

  still_running :
      (m : MarketData) (c : Cranker)
      → c.is_shutting_down ≡ false
      → (Cranker.crank_market now dry_run
          (as_turn m)
          (Cranker.signal (as_turn m) c)).is_shutting_down
        ≡ false
  unfolding as_turn
  still_running m c running =
      let turn = crank_market_sends now dry_run m (Cranker.signal (as_turn m) c) in
      rw (turn.flag, running) refl

  messages-crank_all :
      (m : MarketData) (ms : List MarketData)
      → is_resolved m.account.status ≡ false
      → messages (crank_all now dry_run (m ∷ ms))
        ≡ messages (crank_market now dry_run m) ++ messages (crank_all now dry_run ms)
  unfolding crank_all
  messages-crank_all m ms live =
      let parts = messages-append (crank_market now dry_run m) (crank_all now dry_run ms) in
      rw live parts

  crank_all_next :
      (m : MarketData) (ms : List MarketData) (c : Cranker)
      → is_resolved m.account.status ≡ false
      → c.is_shutting_down ≡ false
      → Cranker.crank_all now dry_run (Cranker.active_markets (as_turns (m ∷ ms))) c
        ≡ Cranker.crank_all now dry_run
            (Cranker.active_markets (as_turns ms))
            (Cranker.crank_market now dry_run (as_turn m) (Cranker.signal (as_turn m) c))
  unfolding Cranker.crank_all Cranker.active_markets as_turns as_turn
  crank_all_next m ms c live running = rw (live, running) refl

  -- A running cranker works through the markets as the script does.
  crank_all_sends :
      (ms : List MarketData) (c : Cranker)
      → c.is_shutting_down ≡ false
      → (Cranker.crank_all now dry_run (Cranker.active_markets (as_turns ms)) c).sent
        ≡ c.sent ++ messages (crank_all now dry_run ms)
  crank_all_sends [] c running = crank_all_none c
  crank_all_sends (m ∷ ms) c running = elim (Bool-cases (is_resolved m.account.status)) [
    | inl done ↦
        rw (crank_all_skip m ms c done, messages-crank_all_done m ms done)
          (crank_all_sends ms c running)
    | inr live ↦
        let c' = Cranker.signal (as_turn m) c in
        let turn = crank_market_sends now dry_run m c' in
        let go = still_running m c running in
        let rest = crank_all_sends ms (Cranker.crank_market now dry_run (as_turn m) c') go in
        rw (crank_all_next m ms c live running, messages-crank_all m ms live, rest, turn.sent)
          (append_assoc c.sent _ _)
  ]

-- For every time and answers, where the backend's cranker is idle and gets no signal, its loop
-- appends to what it sent exactly the transactions of the older script's loop, samples, creations
-- of token accounts and resolutions, in their order.
pub cranker_loop-sent :
    (now : ℕ) (dry_run : Bool) (markets : Option (List MarketData)) (c : Cranker)
    → c.is_processing ≡ false
    → c.is_shutting_down ≡ false
    → (Cranker.cranker_loop now dry_run (Option.map as_turns markets) c).sent
      ≡ c.sent ++ messages (cranker_loop now dry_run markets)
unfolding Cranker.cranker_loop Cranker.poll cranker_loop messages
cranker_loop-sent now dry_run none c idle running = rw (idle, running) (sym (append-nil c.sent))
cranker_loop-sent now dry_run (some ms) c idle running =
    let busy = record c { is_shutting_down = false; is_processing = true } in
    let all = crank_all_sends now dry_run ms busy refl in rw (idle, running) all
