-- ===== src/Sdk/Client/Laws.antt =====
-- What the builders guarantee of the instructions.
use mathlib.Core.Option
use duel_protocol.Prelude.{
  ℕ, ◌≡◌, refl, ap, ◌∙◌, true, false, Option, none, some, String, List, [], ◌∷◌, map, if◌then◌else◌,
  Option-cases, inl, inr, some-inj, none-ne-some, drop,
}
use text.Mathlib.Text.{◌==◌ as str_eq}
use duel_protocol.Sdk.Solana.{PublicKey, Solana, wsol_mint}
use duel_protocol.Sdk.Pda.{find_config_pda, find_deposit_pda}
use duel_protocol.Sdk.Client.{
  Chain, MarketData, SideData, CompareDuelAccount, Instruction, PreInstruction, pick,
}
use duel_protocol.Sdk.Client.Trading.{build_buy_tokens, build_sell_tokens}
use duel_protocol.Sdk.Client.Compare.{build_withdraw, build_deposit}
use duel_protocol.Sdk.Client.Graduation.{
  Graduation, build_resolve_and_graduate, ensure_ata, crank_resolution, crank_resolution_with,
}

-- The creations and the instruction that the cranker sends in place of what the SDK built: the
-- compute budget goes with the transaction, and the cranker signs too.
abbrev pub as_cranked : PublicKey → PublicKey → Graduation → List PreInstruction × Instruction
as_cranked cranker nft g =
    (drop 1 g.pre_instructions, record g.instruction { signers = cranker ∷ nft ∷ [] })

module _ (sol : Solana) (chain : Chain) where
  crank_resolution_with-build :
      (cranker market nft : PublicKey) (m : MarketData) (a b : SideData) (winner : ℕ)
      → chain.fetch_market market ≡ some m
      → chain.fetch_side m.side_a ≡ some a
      → chain.fetch_side m.side_b ≡ some b
      → crank_resolution_with sol chain (wsol_mint sol) cranker market m nft a b winner
        ≡ Option.map
            (as_cranked cranker nft)
            (build_resolve_and_graduate sol chain market winner cranker nft m.quote_mint)
  unfolding crank_resolution_with build_resolve_and_graduate ensure_ata
  crank_resolution_with-build cranker market nft m a b winner hm ha hb =
      let mint = pick winner a.token_mint b.token_mint in
      rw (hm, ha, hb)
        (elim (Option-cases (sol.get_associated_token_address mint market true)) [
          | inl off ↦ rw off refl
          | inr (token_ata, on) ↦
              elim (Option-cases (sol.get_associated_token_address (wsol_mint sol) market true)) [
                | inl off ↦ elim (Option-cases (chain.account_exists token_ata)) [
                  | inl lost ↦ rw (on, off, lost) refl
                  | inr (there, found) ↦ rw (on, off, found) refl
                ]
                | inr (wsol_ata, on') ↦ elim (Option-cases (chain.account_exists token_ata)) [
                  | inl lost ↦ rw (on, on', lost) refl
                  | inr (there, found) ↦ elim (Option-cases (chain.account_exists wsol_ata)) [
                    | inl lost ↦ rw (on, on', found, lost) refl
                    | inr (there', found') ↦ rw (on, on', found, found') refl
                  ]
                ]
              ]
        ])

  -- Where the two names of the wrapped SOL mint agree and the cranker holds what the SDK fetches,
  -- the cranker creates the same accounts and sends the same arguments and account list as the SDK
  -- builds, and fails when the SDK does.
  pub crank_resolution-build :
      sol.native_mint ≡ wsol_mint sol
      → (cranker market nft : PublicKey) (m : MarketData) (a b : SideData) (winner : ℕ)
      → chain.fetch_market market ≡ some m
      → chain.fetch_side m.side_a ≡ some a
      → chain.fetch_side m.side_b ≡ some b
      → crank_resolution sol chain cranker market m nft a b winner
        ≡ Option.map
            (as_cranked cranker nft)
            (build_resolve_and_graduate sol chain market winner cranker nft m.quote_mint)
  unfolding crank_resolution
  crank_resolution-build one_mint cranker market nft m a b winner hm ha hb =
      ap (λ k. crank_resolution_with sol chain k cranker market m nft a b winner) one_mint
      ∙ crank_resolution_with-build cranker market nft m a b winner hm ha hb

-- The key listed under a name.
abbrev pub account_of : String → List (String × Option PublicKey) → Option PublicKey
account_of name [] = none
account_of name ((n, k) ∷ rest) = if str_eq n name then k else account_of name rest

abbrev pub keys : Instruction → List (Option PublicKey)
keys i = map (λ entry. entry.1) i.accounts

module _ (sol : Solana) (chain : Chain) (market : PublicKey) (side amount limit : ℕ)
    (user mint : PublicKey) where
  -- Whenever a purchase is built, the sale on the same side is built too and lists the same keys
  -- in the same places.
  pub build_sell_tokens-build_buy_tokens :
      (r : List PreInstruction × Instruction)
      → build_buy_tokens sol chain market side amount limit user mint ≡ some r
      → (s : Instruction) × (build_sell_tokens sol chain market side amount limit user mint
          ≡ some s)
        × (keys s ≡ keys r.1)
  unfolding build_buy_tokens build_sell_tokens
  build_sell_tokens-build_buy_tokens r bought = elim (Option-cases (chain.fetch_market market)) [
    | inl lost ↦ absurd (none-ne-some (rw lost at bought))
    | inr (m, hm) ↦ elim (Option-cases (chain.fetch_side (pick side m.side_a m.side_b))) [
      | inl lost ↦ absurd (none-ne-some (rw (hm, lost) at bought))
      | inr (s, hs) ↦ elim (Option-cases (chain.fetch_config (find_config_pda sol).0)) [
        | inl lost ↦ absurd (none-ne-some (rw (hm, hs, lost) at bought))
        | inr (c, hc) ↦
            elim (Option-cases (sol.get_associated_token_address s.token_mint user false)) [
              | inl lost ↦ absurd (none-ne-some (rw (hm, hs, hc, lost) at bought))
              | inr (token, ht) ↦
                  elim (Option-cases (sol.get_associated_token_address mint user false)) [
                    | inl lost ↦ absurd (none-ne-some (rw (hm, hs, hc, ht, lost) at bought))
                    | inr (quote, hq) ↦ elim (Option-cases (chain.account_exists token)) [
                      | inl lost ↦ absurd (none-ne-some (rw (hm, hs, hc, ht, hq, lost) at bought))
                      | inr (there, he) ↦
                          let built = some-inj (rw (hm, hs, hc, ht, hq, he) at bought) in
                          rw (hm, hs, hc, ht, hq)
                            (
                              _,
                              refl,
                              ap (λ (p : List PreInstruction × Instruction). keys p.1) built,
                            )
                    ]
                  ]
            ]
      ]
    ]
  ]

module _ (sol : Solana) (chain : Chain) (duel user mint : PublicKey) where
  -- After a draw, where the deposit record holds the side of the deposit, whenever the deposit is
  -- built the withdrawal is built too, from the vault and the record of the deposit.
  pub build_withdraw-build_deposit :
      (d : CompareDuelAccount) (side amount : ℕ) (r : Instruction × PublicKey)
      → chain.fetch_compare_duel duel ≡ some d
      → d.winner ≡ none
      → chain.fetch_deposit (find_deposit_pda sol duel user).0 ≡ some (record { side = side })
      → build_deposit sol chain duel side amount user mint ≡ some r
      → (w : Instruction) × (build_withdraw sol chain duel user mint ≡ some w)
        × (account_of "poolVault" w.accounts ≡ account_of "poolVault" r.0.accounts)
        × (account_of "depositRecord" w.accounts ≡ some r.1)
  unfolding build_withdraw build_deposit
  build_withdraw-build_deposit d side amount r hd draw hr made =
      elim (Option-cases (sol.get_associated_token_address mint user false)) [
        | inl lost ↦ absurd (none-ne-some (rw (hd, lost) at made))
        | inr (wsol, ht) ↦
            let built = some-inj (rw (hd, ht) at made) in
            rw (hd, hr, ht, ← built) (_, refl, rw draw refl, refl)
      ]
