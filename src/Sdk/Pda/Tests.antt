-- ===== src/Sdk/Pda/Tests.antt =====
-- The derivations where an address is the seeds it is derived from.
use duel_protocol.Prelude.{ℕ, ◌≡◌, refl, some, [], ◌∷◌, ◌++◌}
use duel_protocol.Sdk.Solana.{PublicKey, Solana, codes}
use duel_protocol.Sdk.Pda.{find_market_pda, u64_le, low_bytes}
use duel_protocol.Sdk.Pda.Seeds.{joined, HasNoCollisions, find_market_pda_injective}

abbrev plain : Solana
plain = record {
  public_key = codes;
  find_program_address = λ s p. (joined s, 255);
  get_associated_token_address = λ mint' owner off. some (mint' ++ owner);
  token_program_id = 1 ∷ [];
  native_mint = 2 ∷ [];
  system_program_id = 3 ∷ [];
  sysvar_rent_pubkey = 4 ∷ [];
}

plain-HasNoCollisions : HasNoCollisions plain
plain-HasNoCollisions = record { apart = λ s t p e. e }

abbrev creator : PublicKey
creator =
    5 ∷ 1 ∷ 2 ∷ 3 ∷ 4 ∷ 5 ∷ 6 ∷ 7 ∷ 8 ∷ 9 ∷ 10 ∷ 11 ∷ 12 ∷ 13 ∷ 14 ∷ 15 ∷ 16 ∷ 17 ∷ 18 ∷ 19 ∷ 20
    ∷ 21 ∷ 22 ∷ 23 ∷ 24 ∷ 25 ∷ 26 ∷ 27 ∷ 28 ∷ 29 ∷ 30 ∷ 31 ∷ []

low_run : u64_le 258 ≡ some (2 ∷ 1 ∷ 0 ∷ 0 ∷ 0 ∷ 0 ∷ 0 ∷ 0 ∷ [])
unfolding u64_le low_bytes
low_run = refl

abbrev first_side : ℕ
first_side = 0

abbrev market_number : ℕ
market_number = 258

abbrev market_key : PublicKey × ℕ
market_key = (codes "market" ++ creator ++ 2 ∷ 1 ∷ 0 ∷ 0 ∷ 0 ∷ 0 ∷ 0 ∷ 0 ∷ [], 255)

found : find_market_pda plain creator market_number ≡ some market_key
unfolding find_market_pda u64_le low_bytes
found = refl

find_market_pda_injective_example : (creator ≡ creator) × (market_number ≡ market_number)
find_market_pda_injective_example =
    find_market_pda_injective plain plain-HasNoCollisions creator creator market_number
      market_number market_key market_key refl refl found found refl
