-- ===== src/App/Pda/Tests.antt =====
-- The app's addresses where an address is the program and the seeds that it is derived from.
use duel_protocol.Prelude.{◌≡◌, refl, some, List, [], ◌∷◌, ◌++◌}
use duel_protocol.Sdk.Solana.{PublicKey, Solana, codes}
use duel_protocol.App.Pda.{find_side_pda}

abbrev joined : List PublicKey → PublicKey
joined [] = []
joined (s ∷ ss) = s ++ joined ss

abbrev sol : Solana
sol = record {
  public_key = codes;
  find_program_address = λ s p. (p ++ joined s, 255);
  get_associated_token_address = λ mint owner off. some (mint ++ owner);
  token_program_id = 1 ∷ [];
  native_mint = 2 ∷ [];
  system_program_id = 3 ∷ [];
  sysvar_rent_pubkey = 4 ∷ [];
}

side_run :
    find_side_pda sol (8 ∷ []) 1
    ≡ codes "3kzt4Q7xN2RLzYYx2HfnqZVoAHFAKKa17hTDvXsy1PQ9" ++ codes "side" ++ 8 ∷ 1 ∷ []
unfolding find_side_pda
side_run = refl
