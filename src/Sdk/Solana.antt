-- ===== src/Sdk/Solana.antt =====
-- What the SDK uses of the Solana libraries, and the constants of sdk/src/constants.ts. A public
-- key is the list of its bytes; the libraries' functions are the parameter `Solana`.
use Prim.Native.Char.{code}
use Prim.Native.String.{String}
use duel_protocol.Prelude.{ℕ, Bool, Option, none, some, List, [], ◌∷◌}

abbrev pub PublicKey : Type 0
PublicKey = List ℕ

-- `Buffer.from` at a text in ASCII.
abbrev pub codes : String → List ℕ
codes String.[] = []
codes (String.◌∷◌ c s) = code c ∷ codes s

-- `new PublicKey` at a base58 text, `PublicKey.findProgramAddressSync`, `getAssociatedTokenAddress`
-- at a mint, an owner and `allowOwnerOffCurve` (`none` is its error), the programs' identifiers
-- that @solana/web3.js and @solana/spl-token export.
pub record Solana : Type 0 where
  pub public_key : String → PublicKey
  pub find_program_address : List (List ℕ) → PublicKey → PublicKey × ℕ
  pub get_associated_token_address : PublicKey → PublicKey → Bool → Option PublicKey
  pub token_program_id : PublicKey
  pub native_mint : PublicKey
  pub system_program_id : PublicKey
  pub sysvar_rent_pubkey : PublicKey

-- The type's map and bind on `Option`, for chains of calls that may throw.
infixl 5 ◌>>=◌
abbrev pub ◌>>=◌ {ℓ κ} : {A : Type ℓ} {B : Type κ} → Option A → (A → Option B) → Option B
none >>= k = none
some a >>= k = k a

module _ (sol : Solana) where
  abbrev pub program_id : PublicKey
  program_id = sol.public_key "CgR6V1AxC7exDFNoh3Q5JP9aea9YuPqq283EwACUGpZE"

  abbrev pub meteora_damm_v2_program_id : PublicKey
  meteora_damm_v2_program_id = sol.public_key "cpamdpZCGKUy5JxQXB4dcpGPiikHawvSWAd6mEn1sGG"

  abbrev pub wsol_mint : PublicKey
  wsol_mint = sol.public_key "So11111111111111111111111111111111111111112"

  abbrev pub token_2022_program_id : PublicKey
  token_2022_program_id = sol.public_key "TokenzQdBNbLqP5VEhdkAS6EPFLC1PHnBqCXEpPxuEb"

  abbrev pub token_metadata_program_id : PublicKey
  token_metadata_program_id = sol.public_key "metaqbxxUerdq28cj1RbAWkYQm3ybzjb6a8bt518x1s"

  abbrev pub associated_token_program_id : PublicKey
  associated_token_program_id = sol.public_key "ATokenGPvbdGVxr1b2hvZbsiqW5xWH25efTNsLJA8knL"
