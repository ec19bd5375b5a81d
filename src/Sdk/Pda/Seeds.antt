-- ===== src/Sdk/Pda/Seeds.antt =====
-- Different accounts have different addresses, as far as the derivation itself has no collisions.
use mathlib.Core.List.{append-nil}
use native.Mathlib.Nat.{pow-suc}
use duel_protocol.Prelude.{
  ℕ, zero, suc, ◌/◌, ◌%◌, ◌^◌, ◌<◌, ◌≡◌, refl, sym, ◌∙◌, ap, some, List, [], ◌∷◌, ◌++◌, arith,
  String, length, inl, inr, some-inj, none-ne-some, Option-cases,
}
use duel_protocol.Sdk.Solana.{PublicKey, Solana, program_id}
use duel_protocol.Sdk.Pda.{
  low_bytes, u64_le, side_seeds, id_seeds, find_market_pda, find_side_pda, find_mint_pda,
  find_token_vault_pda, find_quote_vault_pda,
}

-- All seeds in a row: what the derivation hashes.
abbrev pub joined : List (List ℕ) → List ℕ
joined [] = []
joined (s ∷ ss) = s ++ joined ss

-- The derivation hashes the joined seeds: distinct ones are taken to give distinct addresses.
pub record HasNoCollisions (sol : Solana) : Type 0 where
  pub apart :
      (s t : List (List ℕ)) (program : PublicKey)
      → (sol.find_program_address s program).0 ≡ (sol.find_program_address t program).0
      → joined s ≡ joined t

low_bytes_injective :
    (n x y : ℕ) → x < 256 ^ n → y < 256 ^ n → low_bytes n x ≡ low_bytes n y → x ≡ y
unfolding low_bytes
low_bytes_injective zero x y hx hy e = omega arith
low_bytes_injective (suc n) x y hx hy e =
    let low : x % 256 ≡ y % 256 = cc in
    let size = pow-suc 256 n in
    let high =
      low_bytes_injective n (x / 256) (y / 256) (omega (arith, size)) (omega (arith, size)) (cc) in
    omega (arith, low, high)

pub u64_le_injective : (x y : ℕ) {s : List ℕ} → u64_le x ≡ some s → u64_le y ≡ some s → x ≡ y
unfolding u64_le
u64_le_injective x y hx hy = ground (arith, low_bytes_injective 8 x y)

-- The accounts that a market has for each side.
pub data Kind : Type 0 where
  side mint token_vault quote_vault : Kind

abbrev pub side_account : Solana → Kind → PublicKey → ℕ → PublicKey
side_account sol side market i = (find_side_pda sol market i).0
side_account sol mint market i = (find_mint_pda sol market i).0
side_account sol token_vault market i = (find_token_vault_pda sol market i).0
side_account sol quote_vault market i = (find_quote_vault_pda sol market i).0

abbrev kind_name : Kind → String
kind_name side = "side"
kind_name mint = "mint"
kind_name token_vault = "token_vault"
kind_name quote_vault = "quote_vault"

side_account-seeds :
    (sol : Solana) (k : Kind) (m : PublicKey) (i : ℕ)
    → side_account sol k m i
      ≡ (sol.find_program_address (side_seeds (kind_name k) m i) (program_id sol)).0
unfolding find_side_pda find_mint_pda find_token_vault_pda find_quote_vault_pda
side_account-seeds sol side m i = refl
side_account-seeds sol mint m i = refl
side_account-seeds sol token_vault m i = refl
side_account-seeds sol quote_vault m i = refl

snoc_injective : (xs ys : List ℕ) (x y : ℕ) → xs ++ x ∷ [] ≡ ys ++ y ∷ [] → (xs ≡ ys) × (x ≡ y)
snoc_injective [] [] x y e = (refl, cc)
snoc_injective [] (b ∷ []) x y e = cc
snoc_injective [] (b ∷ c ∷ ys) x y e = cc
snoc_injective (a ∷ []) [] x y e = cc
snoc_injective (a ∷ c ∷ xs) [] x y e = cc
snoc_injective (a ∷ xs) (b ∷ ys) x y e = let rest = snoc_injective xs ys x y (cc) in (cc, rest.1)

same_kind :
    (k k' : Kind) (m m' : PublicKey) (i i' : ℕ)
    → joined (side_seeds (kind_name k) m i) ≡ joined (side_seeds (kind_name k') m' i')
    → (k ≡ k') × (m ++ i % 256 ∷ [] ≡ m' ++ i' % 256 ∷ [])
same_kind side side m m' i i' e = (refl, cc)
same_kind mint mint m m' i i' e = (refl, cc)
same_kind token_vault token_vault m m' i i' e = (refl, cc)
same_kind quote_vault quote_vault m m' i i' e = (refl, cc)
same_kind _ _ m m' i i' e = ground arith

-- If the derivation has no collisions, two accounts of sides at one address, for side numbers
-- below 256, are of one kind, for one market and one side.
pub side_account_injective :
    (sol : Solana)
    → HasNoCollisions sol
    → (k k' : Kind) (m m' : PublicKey) (i i' : ℕ) → i < 256
    → i' < 256
    → side_account sol k m i ≡ side_account sol k' m' i'
    → (k ≡ k') × (m ≡ m') × (i ≡ i')
side_account_injective sol free k k' m m' i i' hi hi' e =
    let hashed =
      free.apart (side_seeds (kind_name k) m i) (side_seeds (kind_name k') m' i') (program_id sol)
        (sym (side_account-seeds sol k m i) ∙ e ∙ side_account-seeds sol k' m' i') in
    let (one_kind, tails) = same_kind k k' m m' i i' hashed in
    let (one_market, bytes) = snoc_injective m m' (i % 256) (i' % 256) tails in
    (one_kind, one_market, omega arith)

append_injective :
    (xs ys us vs : List ℕ) → length xs ≡ length ys → xs ++ us ≡ ys ++ vs → (xs ≡ ys) × (us ≡ vs)
append_injective [] [] us vs h e = (refl, e)
append_injective [] (y ∷ ys) us vs h e = absurd (omega arith)
append_injective (x ∷ xs) [] us vs h e = absurd (omega arith)
append_injective (x ∷ xs) (y ∷ ys) us vs h e =
    let (same, rest) = append_injective xs ys us vs (omega arith) (cc) in (cc, rest)

-- If the derivation has no collisions, two derived markets at one address have one creator and one
-- number, creators being 32 bytes long.
pub find_market_pda_injective :
    (sol : Solana)
    → HasNoCollisions sol
    → (c c' : PublicKey) (n n' : ℕ) (p p' : PublicKey × ℕ) → length c ≡ 32
    → length c' ≡ 32
    → find_market_pda sol c n ≡ some p
    → find_market_pda sol c' n' ≡ some p'
    → p.0 ≡ p'.0
    → (c ≡ c') × (n ≡ n')
unfolding find_market_pda
find_market_pda_injective sol free c c' n n' p p' hc hc' e e' same =
    elim (Option-cases (u64_le n)) [
      | inl lost ↦ absurd (none-ne-some (rw lost at e))
      | inr (s, enc) ↦ elim (Option-cases (u64_le n')) [
        | inl lost ↦ absurd (none-ne-some (rw lost at e'))
        | inr (s', enc') ↦
            let found : sol.find_program_address (id_seeds "market" c s) (program_id sol) ≡ p =
              some-inj (rw enc at e) in
            let found' : sol.find_program_address (id_seeds "market" c' s') (program_id sol) ≡ p' =
              some-inj (rw enc' at e') in
            let hashed =
              free.apart (id_seeds "market" c s) (id_seeds "market" c' s') (program_id sol)
                (rw (found, found') same) in
            let (one_creator, ids) =
              append_injective c c' (s ++ []) (s' ++ []) (hc ∙ sym hc') (cc) in
            let one_id : s ≡ s' = sym (append-nil s) ∙ ids ∙ append-nil s' in
            (one_creator, u64_le_injective n n' enc (enc' ∙ ap some (sym one_id)))
      ]
    ]
