-- ===== src/Sdk/Pda/Pool.antt =====
-- The pool's address does not depend on the order of its two mints.
use duel_protocol.Prelude.{ℕ, ◌≡◌, refl, true, false, List, [], ◌∷◌, arith}
use duel_protocol.Sdk.Solana.{PublicKey, Solana}
use duel_protocol.Sdk.Pda.{greater, derive_damm_v2_pool}

greater_asymm : (xs ys : List ℕ) → greater xs ys ≡ true → greater ys xs ≡ false
unfolding greater
greater_asymm [] ys h = cc
greater_asymm (x ∷ xs) [] h = refl
greater_asymm (x ∷ xs) (y ∷ ys) h = ground (arith, greater_asymm xs ys)

greater_total : (xs ys : List ℕ) → greater xs ys ≡ false → greater ys xs ≡ false → xs ≡ ys
unfolding greater
greater_total [] [] h k = refl
greater_total [] (y ∷ ys) h k = cc
greater_total (x ∷ xs) [] h k = cc
greater_total (x ∷ xs) (y ∷ ys) h k = ground (arith, greater_total xs ys)

-- The address of a pool does not depend on the order of its two mints.
pub derive_damm_v2_pool_comm :
    (sol : Solana) (a b : PublicKey) → derive_damm_v2_pool sol a b ≡ derive_damm_v2_pool sol b a
unfolding derive_damm_v2_pool
derive_damm_v2_pool_comm sol a b =
    ground (arith, greater_asymm a b, greater_asymm b a, greater_total a b)
