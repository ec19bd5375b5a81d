-- ===== src/Rpc/Batches.antt =====
-- The loop over batches does what one pass over the whole list does.
use duel_protocol.Prelude.{
  ℕ, zero, suc, ◌≤◌, ◌≡◌, refl, sym, ◌∙◌, ap, Option, none, some, List, [], ◌∷◌, ◌++◌, take, drop,
  length, length-drop, take-append-drop, arith,
}
use duel_protocol.Sdk.Solana.{◌>>=◌}
use duel_protocol.Rpc.{each_batch}

bind_cong {ℓ κ} :
    {A : Type ℓ} {B : Type κ} (o : Option A) (k k' : A → Option B)
    → ((a : A) → k a ≡ k' a)
    → (o >>= k) ≡ (o >>= k')
bind_cong none k k' h = refl
bind_cong (some a) k k' h = h a

module _ {ℓ κ} {A : Type ℓ} {S : Type κ} (f : List A → S → Option S) where
  -- The state that the body computes runs through the list from left to right.
  pub record IsPass : Type (ℓ ⊔ κ) where
    pub pass_nil : (s : S) → f [] s ≡ some s
    pub pass_append : (xs ys : List A) (s : S) → f (xs ++ ys) s ≡ f xs s >>= f ys

  pub each_batch-pass :
      IsPass → (fuel : ℕ) (xs : List A) (s : S) → length xs ≤ fuel → each_batch fuel f xs s ≡ f xs s
  unfolding each_batch
  each_batch-pass p zero [] s h = sym (p.pass_nil s)
  each_batch-pass p zero (x ∷ xs) s h = absurd (omega arith)
  each_batch-pass p (suc fuel) [] s h = sym (p.pass_nil s)
  each_batch-pass p (suc fuel) (x ∷ xs) s h =
      let batch = take 20 (x ∷ xs) in
      let rest = drop 20 (x ∷ xs) in
      let shorter = length-drop 20 (x ∷ xs) in
      bind_cong (f batch s) (each_batch fuel f rest) (f rest)
        (λ s'. each_batch-pass p fuel rest s' (omega (arith, shorter, h)))
      ∙ sym (p.pass_append batch rest s)
      ∙ ap (λ zs. f zs s) (take-append-drop 20 (x ∷ xs))
