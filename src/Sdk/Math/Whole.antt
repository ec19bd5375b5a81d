-- ===== src/Sdk/Math/Whole.antt =====
-- Under exact arithmetic the SDK quotes what the simulation of scripts/curve-sim.ts computes.
use duel_protocol.Prelude.{
  ℕ, ◌+◌, ◌*◌, ◌/◌, ◌^◌, ◌≤◌, ◌≡◌, refl, sym, some, ◌==◌, leb→le, le→leb, arith, Bool-cases, inl,
  inr, ==→eq,
}
use mathlib.Core.Path.{fun_ext}
use native.Mathlib.Nat.{pow-suc, pow-zero, pow-le-pow_left}
use duel_protocol.Curve.{CurveConfig, reserve_integral, price, tokens_out, pow_big, affordable}
use duel_protocol.Curve.Trades.{tokens_out-IsBestBuy}
use duel_protocol.Curve.Laws.{div_mono, mul_mono, pow_big_mono}
use duel_protocol.Sdk.Number.{IsRounded, whole}
use duel_protocol.Sdk.Math.{calculate_price, calculate_reserve, calculate_tokens_out, pays_for}

div_unit : (x y : ℕ) → x ≤ y → x / y ≤ 1
div_unit x y h = grind arith

pub whole-IsRounded : IsRounded whole
whole-IsRounded = record {
  le_refl = λ x. ground arith;
  le_trans = λ x y z h k. ground arith;
  of_nat_mono = λ m k h. ground arith;
  eq_le = λ x y h. ground arith;
  add_mono = λ x x' y y' h k. ground arith;
  le_add = λ x y h. ground arith;
  sub_mono = λ x x' y h. ground arith;
  sub_self = λ x. omega arith;
  mul_mono = λ k x x' h. le→leb _ _ (mul_mono k k x x' (omega arith) (leb→le _ _ h));
  of_nat_zero = λ m some_m e. ground arith;
  mul_comm = λ x y. grind arith;
  mul_zero = λ x. omega arith;
  mul_one = λ x. omega arith;
  div_mono = λ x x' y p h. le→leb _ _ (div_mono x x' y (leb→le _ _ h));
  div_unit = λ x y p h n. (ground arith, le→leb _ _ (div_unit x y (leb→le _ _ h)));
  pow_mono = λ m k e h. le→leb _ _ (pow-le-pow_left h e);
  floor_mono = λ x x' h. h;
  floor_le = λ x. ground arith;
  half_unit = (refl, refl);
  large = λ k h. ground arith;
}

-- The constants of sdk/src/constants.ts as a configuration of the simulation.
abbrev pub sdk_config : ℕ → CurveConfig
sdk_config total = record { name = "SDK"; a = 1; n = 2; b = 1; total_supply = total; decimals = 0 }

square : (k : ℕ) → k ^ 2 ≡ k * k
square k = rw (pow-suc k 1, pow-suc k 0, pow-zero k) (omega arith)

cube : (k : ℕ) → k ^ 3 ≡ k * k * k
cube k = rw (pow-suc k 2) (rw (square k) refl)

-- Price and reserve agree with the simulation's at every supply.
pub calculate_reserve-whole :
    (k total : ℕ) → calculate_reserve whole k ≡ reserve_integral k (sdk_config total)
unfolding calculate_reserve reserve_integral pow_big
calculate_reserve-whole k total = rw (cube k) (omega arith)

pub calculate_price-whole : (k total : ℕ) → calculate_price whole k ≡ price k (sdk_config total)
unfolding calculate_price price pow_big
calculate_price-whole k total = rw (square k) (omega arith)

same_test :
    (quote supply total : ℕ)
    → pays_for whole quote supply ≡ affordable quote supply (sdk_config total)
same_test quote supply total = fun_ext (λ mid.
    rw (calculate_reserve-whole (supply + mid) total, calculate_reserve-whole supply total) refl)

-- At a unit base price every token costs at least a lamport.
reserve_grows :
    (supply r total : ℕ)
    → reserve_integral supply (sdk_config total) + r
      ≤ reserve_integral (supply + r) (sdk_config total)
unfolding reserve_integral
reserve_grows supply r total =
    omega (arith, div_mono _ _ 3000000000 (pow_big_mono supply (supply + r) 3 (omega arith)))

free_buy : (supply total : ℕ) → tokens_out 0 supply (sdk_config total) ≡ some 0
free_buy supply total =
    let (r, returned, is_best) = tokens_out-IsBestBuy 0 supply (sdk_config total) in
    let nothing : r ≡ 0 = omega (arith, reserve_grows supply r total, is_best.in_budget) in
    rw nothing at returned

-- With exact arithmetic the SDK and the simulation return the same amount for every quote, supply
-- and total.
pub calculate_tokens_out-whole :
    (quote supply total : ℕ)
    → calculate_tokens_out whole quote supply total ≡ tokens_out quote supply (sdk_config total)
unfolding calculate_tokens_out
calculate_tokens_out-whole quote supply total = elim (Bool-cases (quote == 0)) [
  | inl nought ↦
      let none_given : quote ≡ 0 = ==→eq quote 0 nought in
      rw none_given (sym (free_buy supply total))
  | inr some_quote ↦ rw some_quote (unfold tokens_out in rw (same_test quote supply total) refl)
]
