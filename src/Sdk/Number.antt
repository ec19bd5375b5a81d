-- ===== src/Sdk/Number.antt =====
-- JavaScript's finite numbers as the SDK and the app use them: what they rely on of IEEE 754
-- doubles is that the operations round monotonically. `Math.pow` is taken at whole bases.
use duel_protocol.Prelude.{ℕ, ◌+◌, ◌-◌, ◌*◌, ◌/◌, ◌^◌, ◌≤◌, ◌≡◌, ◌≢◌, Bool, true, leb, ◌==◌}

pub record Number : Type 1 where
  pub Num : Type 0
  pub of_nat : ℕ → Num
  pub add : Num → Num → Num
  pub sub : Num → Num → Num
  pub mul : Num → Num → Num
  pub div : Num → Num → Num
  pub pow : Num → Num → Num
  pub floor : Num → Num
  pub le : Num → Num → Bool
  pub eq : Num → Num → Bool
  pub half : Num

-- What rounding to the nearest double keeps, away from overflow.
pub record IsRounded (js : Number) : Type 0 where
  pub le_refl : (x : js.Num) → js.le x x ≡ true
  pub le_trans : (x y z : js.Num) → js.le x y ≡ true → js.le y z ≡ true → js.le x z ≡ true
  pub of_nat_mono : (m k : ℕ) → m ≤ k → js.le (js.of_nat m) (js.of_nat k) ≡ true
  pub of_nat_zero : (m : ℕ) → 1 ≤ m → js.eq (js.of_nat m) (js.of_nat 0) ≢ true
  pub eq_le : (x y : js.Num) → js.eq x y ≡ true → js.le x y ≡ true
  pub add_mono :
      (x x' y y' : js.Num)
      → js.le x x' ≡ true
      → js.le y y' ≡ true
      → js.le (js.add x y) (js.add x' y') ≡ true
  pub le_add : (x y : js.Num) → js.le (js.of_nat 0) y ≡ true → js.le x (js.add x y) ≡ true
  pub sub_mono : (x x' y : js.Num) → js.le x x' ≡ true → js.le (js.sub x y) (js.sub x' y) ≡ true
  pub sub_self : (x : js.Num) → js.sub x x ≡ js.of_nat 0
  pub mul_mono :
      (k : ℕ) (x x' : js.Num)
      → js.le x x' ≡ true
      → js.le (js.mul (js.of_nat k) x) (js.mul (js.of_nat k) x') ≡ true
  pub mul_comm : (x y : js.Num) → js.mul x y ≡ js.mul y x
  pub mul_zero : (x : js.Num) → js.mul x (js.of_nat 0) ≡ js.of_nat 0
  pub mul_one : (x : js.Num) → js.mul x (js.of_nat 1) ≡ x
  pub div_mono :
      (x x' y : js.Num)
      → js.le (js.of_nat 1) y ≡ true
      → js.le x x' ≡ true
      → js.le (js.div x y) (js.div x' y) ≡ true
  pub div_unit :
      (x y : js.Num)
      → js.le (js.of_nat 0) x ≡ true
      → js.le x y ≡ true
      → js.eq y (js.of_nat 0) ≢ true
      → (js.le (js.of_nat 0) (js.div x y) ≡ true) × (js.le (js.div x y) (js.of_nat 1) ≡ true)
  pub pow_mono :
      (m k e : ℕ)
      → m ≤ k
      → js.le (js.pow (js.of_nat m) (js.of_nat e)) (js.pow (js.of_nat k) (js.of_nat e)) ≡ true
  pub floor_mono : (x x' : js.Num) → js.le x x' ≡ true → js.le (js.floor x) (js.floor x') ≡ true
  pub floor_le : (x : js.Num) → js.le (js.floor x) x ≡ true
  pub half_unit : (js.le (js.of_nat 0) js.half ≡ true) × (js.le js.half (js.of_nat 1) ≡ true)
  pub large :
      (k : ℕ) → 1 ≤ k → js.le (js.of_nat 1) (js.mul (js.of_nat k) (js.of_nat 1000000000)) ≡ true

-- Whole numbers, with quotients rounded down: a division by zero is NaN in the source and is not
-- reached here.
abbrev pub whole : Number
whole = record {
  Num = ℕ;
  of_nat = λ n. n;
  add = ◌+◌;
  sub = ◌-◌;
  mul = ◌*◌;
  div = ◌/◌;
  pow = ◌^◌;
  floor = λ n. n;
  le = leb;
  eq = ◌==◌;
  half = 0;
}
