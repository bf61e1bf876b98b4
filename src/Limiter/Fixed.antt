-- ===== src/Limiter/Fixed.antt =====
-- A number type that has the laws asked of `float64`: fixed point, a unit being 10^-9.
use grodyia.Prelude.{ℕ, suc, ◌+◌, ◌-◌, ◌*◌, ◌/◌, ◌≤◌, ◌^◌, ◌≡◌, false, leb, ltb, arith}
use grodyia.Limiter.{Float}

abbrev pub giga : ℕ
giga = 1_000_000_000

pub gt-pred : (x b : ℕ) → ltb b x ≡ false → ltb b (x - giga) ≡ false
gt-pred x b h = ground arith

abbrev pub of_int : ℕ → ℕ
of_int n = n * giga

pub pred-of_int : (n : ℕ) → suc n ≤ 2 ^ 53 → of_int (suc n) - giga ≡ of_int n
pred-of_int n h = omega arith

pub ge_one-of_int : (n : ℕ) → n ≤ 2 ^ 53 → leb giga (of_int n) ≡ leb 1 n
ge_one-of_int n h = ground arith

pub gt-of_int : (m n : ℕ) → m ≤ n → n ≤ 2 ^ 53 → ltb (of_int n) (of_int m) ≡ false
gt-of_int m n h k = ground arith

pub gt_irrefl : (x : ℕ) → ltb x x ≡ false
gt_irrefl x = ground arith

-- `seconds` of a time in nanoseconds is that number of units.
abbrev pub fixed : Float
fixed = record {
  F = ℕ;
  add = λ a b. a + b;
  mul = λ a b. a * b / giga;
  pred = λ x. x - giga;
  gt = λ x y. ltb y x;
  ge_one = λ x. leb giga x;
  of_int = of_int;
  seconds = λ t. t;
  gt_irrefl = gt_irrefl;
  gt-pred = gt-pred;
  max_exact = 2 ^ 53;
  pred-of_int = pred-of_int;
  ge_one-of_int = ge_one-of_int;
  gt-of_int = gt-of_int;
}

pub fixed_idle : (rate n : ℕ) → n ≤ 2 ^ 53 → of_int n + 0 * rate / giga ≡ of_int n
fixed_idle rate n h = omega arith
