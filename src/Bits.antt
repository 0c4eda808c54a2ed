-- ===== src/Bits.antt =====
-- `&` of unsigned numbers with the masks that the programs use, as arithmetic.
use Prim.Native.Nat.{min, bit_and, digits, bit_and-bitwise}
use test_code.Prelude.{ℕ, zero, suc, ◌+◌, ◌*◌, ◌/◌, ◌%◌, ◌≤◌, ◌≡◌, refl, sym, ap, ◌∙◌, arith}
pub use Prim.Native.Nat.{bit_and}

-- The definition that the operation stands for; any fuel from the number up does.
abbrev conj : ℕ → ℕ → ℕ → ℕ
conj fuel = digits (λ y. zero) min fuel

conj_zero : (fuel y : ℕ) → conj fuel 0 y ≡ 0
conj_zero zero y = refl
conj_zero (suc fuel) y = refl

conj_fuels : (f x y g : ℕ) → x ≤ f → x ≤ g → conj f x y ≡ conj g x y
conj_fuels f zero y g _ _ = conj_zero f y ∙ sym (conj_zero g y)
conj_fuels zero (suc x) y g low _ = absurd (omega arith)
conj_fuels (suc f) (suc x) y zero _ low = absurd (omega arith)
conj_fuels (suc f) (suc x) y (suc g) low low' =
    let halves = conj_fuels f (suc x / 2) (y / 2) g (omega arith) (omega arith) in omega arith

-- Digit by digit, from the lowest.
pub halve_both : (x y : ℕ) → bit_and x y ≡ bit_and (x / 2) (y / 2) * 2 + min (x % 2) (y % 2)
halve_both zero y = omega (arith, bit_and-bitwise 0 y, bit_and-bitwise 0 (y / 2))
halve_both (suc x) y =
    let half = suc x / 2 in
    let enough = conj_fuels x half (y / 2) half (omega arith) (omega arith) in
    omega (arith, bit_and-bitwise (suc x) y, bit_and-bitwise half (y / 2))

pub bit_and-zero : (fuel x : ℕ) → x ≤ fuel → bit_and x 0 ≡ 0
bit_and-zero fuel zero h = bit_and-bitwise 0 0
bit_and-zero zero (suc x) h = absurd (omega arith)
bit_and-zero (suc fuel) (suc x) h =
    omega (arith, halve_both (suc x) 0, bit_and-zero fuel (suc x / 2) (omega arith))

zero_digit : (x m n : ℕ) → n ≡ m * 2 → bit_and x n ≡ bit_and (x / 2) m * 2
zero_digit x m n e =
    let half : n / 2 ≡ m = omega arith in omega (arith, halve_both x n, ap (bit_and (x / 2)) half)

one_digit : (x m n : ℕ) → n ≡ m * 2 + 1 → bit_and x n ≡ bit_and (x / 2) m * 2 + x % 2
one_digit x m n e =
    let half : n / 2 ≡ m = omega arith in omega (arith, halve_both x n, ap (bit_and (x / 2)) half)

four_halves : (x m : ℕ) → bit_and (x / 2 / 2 / 2 / 2) m ≡ bit_and (x / 16) m
four_halves x m = let same : x / 2 / 2 / 2 / 2 ≡ x / 16 = omega arith in ap (λ y. bit_and y m) same

four_ones : (x m : ℕ) → bit_and x (m * 16 + 15) ≡ bit_and (x / 16) m * 16 + x % 16
four_ones x m = omega (
  arith,
  one_digit x (m * 8 + 7) (m * 16 + 15) (omega arith),
  one_digit (x / 2) (m * 4 + 3) (m * 8 + 7) (omega arith),
  one_digit (x / 2 / 2) (m * 2 + 1) (m * 4 + 3) (omega arith),
  one_digit (x / 2 / 2 / 2) m (m * 2 + 1) refl,
  four_halves x m,
)

four_zeros : (x m : ℕ) → bit_and x (m * 16) ≡ bit_and (x / 16) m * 16
four_zeros x m = omega (
  arith,
  zero_digit x (m * 8) (m * 16) (omega arith),
  zero_digit (x / 2) (m * 4) (m * 8) (omega arith),
  zero_digit (x / 2 / 2) (m * 2) (m * 4) (omega arith),
  zero_digit (x / 2 / 2 / 2) m (m * 2) refl,
  four_halves x m,
)

-- `x & 0x0f` and `x & 0xff`
pub bit_and_0f : (x : ℕ) → bit_and x 0x0f ≡ x % 16
bit_and_0f x = omega (arith, four_ones x 0, bit_and-zero (x / 16) (x / 16) (omega arith))

pub bit_and_ff : (x : ℕ) → bit_and x 0xff ≡ x % 256
bit_and_ff x = omega (arith, four_ones x 0x0f, bit_and_0f (x / 16))

-- A mask whose low byte is 0.
pub bit_and_byte : (x m : ℕ) → bit_and x (m * 256) ≡ bit_and (x / 256) m * 256
bit_and_byte x m =
    let same : x / 16 / 16 ≡ x / 256 = omega arith in
    let shift : m * 256 ≡ m * 16 * 16 = omega arith in
    ap (bit_and x) shift
    ∙ omega (arith, four_zeros x (m * 16), four_zeros (x / 16) m, ap (λ y. bit_and y m) same)

-- `x & 0xf0`
pub bit_and_f0 : (x : ℕ) → bit_and x 0xf0 ≡ x / 16 % 16 * 16
bit_and_f0 x = omega (arith, four_zeros x 0x0f, bit_and_0f (x / 16))
