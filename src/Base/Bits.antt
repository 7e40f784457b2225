-- ===== src/Base/Bits.antt =====
-- The operations on bits that the sources use, as arithmetic.
use Prim.Native.Nat.{
  ℕ, zero, suc, ◌+◌, ◌*◌, ◌/◌, ◌%◌, ◌≤◌, ◌<◌, min, max, digits, bit_and, bit_or, bit_and-bitwise,
  bit_or-bitwise,
}
use mathlib.Core.Path.{◌≡◌, refl, ap}
use mathlib.Core.Logic.{inl, inr}
use mathlib.Core.Bool.{Bool, true, ◌&&◌}
use native.Mathlib.Omega.{arith}
use trn.Base.Tests.{◌==◌, Bool-cases}

-- More fuel than the left number changes nothing.
module _ (z : ℕ → ℕ) (f : ℕ → ℕ → ℕ) where
  digits_enough : (n m a b : ℕ) → a ≤ n → a ≤ m → digits z f n a b ≡ digits z f m a b
  digits_enough zero zero a b p q = refl
  digits_enough zero (suc m) zero b p q = refl
  digits_enough zero (suc m) (suc a) b p q = absurd (omega arith)
  digits_enough (suc n) zero zero b p q = refl
  digits_enough (suc n) zero (suc a) b p q = absurd (omega arith)
  digits_enough (suc n) (suc m) zero b p q = refl
  digits_enough (suc n) (suc m) (suc a) b p q =
      rw (digits_enough n m (suc a / 2) (b / 2) (omega arith) (omega arith)) refl

  digits-suc :
      (a b : ℕ)
      → digits z f (suc a) (suc a) b
        ≡ digits z f (suc a / 2) (suc a / 2) (b / 2) * 2 + f (suc a % 2) (b % 2)
  digits-suc a b =
      omega (arith, digits_enough a (suc a / 2) (suc a / 2) (b / 2) (omega arith) (omega arith))

-- The lowest digit, and the rest.
bit_or_low : (a b : ℕ) → bit_or a b ≡ bit_or (a / 2) (b / 2) * 2 + max (a % 2) (b % 2)
bit_or_low zero b = simp bit_or-bitwise (omega arith)
bit_or_low (suc a) b = simp bit_or-bitwise (digits-suc (λ y. y) max a b)

bit_and_low : (a b : ℕ) → bit_and a b ≡ bit_and (a / 2) (b / 2) * 2 + min (a % 2) (b % 2)
bit_and_low zero b = simp bit_and-bitwise (omega arith)
bit_and_low (suc a) b = simp bit_and-bitwise (digits-suc (λ y. 0) min a b)

bit_or_zero_below : (n a : ℕ) → a ≤ n → bit_or a 0 ≡ a
bit_or_zero_below zero a h = let e : a ≡ 0 = omega arith in rw e refl
bit_or_zero_below (suc n) a h =
    omega (arith, bit_or_low a 0, bit_or_zero_below n (a / 2) (omega arith))

bit_and_zero_below : (n a : ℕ) → a ≤ n → bit_and a 0 ≡ 0
bit_and_zero_below zero a h = let e : a ≡ 0 = omega arith in rw e refl
bit_and_zero_below (suc n) a h =
    omega (arith, bit_and_low a 0, bit_and_zero_below n (a / 2) (omega arith))

pub bit_or_zero : (a : ℕ) → bit_or a 0 ≡ a
bit_or_zero a = bit_or_zero_below a a (omega arith)

pub bit_and_zero : (a : ℕ) → bit_and a 0 ≡ 0
bit_and_zero a = bit_and_zero_below a a (omega arith)

-- A number shifted up by a digit, and a number behind it.
or_double : (x y : ℕ) → bit_or (x * 2) y ≡ bit_or x (y / 2) * 2 + y % 2
or_double x y =
    let half : x * 2 / 2 ≡ x = omega arith in
    omega (arith, bit_or_low (x * 2) y, ap (λ (t : ℕ). bit_or t (y / 2)) half)

-- `x << 6 | y` for a number of six bits.
pub or_shift6 : (x y : ℕ) → y < 64 → bit_or (x * 64) y ≡ x * 64 + y
or_shift6 x y h =
    let e : x * 64 ≡ x * 2 * 2 * 2 * 2 * 2 * 2 = omega arith in
    let top : y / 2 / 2 / 2 / 2 / 2 / 2 ≡ 0 = omega arith in
    rw e (
      omega (
        arith,
        or_double (x * 2 * 2 * 2 * 2 * 2) y,
        or_double (x * 2 * 2 * 2 * 2) (y / 2),
        or_double (x * 2 * 2 * 2) (y / 2 / 2),
        or_double (x * 2 * 2) (y / 2 / 2 / 2),
        or_double (x * 2) (y / 2 / 2 / 2 / 2),
        or_double x (y / 2 / 2 / 2 / 2 / 2),
        ap (bit_or x) top,
        bit_or_zero x,
      ))

and_odd : (x m : ℕ) → bit_and x (m * 2 + 1) ≡ bit_and (x / 2) m * 2 + x % 2
and_odd x m =
    let half : (m * 2 + 1) / 2 ≡ m = omega arith in
    omega (arith, bit_and_low x (m * 2 + 1), ap (bit_and (x / 2)) half)

-- `x & 0x1F` and `x & 0x3F`.
pub and_31 : (x : ℕ) → bit_and x 31 ≡ x % 32
and_31 x = omega (
  arith,
  and_odd x 15,
  and_odd (x / 2) 7,
  and_odd (x / 2 / 2) 3,
  and_odd (x / 2 / 2 / 2) 1,
  and_odd (x / 2 / 2 / 2 / 2) 0,
  bit_and_zero (x / 2 / 2 / 2 / 2 / 2),
)

pub and_63 : (x : ℕ) → bit_and x 63 ≡ x % 64
and_63 x = omega (arith, and_odd x 31, and_31 (x / 2))

-- Over a small range every value is checked.
abbrev pub below : ℕ → (ℕ → Bool) → Bool
below zero p = true
below (suc n) p = p n && below n p

pub below_lem : (n : ℕ) (p : ℕ → Bool) → below n p ≡ true → (i : ℕ) → i < n → p i ≡ true
below_lem zero p all i less = absurd (omega arith)
below_lem (suc n) p all i less = elim (Bool-cases (i == n)) [
  | inl here ↦ let same : i ≡ n = ground arith in rw same (ground arith)
  | inr there ↦ below_lem n p (ground arith) i (ground arith)
]

pub agree : (n : ℕ) (f g : ℕ → ℕ) → below n (λ i. f i == g i) ≡ true → (i : ℕ) → i < n → f i ≡ g i
agree n f g all i less =
    let here : (f i == g i) ≡ true = below_lem n (λ i. f i == g i) all i less in ground arith

-- `y | 0x80` for six bits, and the first byte of each width.
pub or_128 : (y : ℕ) → y < 64 → bit_or y 128 ≡ y + 128
or_128 = agree 64 (λ y. bit_or y 128) (λ y. y + 128) refl

pub or_192 : (y : ℕ) → y < 32 → bit_or y 192 ≡ y + 192
or_192 = agree 32 (λ y. bit_or y 192) (λ y. y + 192) refl

pub or_224 : (y : ℕ) → y < 16 → bit_or y 224 ≡ y + 224
or_224 = agree 16 (λ y. bit_or y 224) (λ y. y + 224) refl

pub or_240 : (y : ℕ) → y < 8 → bit_or y 240 ≡ y + 240
or_240 = agree 8 (λ y. bit_or y 240) (λ y. y + 240) refl

-- The tests on a byte's top bits.
pub and_192 : (b : ℕ) → b < 256 → bit_and b 192 ≡ b / 64 * 64
and_192 = agree 256 (λ b. bit_and b 192) (λ b. b / 64 * 64) refl

pub and_15 : (b : ℕ) → b < 256 → bit_and b 15 ≡ b % 16
and_15 = agree 256 (λ b. bit_and b 15) (λ b. b % 16) refl

pub and_7 : (b : ℕ) → b < 256 → bit_and b 7 ≡ b % 8
and_7 = agree 256 (λ b. bit_and b 7) (λ b. b % 8) refl
