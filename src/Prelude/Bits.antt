-- ===== src/Prelude/Bits.antt =====
-- Laws of `bit_and`, `bit_or` and `bit_xor` at every width, from their digits.
use Prim.Native.Nat.{
  ℕ, zero, suc, ◌+◌, ◌-◌, ◌*◌, ◌/◌, ◌%◌, ◌^◌, ◌≤◌, ◌<◌, min, max, digits, bitwise, differ, bit_and,
  bit_or, bit_xor, bit_and-bitwise, bit_or-bitwise, bit_xor-bitwise,
}
use mathlib.Core.Path.{◌≡◌, refl, ap, ◌∙◌}
use native.Mathlib.Omega.{arith}
use native.Mathlib.Nat.{pow-suc, one-le-pow}
use mathlib.Core.Logic.{◌⊎◌, inl, inr}

-- More fuel than the left argument does not change the digits.
module _ (z : ℕ → ℕ) (f : ℕ → ℕ → ℕ) where
  fuel_enough : (k l a b : ℕ) → a ≤ k → a ≤ l → digits z f k a b ≡ digits z f l a b
  fuel_enough zero zero a b h i = refl
  fuel_enough zero (suc l) zero b h i = refl
  fuel_enough zero (suc l) (suc a) b h i = absurd (omega arith)
  fuel_enough (suc k) zero zero b h i = refl
  fuel_enough (suc k) zero (suc a) b h i = absurd (omega arith)
  fuel_enough (suc k) (suc l) zero b h i = refl
  fuel_enough (suc k) (suc l) (suc a) b h i =
      rw (fuel_enough k l (suc a / 2) (b / 2) (omega arith) (omega arith))

  lowest_digit :
      (a b : ℕ)
      → bitwise z f (suc a) b ≡ bitwise z f (suc a / 2) (b / 2) * 2 + f (suc a % 2) (b % 2)
  lowest_digit a b =
      omega (arith, fuel_enough a (suc a / 2) (suc a / 2) (b / 2) (omega arith) (omega arith))

and_low : (a b : ℕ) → bit_and a b ≡ bit_and (a / 2) (b / 2) * 2 + min (a % 2) (b % 2)
and_low zero b = simp bit_and-bitwise (omega arith)
and_low (suc a) b = simp bit_and-bitwise (lowest_digit (λ y. 0) min a b)

or_low : (a b : ℕ) → bit_or a b ≡ bit_or (a / 2) (b / 2) * 2 + max (a % 2) (b % 2)
or_low zero b = simp bit_or-bitwise (omega arith)
or_low (suc a) b = simp bit_or-bitwise (lowest_digit (λ y. y) max a b)

xor_low : (a b : ℕ) → bit_xor a b ≡ bit_xor (a / 2) (b / 2) * 2 + differ (a % 2) (b % 2)
xor_low zero b = simp bit_xor-bitwise (omega arith)
xor_low (suc a) b = simp bit_xor-bitwise (lowest_digit (λ y. y) differ a b)

and-zero_below : (k a : ℕ) → a ≤ k → bit_and a 0 ≡ 0
and-zero_below zero zero h = refl
and-zero_below zero (suc a) h = absurd (omega arith)
and-zero_below (suc k) a h = elim (split a) [
  | inl e ↦ rw e
  | inr p ↦ omega (arith, and_low a 0, and-zero_below k (a / 2) (omega arith))
]
  where
    split : (n : ℕ) → (n ≡ 0) ⊎ (0 < n)
    split zero = inl refl
    split (suc n) = inr (omega arith)

and-zero : (a : ℕ) → bit_and a 0 ≡ 0
and-zero a = and-zero_below a a (omega arith)

-- `v & 1` and `v & 0x7f` are remainders.
pub bit_and-one : (a : ℕ) → bit_and a 1 ≡ a % 2
bit_and-one a = omega (arith, and_low a 1, and-zero (a / 2))

bit_and-seven : (a : ℕ) → bit_and a 7 ≡ a % 8
bit_and-seven a = omega (arith, and_low a 7, and_low (a / 2) 3, bit_and-one (a / 2 / 2))

pub bit_and-low_seven : (a : ℕ) → bit_and a 0x7f ≡ a % 128
bit_and-low_seven a = omega (
  arith,
  and_low a 0x7f,
  and_low (a / 2) 0x3f,
  and_low (a / 2 / 2) 0x1f,
  and_low (a / 2 / 2 / 2) 0x0f,
  bit_and-seven (a / 2 / 2 / 2 / 2),
)

or-zero_left : (b : ℕ) → bit_or 0 b ≡ b
or-zero_left b = simp bit_or-bitwise

twice-mul-pow : (q k : ℕ) → q * 2 ^ suc k ≡ 2 * (q * 2 ^ k)
twice-mul-pow q k = omega (arith, ap (λ (t : ℕ). q * t) (pow-suc 2 k))

-- `r | (q << k)` is a sum where `r` has only the `k` low bits.
pub bit_or-shifted : (k r q : ℕ) → r < 2 ^ k → bit_or r (q * 2 ^ k) ≡ r + q * 2 ^ k
bit_or-shifted zero r q h =
    let e : r ≡ 0 = omega arith in rw (e, or-zero_left (q * 1)) (omega arith)
bit_or-shifted (suc k) r q h = ground (
  arith,
  or_low r (q * 2 ^ suc k),
  twice-mul-pow q k,
  pow-suc 2 k,
  bit_or-shifted k (r / 2) q (omega (arith, pow-suc 2 k)),
)

differ-one : (x : ℕ) → x < 2 → differ x 1 ≡ 1 - x
differ-one zero h = refl
differ-one (suc zero) h = refl
differ-one (suc (suc x)) h = absurd (omega arith)

differ-zero : (x : ℕ) → differ x 0 ≡ x
differ-zero zero = refl
differ-zero (suc x) = refl

xor-zero_below : (k a : ℕ) → a < 2 ^ k → bit_xor a 0 ≡ a
xor-zero_below zero a h = let e : a ≡ 0 = omega arith in rw e
xor-zero_below (suc k) a h = omega (
  arith,
  xor_low a 0,
  differ-zero (a % 2),
  pow-suc 2 k,
  xor-zero_below k (a / 2) (omega (arith, pow-suc 2 k)),
)

-- `v ^ 0` is `v`, and `v ^ ~0` is the complement, over `k` bits.
pub bit_xor-zero : (k a : ℕ) → a < 2 ^ k → bit_xor a 0 ≡ a
bit_xor-zero k a h = xor-zero_below k a h

pub bit_xor-ones : (k a : ℕ) → a < 2 ^ k → bit_xor a (2 ^ k - 1) ≡ 2 ^ k - 1 - a
bit_xor-ones zero a h = let e : a ≡ 0 = omega arith in rw e
bit_xor-ones (suc k) a h =
    let ones : 2 ^ suc k ≡ 2 ^ k * 2 = pow-suc 2 k in
    let some_bit : 1 ≤ 2 ^ k = one-le-pow k 2 (omega arith) in
    let half : (2 ^ suc k - 1) / 2 ≡ 2 ^ k - 1 = omega arith in
    let odd : (2 ^ suc k - 1) % 2 ≡ 1 = omega arith in
    xor_low a (2 ^ suc k - 1)
    ∙ rw (half, odd, bit_xor-ones k (a / 2) (omega arith), differ-one (a % 2) (omega arith))
        (omega arith)

or-zero_below : (k a : ℕ) → a < 2 ^ k → bit_or a 0 ≡ a
or-zero_below zero a h = let e : a ≡ 0 = omega arith in rw e
or-zero_below (suc k) a h =
    omega (arith, or_low a 0, pow-suc 2 k, or-zero_below k (a / 2) (omega (arith, pow-suc 2 k)))

lt-pow : (a : ℕ) → a < 2 ^ a
lt-pow zero = omega arith
lt-pow (suc a) = omega (arith, pow-suc 2 a, lt-pow a)

-- The same with the low bits on the right.
pub bit_or-above : (k r q : ℕ) → r < 2 ^ k → bit_or (q * 2 ^ k) r ≡ q * 2 ^ k + r
bit_or-above zero r q h =
    let e : r ≡ 0 = omega arith in
    let one : q * 2 ^ 0 ≡ q = omega arith in rw (e, one, or-zero_below q q (lt-pow q)) (omega arith)
bit_or-above (suc k) r q h = ground (
  arith,
  or_low (q * 2 ^ suc k) r,
  twice-mul-pow q k,
  pow-suc 2 k,
  bit_or-above k (r / 2) q (omega (arith, pow-suc 2 k)),
)
