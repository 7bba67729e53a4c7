-- ===== src/Entry/Bits.antt =====
-- Masks and fields: `&` with a mask of ones is a remainder, and `|` of disjoint fields a sum.
use Prim.Native.Nat.{bit_and, bit_or, digits, min, max, bit_and-bitwise, bit_or-bitwise}
use native.Mathlib.Nat.{pow-suc, add-mul-mod_self_right, mod-eq_of_lt}
use nbd_vram.Prelude.{
  ℕ, zero, suc, ◌+◌, ◌-◌, ◌*◌, ◌/◌, ◌%◌, ◌^◌, ◌≤◌, ◌<◌, ◌≡◌, refl, arith, ap, ◌∙◌,
}

-- The count of digits to go does not matter once it covers the number.
module _ (z : ℕ → ℕ) (f : ℕ → ℕ → ℕ) where
  enough_digits : (n m a b : ℕ) → a ≤ n → a ≤ m → digits z f n a b ≡ digits z f m a b
  enough_digits zero zero a b p q = refl
  enough_digits zero (suc m) zero b p q = refl
  enough_digits zero (suc m) (suc a) b p q = absurd (omega arith)
  enough_digits (suc n) zero zero b p q = refl
  enough_digits (suc n) zero (suc a) b p q = absurd (omega arith)
  enough_digits (suc n) (suc m) zero b p q = refl
  enough_digits (suc n) (suc m) (suc a) b p q =
      omega (arith, enough_digits n m (suc a / 2) (b / 2) (omega arith) (omega arith))

and_by_digit : (a b : ℕ) → bit_and a b ≡ bit_and (a / 2) (b / 2) * 2 + min (a % 2) (b % 2)
and_by_digit zero b = omega (arith, bit_and-bitwise 0 b, bit_and-bitwise 0 (b / 2))
and_by_digit (suc a) b = omega (
  arith,
  bit_and-bitwise (suc a) b,
  bit_and-bitwise (suc a / 2) (b / 2),
  enough_digits (λ b. zero) min a (suc a / 2) (suc a / 2) (b / 2) (omega arith) (omega arith),
)

or_by_digit : (a b : ℕ) → bit_or a b ≡ bit_or (a / 2) (b / 2) * 2 + max (a % 2) (b % 2)
or_by_digit zero b = omega (arith, bit_or-bitwise 0 b, bit_or-bitwise 0 (b / 2))
or_by_digit (suc a) b = omega (
  arith,
  bit_or-bitwise (suc a) b,
  bit_or-bitwise (suc a / 2) (b / 2),
  enough_digits (λ b. b) max a (suc a / 2) (suc a / 2) (b / 2) (omega arith) (omega arith),
)

and_zero : (n a : ℕ) → a ≤ n → bit_and a 0 ≡ 0
and_zero n zero h = refl
and_zero zero (suc a) h = absurd (omega arith)
and_zero (suc n) (suc a) h =
    omega (arith, and_by_digit (suc a) 0, and_zero n (suc a / 2) (omega arith))

pub pow_succ : (k : ℕ) → 2 ^ suc k ≡ 2 ^ k * 2
pow_succ k = pow-suc 2 k

pow_pos : (k : ℕ) → 0 < 2 ^ k
pow_pos zero = omega arith
pow_pos (suc k) = omega (arith, pow_succ k, pow_pos k)

-- `a & ((1 << k) - 1)`
pub and_mask : (k a : ℕ) → bit_and a (2 ^ k - 1) ≡ a % 2 ^ k
and_mask zero a = omega (arith, and_zero a a)
and_mask (suc k) a =
    let p : ℕ = 2 ^ k in
    let r : ℕ = a / 2 % p in
    let q : ℕ = a / 2 / p in
    let pos : 0 < p = pow_pos k in
    let half : (2 ^ suc k - 1) / 2 ≡ p - 1 = omega (arith, pow_succ k) in
    let odd : (2 ^ suc k - 1) % 2 ≡ 1 = omega (arith, pow_succ k) in
    let low : r * 2 + a % 2 < p * 2 = omega arith in
    let whole : a ≡ r * 2 + a % 2 + q * (p * 2) = omega arith in
    let rest : a % (p * 2) ≡ r * 2 + a % 2 =
      ap (λ t. t % (p * 2)) whole
      ∙ add-mul-mod_self_right (r * 2 + a % 2) q (p * 2)
      ∙ mod-eq_of_lt low in
    omega (
      arith,
      and_by_digit a (2 ^ suc k - 1),
      ap (λ t. bit_and (a / 2) t) half,
      odd,
      and_mask k (a / 2),
      rest,
      ap (λ t. a % t) (pow_succ k),
    )

-- `r | q << k` for `r` of `k` bits
pub or_field : (k r q : ℕ) → r < 2 ^ k → bit_or r (q * 2 ^ k) ≡ r + q * 2 ^ k
or_field zero zero q lt = omega (arith, bit_or-bitwise 0 (q * 2 ^ 0))
or_field zero (suc r) q lt = absurd (omega arith)
or_field (suc k) r q lt =
    let p : ℕ = 2 ^ k in
    let twice : q * 2 ^ suc k ≡ q * p * 2 = omega (arith, ap (λ t. q * t) (pow_succ k)) in
    let half : q * 2 ^ suc k / 2 ≡ q * p = omega (arith, twice) in
    let even : q * 2 ^ suc k % 2 ≡ 0 = omega (arith, twice) in
    omega (
      arith,
      or_by_digit r (q * 2 ^ suc k),
      ap (λ t. bit_or (r / 2) t) half,
      even,
      twice,
      or_field k (r / 2) q (omega (arith, pow_succ k)),
    )
