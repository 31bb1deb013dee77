-- ===== src/Prelude/Bits.antt =====
-- What `|`, `&` and `^` do to fields of bits, as arithmetic, at every width.
use Prim.Native.Nat.{
  ℕ, zero, suc, ◌+◌, ◌-◌, ◌*◌, ◌/◌, ◌%◌, ◌^◌, ◌≤◌, ◌<◌, min, max, digits, bitwise, differ, bit_and,
  bit_or, bit_xor, bit_and-bitwise, bit_or-bitwise, bit_xor-bitwise,
}
use mathlib.Core.Path.{◌≡◌, refl, sym, ap, ◌∙◌}
use mathlib.Core.Bool.{Bool, true, ◌&&◌}
use mathlib.Core.WellFounded
use native.Mathlib.Nat.{
  pow-suc, one-le-pow, le_refl, div-add-mod, mul_assoc, mod-lt, mul-add-mod_self_left, mod-eq_of_lt,
  add-suc, add-zero, pow-succ',
}
use native.Mathlib.Omega.{arith}
use volforge.Prelude.Tests.{◌==◌, ==_iff}
use volforge.Prelude.WellFounded.{lt_wf}

-- The fuel of the digit recursion does not matter.
module _ (rest : ℕ → ℕ) (combine : ℕ → ℕ → ℕ) where
  enough_digits :
      (n m a b : ℕ) → a ≤ n → a ≤ m → digits rest combine n a b ≡ digits rest combine m a b
  enough_digits zero zero a b h k = refl
  enough_digits zero (suc m) zero b h k = refl
  enough_digits zero (suc m) (suc a) b h k = absurd (omega arith)
  enough_digits (suc n) zero zero b h k = refl
  enough_digits (suc n) zero (suc a) b h k = absurd (omega arith)
  enough_digits (suc n) (suc m) zero b h k = refl
  enough_digits (suc n) (suc m) (suc a) b h k =
      rw (enough_digits n m (suc a / 2) (b / 2) (omega arith) (omega arith))

  lowest_digit :
      (a b : ℕ)
      → bitwise rest combine (suc a) b
        ≡ bitwise rest combine (suc a / 2) (b / 2) * 2 + combine (suc a % 2) (b % 2)
  lowest_digit a b =
      omega (arith, enough_digits a (suc a / 2) (suc a / 2) (b / 2) (omega arith) (le_refl _))

low_bit_or : (n m : ℕ) → bit_or n m ≡ max (n % 2) (m % 2) + 2 * bit_or (n / 2) (m / 2)
low_bit_or zero m = simp bit_or-bitwise (omega arith)
low_bit_or (suc n) m = simp bit_or-bitwise (omega (arith, lowest_digit (λ y. y) max n m))

low_bit_and : (n m : ℕ) → bit_and n m ≡ min (n % 2) (m % 2) + 2 * bit_and (n / 2) (m / 2)
low_bit_and zero m = simp bit_and-bitwise (omega arith)
low_bit_and (suc n) m = simp bit_and-bitwise (omega (arith, lowest_digit (λ y. 0) min n m))

low_bit_xor : (n m : ℕ) → bit_xor n m ≡ differ (n % 2) (m % 2) + 2 * bit_xor (n / 2) (m / 2)
low_bit_xor zero m = simp bit_xor-bitwise (omega arith)
low_bit_xor (suc n) m = simp bit_xor-bitwise (omega (arith, lowest_digit (λ y. y) differ n m))

two_pow_field : (q k : ℕ) → q * 2 ^ suc k ≡ 2 * (q * 2 ^ k)
two_pow_field q k = omega (arith, ap (λ (t : ℕ). q * t) (pow-suc 2 k))

-- `r | (q << k)`, where `r` fits in `k` bits.
pub bit_or_field : (k r q : ℕ) → r < 2 ^ k → bit_or r (q * 2 ^ k) ≡ r + q * 2 ^ k
bit_or_field zero r q h = ground (arith, bit_or-bitwise 0 q)
bit_or_field (suc k) r q h = ground (
  arith,
  low_bit_or r (q * 2 ^ suc k),
  two_pow_field q k,
  two_pow_field 1 k,
  bit_or_field k (r / 2) q (omega (arith, two_pow_field 1 k)),
)

cleared_digits : (n : ℕ) → ((m : ℕ) → m < n → bit_and m 0 ≡ 0) → bit_and n 0 ≡ 0
cleared_digits zero earlier = refl
cleared_digits (suc n) earlier =
    omega (arith, low_bit_and (suc n) 0, earlier (suc n / 2) (omega arith))

bit_and-zero : (a : ℕ) → bit_and a 0 ≡ 0
bit_and-zero a = WellFounded.induction lt_wf {C = λ n. bit_and n 0 ≡ 0} a cleared_digits

-- A mask of ones, one bit at a time.
mask_half : (k : ℕ) → ((2 ^ suc k - 1) / 2 ≡ 2 ^ k - 1) × ((2 ^ suc k - 1) % 2 ≡ 1)
mask_half k = omega (arith, two_pow_field 1 k, one-le-pow k 2 (omega arith))

differ_one : (b : ℕ) → b < 2 → differ b 1 + b ≡ 1
differ_one zero h = refl
differ_one (suc zero) h = refl
differ_one (suc (suc b)) h = absurd (omega arith)

mod_double : (a p : ℕ) → 0 < p → a % (2 * p) ≡ a / 2 % p * 2 + a % 2
mod_double a p h =
    let low = a / 2 % p * 2 + a % 2 in
    let q = a / 2 / p in
    let split : a ≡ 2 * p * q + low =
      omega (arith, ap (λ (t : ℕ). 2 * t) (div-add-mod (a / 2) p), mul_assoc 2 p q) in
    let small : low < 2 * p = omega (arith, mod-lt (a / 2) h) in
    ap (λ x. x % (2 * p)) split ∙ (mul-add-mod_self_left (2 * p) q low ∙ mod-eq_of_lt small)

-- `a & ((1 << k) - 1)`.
pub bit_and_mask : (k a : ℕ) → bit_and a (2 ^ k - 1) ≡ a % 2 ^ k
bit_and_mask zero a = rw bit_and-zero (omega arith)
bit_and_mask (suc k) a =
    let (half, odd) = mask_half k in
    low_bit_and a (2 ^ suc k - 1)
    ∙ rw (half, odd, bit_and_mask k (a / 2))
        (omega (
          arith,
          mod_double a (2 ^ k) (one-le-pow k 2 (omega arith)),
          ap (λ (m : ℕ). a % m) (pow-succ' 2 k),
        ))

-- `a ^ ((1 << k) - 1)`, where `a` fits in `k` bits.
pub bit_xor_ones : (k a : ℕ) → a < 2 ^ k → bit_xor a (2 ^ k - 1) + a + 1 ≡ 2 ^ k
bit_xor_ones zero zero h = refl
bit_xor_ones zero (suc a) h = absurd (omega arith)
bit_xor_ones (suc k) a h =
    let (half, odd) = mask_half k in
    let double = two_pow_field 1 k in
    let rest = bit_xor_ones k (a / 2) (omega (arith, double)) in
    rw (low_bit_xor a (2 ^ suc k - 1), half, odd)
      (omega (arith, rest, double, differ_one (a % 2) (omega arith)))

-- Over a small range, every value is tried.
try_below : ℕ → (ℕ → Bool) → Bool
try_below zero p = true
try_below (suc n) p = p n && try_below n p

try_below_sound : (n : ℕ) (p : ℕ → Bool) (x : ℕ) → try_below n p ≡ true → x < n → p x ≡ true
unfolding try_below
try_below_sound zero p x h k = absurd (omega arith)
try_below_sound (suc n) p x h k = ground (arith, try_below_sound n p x)

agree_below :
    (f g : ℕ → ℕ) (n : ℕ) → try_below n (λ x. f x == g x) ≡ true → (x : ℕ) → x < n → f x ≡ g x
agree_below f g n h x k = (==_iff (f x) (g x)).0 (try_below_sound n (λ x. f x == g x) x h k)

-- Bytes.
pub bit_and_low7 : (b : ℕ) → b < 256 → bit_and b 0x7f ≡ b % 128
unfolding try_below
bit_and_low7 = agree_below (λ b. bit_and b 0x7f) (λ b. b % 128) 256 refl

pub bit_and_top : (b : ℕ) → b < 256 → bit_and b 0x80 ≡ b / 128 * 128
unfolding try_below
bit_and_top = agree_below (λ b. bit_and b 0x80) (λ b. b / 128 * 128) 256 refl

pub bit_or_top : (b : ℕ) → b < 256 → bit_or b 0x80 ≡ b % 128 + 128
unfolding try_below
bit_or_top = agree_below (λ b. bit_or b 0x80) (λ b. b % 128 + 128) 256 refl

-- Powers of two.
pub two_pow-add : (a b : ℕ) → 2 ^ (a + b) ≡ 2 ^ a * 2 ^ b
two_pow-add a zero = ap (λ (n : ℕ). 2 ^ n) (add-zero a) ∙ omega arith
two_pow-add a (suc b) =
    ap (λ (n : ℕ). 2 ^ n) (add-suc a b)
    ∙ (pow-suc 2 (a + b)
        ∙ (ap (λ (x : ℕ). x * 2) (two_pow-add a b)
            ∙ (mul_assoc (2 ^ a) (2 ^ b) 2 ∙ ap (λ (x : ℕ). 2 ^ a * x) (sym (pow-suc 2 b)))))

differ-zero : (b : ℕ) → b < 2 → differ b 0 ≡ b
differ-zero zero h = refl
differ-zero (suc zero) h = refl
differ-zero (suc (suc b)) h = absurd (omega arith)

xor_step : (n : ℕ) → ((m : ℕ) → m < n → bit_xor m 0 ≡ m) → bit_xor n 0 ≡ n
xor_step zero ih = refl
xor_step (suc n) ih = omega (
  arith,
  low_bit_xor (suc n) 0,
  ih (suc n / 2) (omega arith),
  differ-zero (suc n % 2) (omega arith),
)

pub bit_xor-zero : (a : ℕ) → bit_xor a 0 ≡ a
bit_xor-zero a = WellFounded.induction lt_wf {C = λ n. bit_xor n 0 ≡ n} a xor_step

pub product-le : (a b p : ℕ) → a ≤ b → a * p ≤ b * p
product-le a b p h = grind arith
