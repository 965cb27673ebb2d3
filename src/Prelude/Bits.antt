-- ===== src/Prelude/Bits.antt =====
-- `x & (2 ^ k - 1)`, how the code reduces an index modulo a power of two.
use Prim.Native.Nat.{
  ℕ, zero, suc, ◌+◌, ◌-◌, ◌*◌, ◌/◌, ◌%◌, ◌^◌, ◌≤◌, ◌<◌, min, bit_and, digits, bit_and-bitwise,
}
use mathlib.Core.Path.{◌≡◌, ◌∙◌}
use native.Mathlib.Nat.{pow-suc, zero-mod, mod-one}
use native.Mathlib.Omega.{arith}

pub pow-pos : (k : ℕ) → 0 < 2 ^ k
pow-pos zero = omega arith
pow-pos (suc k) = omega (arith, pow-suc 2 k, pow-pos k)

-- Peeling the lowest digit of a remainder.
mod_peel : (x m : ℕ) → 0 < m → x / 2 % m * 2 + x % 2 ≡ x % (m * 2)
mod_peel x m h = grind arith

mask_digits : (n a k : ℕ) → a ≤ n → digits (λ _. 0) min n a (2 ^ k - 1) ≡ a % 2 ^ k
mask_digits zero zero k h = omega (arith, zero-mod (2 ^ k))
mask_digits zero (suc a) k h = absurd (omega arith)
mask_digits (suc n) zero k h = omega (arith, zero-mod (2 ^ k))
mask_digits (suc n) (suc a) zero h =
    omega
      (arith, mask_digits n (suc a / 2) zero (omega arith), mod-one (suc a), mod-one (suc a / 2))
mask_digits (suc n) (suc a) (suc k) h =
    let half : (2 ^ suc k - 1) / 2 ≡ 2 ^ k - 1 = omega (arith, pow-suc 2 k, pow-pos k) in
    let odd : (2 ^ suc k - 1) % 2 ≡ 1 = omega (arith, pow-suc 2 k, pow-pos k) in
    rw (half, odd, mask_digits n (suc a / 2) k (omega arith), pow-suc 2 k)
      (omega (arith, mod_peel (suc a) (2 ^ k) (pow-pos k)))

pub bit_and_mask : (k a : ℕ) → bit_and a (2 ^ k - 1) ≡ a % 2 ^ k
bit_and_mask k a = bit_and-bitwise a (2 ^ k - 1) ∙ mask_digits a a k (omega arith)
