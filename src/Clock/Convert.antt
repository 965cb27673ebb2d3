-- ===== src/Clock/Convert.antt =====
-- The conversions of src/util/tsc_calibration.hpp.
use fx_dropcopy_primary_reco.Prelude.{ℕ, ◌+◌, ◌*◌, ◌/◌, ◌%◌, ◌≤◌, ◌<◌, ◌≡◌, ap₂, arith, u64}
use fx_dropcopy_primary_reco.Clock.{
  TscCalibration, frac_scale, ns_to_cycles, split_product, set_tsc_freq_hz,
}

mul_mono : (a b c d : ℕ) → a ≤ c → b ≤ d → a * b ≤ c * d
mul_mono a b c d h k = grind arith

half-lt : (x : ℕ) → x < u64 → x / frac_scale < frac_scale
half-lt x h = omega arith

-- Two 32-bit factors have a 64-bit product.
half_mul-lt : (a b : ℕ) → a < frac_scale → b < frac_scale → a * b ≤ 18_446_744_065_119_617_025
half_mul-lt a b h k = mul_mono a b 4_294_967_295 4_294_967_295 (omega arith) (omega arith)

halves : (x : ℕ) → x ≡ x / frac_scale * frac_scale + x % frac_scale
halves x = omega arith

-- The product of two numbers by their halves.
schoolbook :
    (a b c d : ℕ)
    → (a * frac_scale + b) * (c * frac_scale + d)
      ≡ a * c * 18_446_744_073_709_551_616 + (b * c + a * d) * frac_scale + b * d
schoolbook a b c d = omega arith

-- The branch for platforms without 128-bit integers yields the product divided by 2 ^ 64, where the
-- other branch divides by 2 ^ 32.
pub split_product-eq :
    (x q : ℕ) → x < u64 → q < u64 → split_product x q ≡ x * q / 18_446_744_073_709_551_616
unfolding split_product
split_product-eq x q h k = omega (
  arith,
  ap₂ ◌*◌ (halves x) (halves q),
  schoolbook (x / frac_scale) (x % frac_scale) (q / frac_scale) (q % frac_scale),
  half_mul-lt (x % frac_scale) (q % frac_scale) (omega arith) (omega arith),
  half_mul-lt (x % frac_scale) (q / frac_scale) (omega arith) (half-lt q k),
  half_mul-lt (x / frac_scale) (q % frac_scale) (half-lt x h) (omega arith),
  half_mul-lt (x / frac_scale) (q / frac_scale) (half-lt x h) (half-lt q k),
)

mul-ge : (ns q : ℕ) → frac_scale ≤ q → ns * frac_scale ≤ ns * q
mul-ge ns q h = mul_mono ns frac_scale ns q (omega arith) h

-- A factor of at least one cycle per nanosecond, as `set_tsc_freq_hz` leaves, and a product below
-- 2 ^ 64: the conversion gives at least `ns` cycles, and the branch without 128-bit integers gives 0.
pub split_product_short :
    (c : TscCalibration) (ns : ℕ)
    → frac_scale ≤ c.cycles_per_ns_q32
    → c.cycles_per_ns_q32 < u64
    → ns * c.cycles_per_ns_q32 < u64
    → (ns ≤ ns_to_cycles c ns) × (split_product ns c.cycles_per_ns_q32 ≡ 0)
unfolding ns_to_cycles
split_product_short c ns h k p =
    let wide = mul-ge ns c.cycles_per_ns_q32 h in
    let small : ns < u64 = omega arith in
    (omega arith, omega (arith, split_product-eq ns c.cycles_per_ns_q32 small k))

-- A set frequency keeps the factor at one cycle per nanosecond or more, and below 2 ^ 64.
pub set_tsc_freq_hz_floor :
    (c : TscCalibration) (f : ℕ)
    → (frac_scale ≤ (set_tsc_freq_hz c f).cycles_per_ns_q32)
      × ((set_tsc_freq_hz c f).cycles_per_ns_q32 < u64)
unfolding set_tsc_freq_hz
set_tsc_freq_hz_floor c f = ground arith

-- A later time stays later in cycles, as long as no result wraps.
pub ns_to_cycles_mono :
    (c : TscCalibration) (a b : ℕ)
    → a ≤ b
    → b * c.cycles_per_ns_q32 / frac_scale < u64
    → ns_to_cycles c a ≤ ns_to_cycles c b
unfolding ns_to_cycles
ns_to_cycles_mono c a b h k =
    omega (arith, mul_mono a c.cycles_per_ns_q32 b c.cycles_per_ns_q32 h (omega arith))
