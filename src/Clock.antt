-- ===== src/Clock.antt =====
-- src/util/tsc_calibration.hpp: the frequency of the time stamp counter and the conversions between
-- its cycles and nanoseconds. The singleton is a value that is passed along; what the system calls
-- return (clock readings, the counter, CPUID) are arguments.
pub mod Convert
pub mod Calibrate
use fx_dropcopy_primary_reco.Prelude.{
  ℕ, ◌+◌, ◌*◌, ◌/◌, ◌%◌, Bool, true, false, ◌||◌, Option, none, some, if◌then◌else◌, ltb, ◌==◌, u64,
  add64, sub64,
}

abbrev pub default_tsc_freq_hz : ℕ
default_tsc_freq_hz = 3_000_000_000

abbrev pub ns_per_sec : ℕ
ns_per_sec = 1_000_000_000

-- 1 << FRAC_BITS
abbrev pub frac_scale : ℕ
frac_scale = 4_294_967_296

pub record TscCalibration : Type 0 where
  pub tsc_freq_hz : ℕ
  pub cycles_per_ns_q32 : ℕ
  pub ns_per_cycle_q32 : ℕ
  pub calibrated : Bool

-- With 128-bit products; the result is cast to 64 bits.
unfoldable pub cycles_to_ns : TscCalibration → ℕ → ℕ
cycles_to_ns c cycles = cycles * c.ns_per_cycle_q32 / frac_scale % u64

unfoldable pub ns_to_cycles : TscCalibration → ℕ → ℕ
ns_to_cycles c ns = ns * c.cycles_per_ns_q32 / frac_scale % u64

-- The branch for platforms without 128-bit integers: `x` times the factor `q`.
unfoldable pub split_product : ℕ → ℕ → ℕ
split_product x q =
    let x_hi : ℕ = x / frac_scale in
    let x_lo : ℕ = x % frac_scale in
    let q_hi : ℕ = q / frac_scale in
    let q_lo : ℕ = q % frac_scale in
    let lo_lo : ℕ = x_lo * q_lo % u64 in
    let lo_hi : ℕ = x_lo * q_hi % u64 in
    let hi_lo : ℕ = x_hi * q_lo % u64 in
    let hi_hi : ℕ = x_hi * q_hi % u64 in
    let mid : ℕ = (lo_lo / frac_scale + lo_hi % frac_scale + hi_lo % frac_scale) % u64 in
    (hi_hi + lo_hi / frac_scale + hi_lo / frac_scale + mid / frac_scale) % u64

-- The branch for compilers with 128-bit integers. The stored frequency is the argument as given; the
-- factors are those of a nonzero frequency.
unfoldable pub set_tsc_freq_hz : TscCalibration → ℕ → TscCalibration
set_tsc_freq_hz c freq_hz =
    let f : ℕ = if freq_hz == 0 then default_tsc_freq_hz else freq_hz in
    let q : ℕ = f * frac_scale / ns_per_sec % u64 in
    record c {
      tsc_freq_hz = freq_hz;
      cycles_per_ns_q32 = if ltb q frac_scale then frac_scale else q;
      ns_per_cycle_q32 = ns_per_sec * frac_scale / f % u64;
    }

-- The constructor.
unfoldable pub initial : TscCalibration
unfolding set_tsc_freq_hz
initial =
    set_tsc_freq_hz
      (record {
        tsc_freq_hz = default_tsc_freq_hz;
        cycles_per_ns_q32 = 0;
        ns_per_cycle_q32 = 0;
        calibrated = false;
      })
      default_tsc_freq_hz

-- A reading of the monotonic clock: seconds and nanoseconds.
pub record Timespec : Type 0 where
  pub sec : ℕ
  pub nsec : ℕ

-- The nanoseconds from one reading to another. The signed differences are cast to 64 bits, where
-- they are the differences modulo 2 ^ 64.
unfoldable pub elapsed_ns : Timespec → Timespec → ℕ
elapsed_ns a b = add64 (sub64 b.sec a.sec * ns_per_sec % u64) (sub64 b.nsec a.nsec)

-- `tsc_delta * NS_PER_SEC` is a 64-bit product.
unfoldable pub measured_freq : ℕ → ℕ → ℕ → ℕ
measured_freq tsc_start tsc_end elapsed = sub64 tsc_end tsc_start * ns_per_sec % u64 / elapsed

-- A clock that cannot be read is `none`. The sleep between the readings has no other effect.
unfoldable pub calibrate :
    TscCalibration → Option Timespec → ℕ → ℕ → Option Timespec → TscCalibration × Bool
calibrate c none tsc_start tsc_end end_ts = (c, false)
calibrate c (some a) tsc_start tsc_end none = (c, false)
calibrate c (some a) tsc_start tsc_end (some b) =
    let elapsed = elapsed_ns a b in
    let freq = measured_freq tsc_start tsc_end elapsed in
    if elapsed == 0
    then (c, false)
    else if ltb freq 100_000_000 || ltb 10_000_000_000 freq
    then (c, false)
    else (record (set_tsc_freq_hz c freq) { calibrated = true }, true)

-- `has_invariant_tsc()` is the first argument.
unfoldable pub calibrate_blocking :
    Bool → TscCalibration → Option Timespec → ℕ → ℕ → Option Timespec → TscCalibration
calibrate_blocking false c a t u b = c
calibrate_blocking true c a t u b = (calibrate c a t u b).0
