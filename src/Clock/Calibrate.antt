-- ===== src/Clock/Calibrate.antt =====
-- What calibration in src/util/tsc_calibration.hpp can leave behind.
use fx_dropcopy_primary_reco.Prelude.{ℕ, ◌≤◌, ◌≡◌, Bool, true, false, Option, none, some, arith}
use fx_dropcopy_primary_reco.Clock.{
  TscCalibration, Timespec, calibrate, set_tsc_freq_hz, frac_scale,
}

-- The outcome of a calibration: a sane frequency with its factor, or nothing changed.
abbrev pub Calibrated : TscCalibration → TscCalibration × Bool → Type 0
Calibrated c (d, true) =
    (100_000_000 ≤ d.tsc_freq_hz)
    × (d.tsc_freq_hz ≤ 10_000_000_000)
    × (d.calibrated ≡ true)
    × (frac_scale ≤ d.cycles_per_ns_q32)
Calibrated c (d, false) = d ≡ c

-- Whatever the clock and the counter read, calibration either succeeds with a frequency from 100 MHz
-- to 10 GHz and a factor of at least one cycle per nanosecond, or reports failure and keeps the
-- calibration that was there.
pub calibrate-Calibrated :
    (c : TscCalibration) (a : Option Timespec) (t u : ℕ) (b : Option Timespec)
    → Calibrated c (calibrate c a t u b)
unfolding calibrate set_tsc_freq_hz
calibrate-Calibrated c none t u b = ground arith
calibrate-Calibrated c (some a) t u none = ground arith
calibrate-Calibrated c (some a) t u (some b) = ground arith
