-- ===== src/Config.antt =====
-- src/core/recon_config.hpp: the settings of the two-stage reconciliation. Times are in nanoseconds.
use fx_dropcopy_primary_reco.Prelude.{ℕ, Bool, true}
use fx_dropcopy_primary_reco.Prelude.Int.{ℤ, pos}

pub record ReconConfig : Type 0 where
  pub grace_period_ns : ℕ
  pub gap_recheck_period_ns : ℕ
  pub gap_close_timeout_ns : ℕ
  pub divergence_dedup_window_ns : ℕ
  pub qty_tolerance : ℤ
  pub px_tolerance : ℤ
  pub timing_slack_ns : ℕ
  pub enable_windowed_recon : Bool
  pub enable_gap_suppression : Bool
  pub gap_timeout_ns : ℕ

abbrev pub default_recon_config : ReconConfig
default_recon_config = record {
  grace_period_ns = 500_000_000;
  gap_recheck_period_ns = 100_000_000;
  gap_close_timeout_ns = 1_000_000_000;
  divergence_dedup_window_ns = 1_000_000_000;
  qty_tolerance = pos 0;
  px_tolerance = pos 0;
  timing_slack_ns = 0;
  enable_windowed_recon = true;
  enable_gap_suppression = true;
  gap_timeout_ns = 30_000_000_000;
}
