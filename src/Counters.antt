-- ===== src/Counters.antt =====
-- The counters of src/core/reconciler.hpp.
use fx_dropcopy_primary_reco.Prelude.{ℕ}

pub record ReconCounters : Type 0 where
  pub internal_events : ℕ
  pub dropcopy_events : ℕ
  pub divergence_total : ℕ
  pub divergence_missing_fill : ℕ
  pub divergence_phantom : ℕ
  pub divergence_state_mismatch : ℕ
  pub divergence_quantity_mismatch : ℕ
  pub divergence_timing_anomaly : ℕ
  pub divergence_ring_drops : ℕ
  pub store_overflow : ℕ
  pub primary_seq_gaps : ℕ
  pub primary_seq_duplicates : ℕ
  pub primary_seq_out_of_order : ℕ
  pub dropcopy_seq_gaps : ℕ
  pub dropcopy_seq_duplicates : ℕ
  pub dropcopy_seq_out_of_order : ℕ
  pub sequence_gap_ring_drops : ℕ
  pub mismatch_observed : ℕ
  pub mismatch_confirmed : ℕ
  pub false_positive_avoided : ℕ
  pub orders_matched : ℕ
  pub divergence_deduped : ℕ
  pub stale_timers_skipped : ℕ
  pub gap_suppressions : ℕ
  pub gaps_closed : ℕ
  pub gap_timeouts : ℕ
  pub timer_overflow : ℕ
  pub divergence_resolved : ℕ
  pub gaps_closed_by_timeout : ℕ
  pub gaps_closed_by_fill : ℕ

abbrev pub empty_counters : ReconCounters
empty_counters = record {
  internal_events = 0;
  dropcopy_events = 0;
  divergence_total = 0;
  divergence_missing_fill = 0;
  divergence_phantom = 0;
  divergence_state_mismatch = 0;
  divergence_quantity_mismatch = 0;
  divergence_timing_anomaly = 0;
  divergence_ring_drops = 0;
  store_overflow = 0;
  primary_seq_gaps = 0;
  primary_seq_duplicates = 0;
  primary_seq_out_of_order = 0;
  dropcopy_seq_gaps = 0;
  dropcopy_seq_duplicates = 0;
  dropcopy_seq_out_of_order = 0;
  sequence_gap_ring_drops = 0;
  mismatch_observed = 0;
  mismatch_confirmed = 0;
  false_positive_avoided = 0;
  orders_matched = 0;
  divergence_deduped = 0;
  stale_timers_skipped = 0;
  gap_suppressions = 0;
  gaps_closed = 0;
  gap_timeouts = 0;
  timer_overflow = 0;
  divergence_resolved = 0;
  gaps_closed_by_timeout = 0;
  gaps_closed_by_fill = 0;
}
