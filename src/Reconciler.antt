-- ===== src/Reconciler.antt =====
-- src/core/reconciler.hpp and src/core/reconciler.cpp: the reconciler. Its members are a record; an
-- operation takes that record, and the order that it was handed by reference, and returns both.
-- Log messages are left out. The calibration singleton is the parameter `cal`.
pub mod Gaps
pub mod Emit
pub mod Grace
pub mod Deadline
pub mod Process
pub mod Keeps
pub mod Branches
pub mod Sound
pub mod Tracking
pub mod Events
pub mod Emission
pub mod Closing
pub mod Expiry
pub mod States
pub mod Calm
pub mod Ticks
pub mod Polling
pub mod Run
pub mod Immediate
pub mod Rounds
pub mod Feeds
pub mod Turns
use fx_dropcopy_primary_reco.Prelude.{
  ℕ, Bool, true, false, not, ◌&&◌, ◌||◌, if◌then◌else◌, Option, none, some, inc64,
}
use fx_dropcopy_primary_reco.Event.{Source}
use fx_dropcopy_primary_reco.Mask.{
  MismatchMask, has, existence_bit, status_bit, cum_qty_bit, avg_px_bit, exec_id_bit,
}
use fx_dropcopy_primary_reco.Order.{OrderState}
use fx_dropcopy_primary_reco.Sequence.{SequenceTracker, SequenceGapEvent}
use fx_dropcopy_primary_reco.Ring.{SpscRing}
use fx_dropcopy_primary_reco.Divergence.{DivergenceType, Divergence}
use fx_dropcopy_primary_reco.Wheel.{WheelTimer}
use fx_dropcopy_primary_reco.Store.{OrderStateStore}
use fx_dropcopy_primary_reco.Config.{ReconConfig}
use fx_dropcopy_primary_reco.Counters.{ReconCounters}

-- The rings hold 2 ^ 16 cells.
abbrev pub ring_bits : ℕ
ring_bits = 16

pub record Reconciler : Type 0 where
  pub store : OrderStateStore
  pub counters : ReconCounters
  pub divergence_ring : SpscRing Divergence
  pub seq_gap_ring : SpscRing SequenceGapEvent
  pub primary_seq_tracker : SequenceTracker
  pub dropcopy_seq_tracker : SequenceTracker
  pub timer_wheel : Option WheelTimer
  pub config : ReconConfig
  pub last_poll_tsc : ℕ

abbrev pub counted : Reconciler → ReconCounters → Reconciler
counted r c = record r { counters = c }

abbrev pub tracker_of : Reconciler → Source → SequenceTracker
tracker_of r Source.primary = r.primary_seq_tracker
tracker_of r Source.drop_copy = r.dropcopy_seq_tracker

abbrev pub with_tracker : Reconciler → Source → SequenceTracker → Reconciler
with_tracker r Source.primary t = record r { primary_seq_tracker = t }
with_tracker r Source.drop_copy t = record r { dropcopy_seq_tracker = t }

unfoldable pub classify_divergence_type : OrderState → MismatchMask → DivergenceType
classify_divergence_type os mismatch =
    if has mismatch existence_bit
    then (if os.seen_internal && not os.seen_dropcopy
        then DivergenceType.missing_drop_copy
        else DivergenceType.phantom_order)
    else if has mismatch status_bit
    then DivergenceType.state_mismatch
    else if has mismatch cum_qty_bit
    then DivergenceType.quantity_mismatch
    else if has mismatch avg_px_bit || has mismatch exec_id_bit
    then DivergenceType.state_mismatch
    else DivergenceType.state_mismatch

abbrev pub both_sides_seen : OrderState → Bool
both_sides_seen os = os.seen_internal && os.seen_dropcopy

unfoldable pub increment_divergence_counter : ReconCounters → DivergenceType → ReconCounters
increment_divergence_counter c DivergenceType.missing_fill = record c {
  divergence_missing_fill = inc64 c.divergence_missing_fill;
}
increment_divergence_counter c DivergenceType.missing_drop_copy = c
increment_divergence_counter c DivergenceType.phantom_order = record c {
  divergence_phantom = inc64 c.divergence_phantom;
}
increment_divergence_counter c DivergenceType.state_mismatch = record c {
  divergence_state_mismatch = inc64 c.divergence_state_mismatch;
}
increment_divergence_counter c DivergenceType.quantity_mismatch = record c {
  divergence_quantity_mismatch = inc64 c.divergence_quantity_mismatch;
}
increment_divergence_counter c DivergenceType.timing_anomaly = record c {
  divergence_timing_anomaly = inc64 c.divergence_timing_anomaly;
}
