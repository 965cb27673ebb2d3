-- ===== src/Tests/Recon.antt =====
-- The reconciler at concrete inputs.
use fx_dropcopy_primary_reco.Prelude.{
  ◌-◌, ◌^◌, ◌≡◌, refl, true, false, ◌&&◌, arith, ltb, inc64, length, if◌then◌else◌,
}
use fx_dropcopy_primary_reco.Event.{Source}
use fx_dropcopy_primary_reco.Clock.{initial, ns_to_cycles}
use fx_dropcopy_primary_reco.Mask.{ReconState, any}
use fx_dropcopy_primary_reco.Timer.{is_timer_valid}
use fx_dropcopy_primary_reco.Order.{OrderState, compute_mismatch, should_emit_divergence}
use fx_dropcopy_primary_reco.Sequence.{close_gap, empty_gap_event}
use fx_dropcopy_primary_reco.Sequence.Invariant.{empty-IsValid}
use fx_dropcopy_primary_reco.Ring
use fx_dropcopy_primary_reco.Ring.Refine.{make-IsValid, length-contents}
use fx_dropcopy_primary_reco.Divergence.{empty_divergence}
use fx_dropcopy_primary_reco.Store.Upsert.{reset_epoch-IsValid}
use fx_dropcopy_primary_reco.Reconciler.{Reconciler, counted, ring_bits}
use fx_dropcopy_primary_reco.Reconciler.Gaps.{is_gap_suppressed, check_gap_timeouts}
use fx_dropcopy_primary_reco.Reconciler.Emit.{emit_confirmed_divergence, confirmed}
use fx_dropcopy_primary_reco.Reconciler.Deadline.{stale, expire}
use fx_dropcopy_primary_reco.Reconciler.Process.{process_event, reconcile_windowed}
use fx_dropcopy_primary_reco.Reconciler.Sound.{IsSound}
use fx_dropcopy_primary_reco.Reconciler.Expiry.{waits, decided, recheck_fits, expire-decided}
use fx_dropcopy_primary_reco.Reconciler.Events.{HasRoom, Counts, process_event-Counts}
use fx_dropcopy_primary_reco.Reconciler.Emission.{queue, Emitted, emit-Emitted, emit_repeat}
use fx_dropcopy_primary_reco.Reconciler.Closing.{is_overdue, check_gap_timeouts-closes}
use fx_dropcopy_primary_reco.Reconciler.States.{
  next_state, is_awaiting, deadline_fits, reconcile_windowed-next,
}
use fx_dropcopy_primary_reco.Tests.Data.{
  layout, small_store, recon, seen_twice, seen_once, new_report, gapped,
}

pub recon-IsSound : IsSound 2 recon
recon-IsSound = record {
  store_valid = reset_epoch-IsValid 2 small_store refl;
  parts_valid = record {
    primary_valid = empty-IsValid;
    dropcopy_valid = empty-IsValid;
    divergences_valid = make-IsValid ring_bits empty_divergence;
    gaps_valid = make-IsValid ring_bits empty_gap_event;
  };
}

recon-HasRoom : HasRoom recon
recon-HasRoom = record {
  internal_room = omega arith;
  dropcopy_room = omega arith;
  overflow_room = omega arith;
}

process_event-Counts_example :
    IsSound 2 (process_event layout initial recon new_report)
    × Counts 1 0 recon.counters (process_event layout initial recon new_report).counters
process_event-Counts_example =
    process_event-Counts layout initial 2 recon new_report recon-IsSound recon-HasRoom (omega arith)

-- An order in its grace period, with the deadline of generation 3.
abbrev in_grace : OrderState
in_grace = record seen_twice { recon_state = ReconState.in_grace; timer_generation = 3 }

expire-decided_example :
    ((is_timer_valid in_grace 3 && waits in_grace.recon_state) ≡ false
      → expire initial recon in_grace 3 ≡ (stale recon, in_grace))
    × ((is_timer_valid in_grace 3 && waits in_grace.recon_state) ≡ true
        → (expire initial recon in_grace 3).1.recon_state
          ≡ decided
              (any (compute_mismatch in_grace recon.config.qty_tolerance recon.config.px_tolerance))
              (is_gap_suppressed initial recon in_grace).1
              (recheck_fits initial recon in_grace recon.timer_wheel))
expire-decided_example = expire-decided initial recon in_grace 3

reconcile_windowed-next_example :
    ((reconcile_windowed initial new_report recon seen_once).1.recon_state
      ≡ next_state seen_once.recon_state
          (any (compute_mismatch seen_once recon.config.qty_tolerance recon.config.px_tolerance))
          (deadline_fits initial recon seen_once 50 recon.timer_wheel)
          (is_gap_suppressed initial recon seen_once).1)
    × (is_awaiting (reconcile_windowed initial new_report recon seen_once).1.recon_state ≡ false)
reconcile_windowed-next_example =
    reconcile_windowed-next initial new_report recon seen_once refl refl

emit-Emitted_example :
    Emitted recon seen_twice
      (confirmed seen_twice 2 50)
      50
      (should_emit_divergence initial seen_twice 2 50 recon.config.divergence_dedup_window_ns)
      (ltb (length (queue recon)) (2 ^ ring_bits - 1))
      (emit_confirmed_divergence initial recon seen_twice 2 50)
emit-Emitted_example =
    emit-Emitted initial recon seen_twice 2 50 (make-IsValid ring_bits empty_divergence)

recon-empty : length (queue recon) ≡ 0
unfolding Ring.make Ring.size_approx
recon-empty = length-contents ring_bits empty_divergence recon.divergence_ring

emit_repeat_example :
    let p = emit_confirmed_divergence initial recon seen_twice 2 50 in
    emit_confirmed_divergence initial p.0 p.1 2 60 ≡ (
      counted p.0
          (record (p.0.counters) { divergence_deduped = inc64 p.0.counters.divergence_deduped }),
      p.1,
    )
unfolding should_emit_divergence ns_to_cycles initial
emit_repeat_example =
    emit_repeat initial recon seen_twice 2 50 60 (make-IsValid ring_bits empty_divergence) refl
      (let e = recon-empty in omega arith) (omega arith) (omega arith) (omega arith)

abbrev gap_recon : Reconciler
gap_recon = record recon { primary_seq_tracker = gapped; last_poll_tsc = 5_000_000_000 }

check_gap_timeouts-closes_example :
    let timeout = ns_to_cycles initial gap_recon.config.gap_timeout_ns in
    let r' = check_gap_timeouts initial gap_recon 200_000_000_000 in
    (r'.primary_seq_tracker
      ≡ (if is_overdue gapped 200_000_000_000 timeout then (close_gap gapped).0 else gapped))
    × (is_overdue r'.primary_seq_tracker 200_000_000_000 timeout ≡ false)
check_gap_timeouts-closes_example =
    check_gap_timeouts-closes initial gap_recon Source.primary 200_000_000_000
