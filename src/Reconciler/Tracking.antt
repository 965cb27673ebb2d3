-- ===== src/Reconciler/Tracking.antt =====
-- What the parts of `process_event` in src/core/reconciler.cpp keep.
use fx_dropcopy_primary_reco.Prelude.{
  either, ◌+◌, ◌<◌, ◌≡◌, refl, subst, Bool, true, false, arith, none, some, not, ◌&&◌, u64, inc64,
}
use fx_dropcopy_primary_reco.Prelude.Int.{pos}
use fx_dropcopy_primary_reco.Event.{Source, ExecEvent}
use fx_dropcopy_primary_reco.Clock.{TscCalibration}
use fx_dropcopy_primary_reco.Order.{OrderState, compute_mismatch}
use fx_dropcopy_primary_reco.Sequence.{
  GapKind, track_sequence, empty_gap_event, SequenceGapEvent, SequenceTracker,
}
use fx_dropcopy_primary_reco.Sequence.Invariant.{track_sequence-IsValid}
use fx_dropcopy_primary_reco.Gap.{mark_gap_uncertainty}
use fx_dropcopy_primary_reco.Ring.{try_push}
use fx_dropcopy_primary_reco.Counters.{ReconCounters}
use fx_dropcopy_primary_reco.Divergence.{DivergenceType, classify_divergence, empty_divergence}
use fx_dropcopy_primary_reco.Reconciler.{
  Reconciler, tracker_of, with_tracker, ring_bits, increment_divergence_counter,
}
use fx_dropcopy_primary_reco.Reconciler.Grace.{handle_recon_state_transition}
use fx_dropcopy_primary_reco.Reconciler.Process.{
  legacy, reconcile_windowed, reconcile, mark, track, report_gap, count_report, is_set,
}
use fx_dropcopy_primary_reco.Reconciler.Keeps.{
  Keeps, same-Keeps, both-Keeps, counted-Keeps, published-Keeps, reported-Keeps, confirm-Keeps,
  with_tracker-Keeps, mark-IsValid,
}
use fx_dropcopy_primary_reco.Reconciler.Branches.{transition-Keeps}

-- Two sets of counters that count the same events.
pub record SameEvents (c d : ReconCounters) : Type 0 where
  pub internal : c.internal_events ≡ d.internal_events
  pub dropcopy : c.dropcopy_events ≡ d.dropcopy_events
  pub overflow : c.store_overflow ≡ d.store_overflow

count_report-SameEvents :
    (c : ReconCounters) (source : Source) (kind : GapKind)
    → SameEvents (count_report c source kind) c
unfolding count_report
count_report-SameEvents c source kind = ground arith

increment-SameEvents :
    (c : ReconCounters) (kind : DivergenceType) → SameEvents (increment_divergence_counter c kind) c
unfolding increment_divergence_counter
increment-SameEvents c kind = ground arith

legacy-Keeps : (r : Reconciler) (os : OrderState) → Keeps os.key r (legacy r os, os)
unfolding legacy
legacy-Keeps r os =
    let P : Reconciler → Type 0 = λ x. Keeps os.key r (x, os) in
    let (div, found) = classify_divergence os empty_divergence (pos 0) (pos 0) 0 in
    let (ring, pushed) = try_push ring_bits r.divergence_ring div in
    let c : ReconCounters = record (r.counters) {
      divergence_total = inc64 r.counters.divergence_total;
    } in
    let same = increment-SameEvents c div.kind in
    either P (not found) (same-Keeps r os) (
      either P (not pushed) (counted-Keeps r os _ refl refl refl) (
        both-Keeps (published-Keeps r os div) (
          counted-Keeps (record r { divergence_ring = ring }) os
            (increment_divergence_counter c div.kind) same.internal same.dropcopy same.overflow)))

pub reconcile-Keeps :
    (cal : TscCalibration) (ev : ExecEvent) (r : Reconciler) (os : OrderState) (ok : Bool)
    → Keeps os.key r (reconcile cal ev r os ok)
unfolding reconcile reconcile_windowed handle_recon_state_transition
reconcile-Keeps cal ev r os false = confirm-Keeps cal r os _ ev.ingest_tsc
reconcile-Keeps cal ev r os true =
    let m = compute_mismatch os r.config.qty_tolerance r.config.px_tolerance in
    let os' : OrderState = record os { current_mismatch = m } in
    either (Keeps os.key r) (r.config.enable_windowed_recon && is_set r.timer_wheel)
      (transition-Keeps cal r os' m ev.ingest_tsc os.recon_state) (legacy-Keeps r os)

mark-key :
    (os : OrderState) (source : Source) (t : SequenceTracker)
    → (mark_gap_uncertainty os source t).0.key ≡ os.key
unfolding mark_gap_uncertainty
mark-key os source t = ground arith

pub mark-Keeps :
    (source : Source) (r : Reconciler) (os : OrderState) → Keeps os.key r (mark source (r, os))
unfolding mark
mark-Keeps source r os =
    let t = tracker_of r source in
    let (os', t') = mark_gap_uncertainty os source t in
    either (Keeps os.key r) t.gap_open
      (subst (λ k. Keeps k r (with_tracker r source t', os')) (mark-key os source t)
        (with_tracker-Keeps r os' source t' (mark-IsValid os source t)))
      (same-Keeps r os)

report_gap-Keeps :
    (r : Reconciler) (os : OrderState) (e : SequenceGapEvent) → Keeps os.key r (report_gap r e, os)
unfolding report_gap
report_gap-Keeps r os e =
    let P : Reconciler → Type 0 = λ x. Keeps os.key r (x, os) in
    let (ring, pushed) = try_push ring_bits r.seq_gap_ring e in
    let c = count_report r.counters e.source e.kind in
    let same = count_report-SameEvents r.counters e.source e.kind in
    either P pushed
      (both-Keeps (reported-Keeps r os e) (
        counted-Keeps (record r { seq_gap_ring = ring }) os c same.internal same.dropcopy
          same.overflow))
      (counted-Keeps r os (record c { sequence_gap_ring_drops = inc64 c.sequence_gap_ring_drops })
        same.internal same.dropcopy same.overflow)

pub track-Keeps :
    (r : Reconciler) (os : OrderState) (ev : ExecEvent)
    → ev.seq_num + 1 < u64
    → Keeps os.key r (track r ev, os)
unfolding track
track-Keeps r os ev h =
    let P : Reconciler → Type 0 = λ x. Keeps os.key r (x, os) in
    let t =
      track_sequence (tracker_of r ev.source) ev.source ev.session_id ev.seq_num ev.ingest_tsc
        empty_gap_event in
    let r' = with_tracker r ev.source t.tracker in
    let tracked = with_tracker-Keeps r os ev.source t.tracker (λ v.
      track_sequence-IsValid (tracker_of r ev.source) ev.source ev.session_id ev.seq_num
        ev.ingest_tsc empty_gap_event v h) in
    either P t.reported
      (elim t.written
        as (λ o. P (elim o [ none ↦ report_gap r' empty_gap_event | some e ↦ report_gap r' e ])) [
          | none ↦ both-Keeps tracked (report_gap-Keeps r' os empty_gap_event)
          | some e ↦ both-Keeps tracked (report_gap-Keeps r' os e)
        ])
      tracked
