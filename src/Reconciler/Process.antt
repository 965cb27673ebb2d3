-- ===== src/Reconciler/Process.antt =====
-- src/core/reconciler.cpp: the handling of one execution event.
use fx_dropcopy_primary_reco.Prelude.{
  ℕ, Bool, true, false, not, ◌&&◌, if◌then◌else◌, Option, none, some, inc64,
}
use fx_dropcopy_primary_reco.Prelude.Int.{pos}
use fx_dropcopy_primary_reco.Event.{Source, ExecEvent}
use fx_dropcopy_primary_reco.Clock.{TscCalibration}
use fx_dropcopy_primary_reco.Mask.{ReconState, set_flag, status_bit}
use fx_dropcopy_primary_reco.Mask
use fx_dropcopy_primary_reco.Order.{
  OrderState, apply_internal_exec, apply_dropcopy_exec, compute_mismatch,
}
use fx_dropcopy_primary_reco.Sequence.{GapKind, SequenceGapEvent, empty_gap_event, track_sequence}
use fx_dropcopy_primary_reco.Gap.{mark_gap_uncertainty}
use fx_dropcopy_primary_reco.Ring.{try_push}
use fx_dropcopy_primary_reco.Divergence.{classify_divergence, empty_divergence}
use fx_dropcopy_primary_reco.Wheel.{WheelTimer}
use fx_dropcopy_primary_reco.Store.{Layout, upsert, deref}
use fx_dropcopy_primary_reco.Counters.{ReconCounters}
use fx_dropcopy_primary_reco.Reconciler.{
  Reconciler, counted, tracker_of, with_tracker, ring_bits, increment_divergence_counter,
}
use fx_dropcopy_primary_reco.Reconciler.Grace.{confirm, handle_recon_state_transition}
use fx_dropcopy_primary_reco.Reconciler.Deadline.{store_back}

-- The switch on the source and the kind of a sequence report.
unfoldable pub count_report : ReconCounters → Source → GapKind → ReconCounters
count_report c Source.primary GapKind.gap = record c { primary_seq_gaps = inc64 c.primary_seq_gaps }
count_report c Source.primary GapKind.duplicate = record c {
  primary_seq_duplicates = inc64 c.primary_seq_duplicates;
}
count_report c Source.primary GapKind.gap_fill = record c {
  primary_seq_out_of_order = inc64 c.primary_seq_out_of_order;
  gaps_closed_by_fill = inc64 c.gaps_closed_by_fill;
}
count_report c Source.primary GapKind.out_of_order = record c {
  primary_seq_out_of_order = inc64 c.primary_seq_out_of_order;
}
count_report c Source.drop_copy GapKind.gap = record c {
  dropcopy_seq_gaps = inc64 c.dropcopy_seq_gaps;
}
count_report c Source.drop_copy GapKind.duplicate = record c {
  dropcopy_seq_duplicates = inc64 c.dropcopy_seq_duplicates;
}
count_report c Source.drop_copy GapKind.gap_fill = record c {
  dropcopy_seq_out_of_order = inc64 c.dropcopy_seq_out_of_order;
  gaps_closed_by_fill = inc64 c.gaps_closed_by_fill;
}
count_report c Source.drop_copy GapKind.out_of_order = record c {
  dropcopy_seq_out_of_order = inc64 c.dropcopy_seq_out_of_order;
}

unfoldable pub report_gap : Reconciler → SequenceGapEvent → Reconciler
unfolding count_report
report_gap r gap_ev =
    let c = count_report r.counters gap_ev.source gap_ev.kind in
    let (ring, pushed) = try_push ring_bits r.seq_gap_ring gap_ev in
    if pushed
    then record r { counters = c; seq_gap_ring = ring }
    else counted r (record c { sequence_gap_ring_drops = inc64 c.sequence_gap_ring_drops })

-- The sequence tracking at the head of `process_event`.
unfoldable pub track : Reconciler → ExecEvent → Reconciler
unfolding report_gap
track r ev =
    let t =
      track_sequence (tracker_of r ev.source) ev.source ev.session_id ev.seq_num ev.ingest_tsc
        empty_gap_event in
    let r' = with_tracker r ev.source t.tracker in
    if t.reported
    then elim t.written [
      | none ↦ report_gap r' empty_gap_event
      | some gap_ev ↦ report_gap r' gap_ev
    ]
    else r'

-- `if (tracker.gap_open) mark_gap_uncertainty(*st, source, tracker)`
unfoldable pub mark : Source → Reconciler × OrderState → Reconciler × OrderState
mark source (r, os) =
    let (os', t) = mark_gap_uncertainty os source (tracker_of r source) in
    if (tracker_of r source).gap_open then (with_tracker r source t, os') else (r, os)

unfoldable pub apply_view :
    Reconciler → OrderState → ExecEvent → Source → Reconciler × OrderState × Bool
apply_view r os ev Source.primary =
    let (os', ok) = apply_internal_exec os ev in
    (
      counted r (record (r.counters) { internal_events = inc64 r.counters.internal_events }),
      record os' { primary_last_seen_tsc = ev.ingest_tsc },
      ok,
    )
apply_view r os ev Source.drop_copy =
    let (os', ok) = apply_dropcopy_exec os ev in
    (
      counted r (record (r.counters) { dropcopy_events = inc64 r.counters.dropcopy_events }),
      record os' { dropcopy_last_seen_tsc = ev.ingest_tsc },
      ok,
    )

-- The immediate classification, without tolerances.
unfoldable pub legacy : Reconciler → OrderState → Reconciler
unfolding increment_divergence_counter
legacy r os =
    let (div, found) = classify_divergence os empty_divergence (pos 0) (pos 0) 0 in
    let (ring, pushed) = try_push ring_bits r.divergence_ring div in
    let total : ReconCounters = record (r.counters) {
      divergence_total = inc64 r.counters.divergence_total;
    } in
    if not found
    then r
    else if not pushed
    then counted r
        (record (r.counters) { divergence_ring_drops = inc64 r.counters.divergence_ring_drops })
    else record r { divergence_ring = ring; counters = increment_divergence_counter total div.kind }

-- The windowed branch: the mismatch is stored before the transition.
unfoldable pub reconcile_windowed :
    TscCalibration → ExecEvent → Reconciler → OrderState → Reconciler × OrderState
unfolding handle_recon_state_transition
reconcile_windowed cal ev r os =
    let m = compute_mismatch os r.config.qty_tolerance r.config.px_tolerance in
    handle_recon_state_transition cal r (record os { current_mismatch = m }) m ev.ingest_tsc

abbrev pub is_set : Option WheelTimer → Bool
is_set none = false
is_set (some w) = true

-- After the view: an error is confirmed at once, the others are reconciled.
unfoldable pub reconcile :
    TscCalibration → ExecEvent → Reconciler → OrderState → Bool → Reconciler × OrderState
unfolding confirm reconcile_windowed legacy
reconcile cal ev r os false = confirm cal r os (set_flag Mask.empty status_bit) ev.ingest_tsc
reconcile cal ev r os true =
    if r.config.enable_windowed_recon && is_set r.timer_wheel
    then reconcile_windowed cal ev r os
    else (legacy r os, os)

-- The handling of the order that the event is about.
unfoldable pub update :
    TscCalibration → ExecEvent → Reconciler → OrderState → Reconciler × OrderState
unfolding mark apply_view reconcile
update cal ev r os =
    let (r₁, os₁) = mark Source.drop_copy (mark Source.primary (r, os)) in
    let (r₂, os₂, ok) = apply_view r₁ os₁ ev ev.source in reconcile cal ev r₂ os₂ ok

-- From the bucket that `upsert` returned, which holds an order; or the event is dropped.
unfoldable pub update_at :
    TscCalibration → ExecEvent → Reconciler → ℕ → Option OrderState → Reconciler
unfolding update
update_at cal ev r i none = r
update_at cal ev r i (some os) = store_back i (update cal ev r os)

unfoldable pub update_found : TscCalibration → ExecEvent → Reconciler → Option ℕ → Reconciler
unfolding update_at
update_found cal ev r none =
    counted r (record (r.counters) { store_overflow = inc64 r.counters.store_overflow })
update_found cal ev r (some i) = update_at cal ev r i (deref r.store i)

unfoldable pub process_event : Layout → TscCalibration → Reconciler → ExecEvent → Reconciler
unfolding track update_found
process_event l cal r ev =
    let r' = track r ev in
    let (st, ptr) = upsert l r'.store ev in update_found cal ev (record r' { store = st }) ptr
