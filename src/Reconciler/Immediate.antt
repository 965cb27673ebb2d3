-- ===== src/Reconciler/Immediate.antt =====
-- A reconciler of src/core/reconciler.cpp without a timer wheel, as the constructor that takes none
-- builds it: no event gives it one.
use fx_dropcopy_primary_reco.Prelude.{
  either, ℕ, ◌≡◌, refl, ◌∙◌, ap, sym, subst, Bool, true, false, not, ◌&&◌, if◌then◌else◌, Option,
  none, some, ltb, ◌!=◌, sub64,
}
use fx_dropcopy_primary_reco.Prelude.Int.{pos}
use fx_dropcopy_primary_reco.Event.{Source, ExecEvent}
use fx_dropcopy_primary_reco.Clock.{TscCalibration, ns_to_cycles}
use fx_dropcopy_primary_reco.Order.{OrderState}
use fx_dropcopy_primary_reco.Sequence.{SequenceGapEvent, track_sequence, empty_gap_event, close_gap}
use fx_dropcopy_primary_reco.Ring.{try_push}
use fx_dropcopy_primary_reco.Divergence.{classify_divergence, empty_divergence}
use fx_dropcopy_primary_reco.Store.{Layout, upsert, deref}
use fx_dropcopy_primary_reco.Reconciler.{Reconciler, tracker_of, with_tracker, ring_bits}
use fx_dropcopy_primary_reco.Reconciler.Gaps.{
  close_session_gap, check_gap_timeout, check_gap_timeouts,
}
use fx_dropcopy_primary_reco.Reconciler.Process.{
  report_gap, track, mark, apply_view, legacy, reconcile, update, update_at, update_found, is_set,
  process_event, reconcile_windowed,
}
use fx_dropcopy_primary_reco.Reconciler.Calm.{
  Calm, calm_at, same-Calm, both-Calm, with_tracker-Calm, confirm-Calm,
}

report_gap-Calm : (r : Reconciler) (e : SequenceGapEvent) → Calm r (report_gap r e)
unfolding report_gap
report_gap-Calm r e =
    either (Calm r) (try_push ring_bits r.seq_gap_ring e).1 (calm_at r _ refl refl)
      (calm_at r _ refl refl)

track-Calm : (r : Reconciler) (ev : ExecEvent) → Calm r (track r ev)
unfolding track
track-Calm r ev =
    let t =
      track_sequence (tracker_of r ev.source) ev.source ev.session_id ev.seq_num ev.ingest_tsc
        empty_gap_event in
    let r' = with_tracker r ev.source t.tracker in
    let tracked = with_tracker-Calm r ev.source t.tracker in
    either (Calm r) t.reported
      (elim t.written
        as (λ o.
          Calm r (elim o [ none ↦ report_gap r' empty_gap_event | some e ↦ report_gap r' e ])) [
            | none ↦ both-Calm tracked (report_gap-Calm r' empty_gap_event)
            | some e ↦ both-Calm tracked (report_gap-Calm r' e)
          ])
      tracked

mark-Calm : (source : Source) (r : Reconciler) (os : OrderState) → Calm r (mark source (r, os)).0
unfolding mark
mark-Calm source r os =
    either (λ (p : Reconciler × OrderState). Calm r p.0) (tracker_of r source).gap_open
      (with_tracker-Calm r source _) (same-Calm r)

apply_view-Calm :
    (r : Reconciler) (os : OrderState) (ev : ExecEvent) (source : Source)
    → Calm r (apply_view r os ev source).0
unfolding apply_view
apply_view-Calm r os ev Source.primary = calm_at r _ refl refl
apply_view-Calm r os ev Source.drop_copy = calm_at r _ refl refl

legacy-Calm : (r : Reconciler) (os : OrderState) → Calm r (legacy r os)
unfolding legacy
legacy-Calm r os =
    let (div, found) = classify_divergence os empty_divergence (pos 0) (pos 0) 0 in
    either (Calm r) (not found) (same-Calm r) (
      either (Calm r) (not (try_push ring_bits r.divergence_ring div).1) (calm_at r _ refl refl)
        (calm_at r _ refl refl))

never_windowed :
    (r : Reconciler) (b : Bool) → r.timer_wheel ≡ none → (b && is_set r.timer_wheel) ≡ false
never_windowed r b h = ap (λ o. b && is_set o) h ∙ never b
  where
    never : (c : Bool) → (c && false) ≡ false
    never true = refl
    never false = refl

reconcile-Calm :
    (cal : TscCalibration) (ev : ExecEvent) (r : Reconciler) (os : OrderState) (ok : Bool)
    → r.timer_wheel ≡ none
    → Calm r (reconcile cal ev r os ok).0
unfolding reconcile
reconcile-Calm cal ev r os false h = confirm-Calm cal r os _ ev.ingest_tsc
reconcile-Calm cal ev r os true h =
    subst (λ b. Calm r (if b then reconcile_windowed cal ev r os else (legacy r os, os)).0)
      (sym (never_windowed r r.config.enable_windowed_recon h)) (legacy-Calm r os)

update-Calm :
    (cal : TscCalibration) (ev : ExecEvent) (r : Reconciler) (os : OrderState)
    → r.timer_wheel ≡ none
    → Calm r (update cal ev r os).0
unfolding update
update-Calm cal ev r os h =
    let p = mark Source.primary (r, os) in
    let q = mark Source.drop_copy p in
    let (r', os', ok) = apply_view q.0 q.1 ev ev.source in
    let seen : Calm r r' =
      both-Calm (mark-Calm Source.primary r os)
        (both-Calm (mark-Calm Source.drop_copy p.0 p.1) (apply_view-Calm q.0 q.1 ev ev.source)) in
    both-Calm seen (reconcile-Calm cal ev r' os' ok (seen.same_wheel ∙ h))

update_at-Calm :
    (cal : TscCalibration) (ev : ExecEvent) (r : Reconciler) (i : ℕ) (o : Option OrderState)
    → r.timer_wheel ≡ none
    → Calm r (update_at cal ev r i o)
unfolding update_at
update_at-Calm cal ev r i none h = same-Calm r
update_at-Calm cal ev r i (some os) h =
    both-Calm (update-Calm cal ev r os h) (calm_at _ _ refl refl)

update_found-Calm :
    (cal : TscCalibration) (ev : ExecEvent) (r : Reconciler) (i : Option ℕ)
    → r.timer_wheel ≡ none
    → Calm r (update_found cal ev r i)
unfolding update_found
update_found-Calm cal ev r none h = calm_at r _ refl refl
update_found-Calm cal ev r (some i) h = update_at-Calm cal ev r i (deref r.store i) h

-- No event gives the reconciler a timer wheel.
pub process_event-Calm :
    (l : Layout) (cal : TscCalibration) (r : Reconciler) (ev : ExecEvent)
    → r.timer_wheel ≡ none
    → Calm r (process_event l cal r ev)
unfolding process_event
process_event-Calm l cal r ev h =
    let r' = track r ev in
    let tracked = track-Calm r ev in
    let placed = upsert l r'.store ev in
    let r'' : Reconciler = record r' { store = placed.0 } in
    both-Calm tracked (
      both-Calm (calm_at r' r'' refl refl)
        (update_found-Calm cal ev r'' placed.1 (tracked.same_wheel ∙ h)))

close_session_gap-Calm : (r : Reconciler) (source : Source) → Calm r (close_session_gap r source)
unfolding close_session_gap
close_session_gap-Calm r source =
    let t = tracker_of r source in
    let closed = with_tracker-Calm r source (close_gap t).0 in
    either (Calm r) (not t.gap_open) (same-Calm r)
      (either (Calm r) (close_gap t).1 (both-Calm closed (calm_at _ _ refl refl)) closed)

check_gap_timeout-Calm :
    (r : Reconciler) (source : Source) (now timeout : ℕ)
    → Calm r (check_gap_timeout r source now timeout)
unfolding check_gap_timeout
check_gap_timeout-Calm r source now timeout =
    let t = tracker_of r source in
    let late = t.gap_opened_tsc != 0 && ltb timeout (sub64 now t.gap_opened_tsc) in
    either (Calm r) (t.gap_open && late)
      (both-Calm (close_session_gap-Calm r source) (calm_at _ _ refl refl)) (same-Calm r)

pub check_gap_timeouts-Calm :
    (cal : TscCalibration) (r : Reconciler) (now : ℕ) → Calm r (check_gap_timeouts cal r now)
unfolding check_gap_timeouts
check_gap_timeouts-Calm cal r now =
    let timeout = ns_to_cycles cal r.config.gap_timeout_ns in
    both-Calm (check_gap_timeout-Calm r Source.primary now timeout) (
      check_gap_timeout-Calm (check_gap_timeout r Source.primary now timeout) Source.drop_copy now
        timeout)
