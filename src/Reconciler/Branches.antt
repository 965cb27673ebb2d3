-- ===== src/Reconciler/Branches.antt =====
-- What the branches of src/core/reconciler.cpp on one order keep.
use fx_dropcopy_primary_reco.Prelude.{
  either, ℕ, ◌≡◌, refl, Bool, true, false, if◌then◌else◌, Option, none, some, not, ◌&&◌, ◌==◌, ◌!=◌,
}
use fx_dropcopy_primary_reco.Event.{Source}
use fx_dropcopy_primary_reco.Clock.{TscCalibration, ns_to_cycles}
use fx_dropcopy_primary_reco.Mask.{ReconState, any, is_none}
use fx_dropcopy_primary_reco.Order.{OrderState}
use fx_dropcopy_primary_reco.Sequence.{close_gap}
use fx_dropcopy_primary_reco.Sequence.Invariant.{close_gap-IsValid}
use fx_dropcopy_primary_reco.Gap.{is_suppressed_by_gap}
use fx_dropcopy_primary_reco.Counters.{ReconCounters}
use fx_dropcopy_primary_reco.Wheel.{WheelTimer}
use fx_dropcopy_primary_reco.Timer.{schedule_recon_deadline, cancel_recon_deadline}
use fx_dropcopy_primary_reco.Reconciler.{
  Reconciler, counted, both_sides_seen, tracker_of, with_tracker,
}
use fx_dropcopy_primary_reco.Reconciler.Gaps.{close_timed_out, is_gap_suppressed}
use fx_dropcopy_primary_reco.Reconciler.Emit.{clear_uncertainties}
use fx_dropcopy_primary_reco.Reconciler.Grace.{
  confirm, overflow_timer, observed, schedule_grace, enter_grace_period, exit_grace_period,
  set_matched, compare_views, keep_waiting, transition,
}
use fx_dropcopy_primary_reco.Reconciler.Keeps.{
  Keeps, same-Keeps, both-Keeps, counted-Keeps, wheel-Keeps, with_tracker-Keeps,
  clear_uncertainties-Keeps, confirm-Keeps,
}

-- A deadline that was put on the wheel, or did not fit it.
pub scheduled-Keeps :
    (cal : TscCalibration) (r : Reconciler) (os : OrderState) (m now : ℕ) (w : WheelTimer)
    (done : Bool) (f : Reconciler → Reconciler)
    → ((r' : Reconciler) → Keeps os.key r' (f r', os))
    → Keeps os.key r (
        if done
        then (f (record r { timer_wheel = some w }), os)
        else confirm cal (overflow_timer (record r { timer_wheel = some w })) os m now)
scheduled-Keeps cal r os m now w true f h =
    both-Keeps (wheel-Keeps r os (some w)) (h (record r { timer_wheel = some w }))
scheduled-Keeps cal r os m now w false f h =
    let r' : Reconciler = record r { timer_wheel = some w } in
    both-Keeps (wheel-Keeps r os (some w)) (
      both-Keeps (counted-Keeps r' os _ refl refl refl)
        (confirm-Keeps cal (overflow_timer r') os m now))

schedule_grace-Keeps :
    (cal : TscCalibration) (r : Reconciler) (os : OrderState) (m now : ℕ) (w : Option WheelTimer)
    → Keeps os.key r (schedule_grace cal r os m now w)
unfolding schedule_grace schedule_recon_deadline
schedule_grace-Keeps cal r os m now none = counted-Keeps r os _ refl refl refl
schedule_grace-Keeps cal r os m now (some w) =
    let (w', os', done) = schedule_recon_deadline w os os.recon_deadline_tsc in
    scheduled-Keeps cal r os' m now w' done observed (λ r'. counted-Keeps r' os' _ refl refl refl)

pub enter_grace-Keeps :
    (cal : TscCalibration) (r : Reconciler) (os : OrderState) (m now : ℕ)
    → Keeps os.key r (enter_grace_period cal r os m now)
unfolding enter_grace_period
enter_grace-Keeps cal r os m now = schedule_grace-Keeps cal r _ m now r.timer_wheel

exit_grace-Keeps : (r : Reconciler) (os : OrderState) → Keeps os.key r (exit_grace_period r os)
unfolding exit_grace_period cancel_recon_deadline
exit_grace-Keeps r os =
    let os' : OrderState = record (cancel_recon_deadline os) {
      recon_state = ReconState.matched;
      current_mismatch = 0;
    } in
    let p = clear_uncertainties r os' in
    both-Keeps (clear_uncertainties-Keeps r os') (counted-Keeps p.0 p.1 _ refl refl refl)

abbrev set_state : OrderState → ReconState → OrderState
set_state os state = record os { recon_state = state }

compare_views-Keeps :
    (cal : TscCalibration) (r : Reconciler) (os : OrderState) (m now : ℕ)
    → Keeps os.key r (compare_views cal r os m now)
unfolding compare_views set_matched
compare_views-Keeps cal r os m now =
    either (Keeps os.key r) (any m) (enter_grace-Keeps cal r os m now)
      (counted-Keeps r (set_state os ReconState.matched) _ refl refl refl)

closed-Keeps :
    (r : Reconciler) (os : OrderState) (source : Source) (c : ReconCounters)
    → c.internal_events ≡ r.counters.internal_events
    → c.dropcopy_events ≡ r.counters.dropcopy_events
    → c.store_overflow ≡ r.counters.store_overflow
    → Keeps os.key r (counted (with_tracker r source (close_gap (tracker_of r source)).0) c, os)
closed-Keeps r os Source.primary c i d o =
    both-Keeps (with_tracker-Keeps r os Source.primary _ (close_gap-IsValid _))
      (counted-Keeps (with_tracker r Source.primary _) os c i d o)
closed-Keeps r os Source.drop_copy c i d o =
    both-Keeps (with_tracker-Keeps r os Source.drop_copy _ (close_gap-IsValid _))
      (counted-Keeps (with_tracker r Source.drop_copy _) os c i d o)

close_timed_out-Keeps :
    (r : Reconciler) (os : OrderState) (source : Source) (timeout : ℕ)
    → Keeps os.key r (close_timed_out r source timeout, os)
unfolding close_timed_out
close_timed_out-Keeps r os source timeout =
    either (λ (x : Reconciler). Keeps os.key r (x, os)) _
      (closed-Keeps r os source _ refl refl refl) (same-Keeps r os)

pub is_gap_suppressed-Keeps :
    (cal : TscCalibration) (r : Reconciler) (os : OrderState)
    → Keeps os.key r ((is_gap_suppressed cal r os).0, os)
unfolding is_gap_suppressed
is_gap_suppressed-Keeps cal r os =
    let P : Reconciler × Bool → Type 0 = λ x. Keeps os.key r (x.0, os) in
    let unchanged : (b : Bool) → P (r, b) = λ b. same-Keeps r os in
    let timeout = ns_to_cycles cal r.config.gap_close_timeout_ns in
    let r' = close_timed_out r Source.primary timeout in
    let closed : P (close_timed_out r' Source.drop_copy timeout, false) =
      both-Keeps (close_timed_out-Keeps r os Source.primary timeout)
        (close_timed_out-Keeps r' os Source.drop_copy timeout) in
    either P (not r.config.enable_gap_suppression) (unchanged false) (
      either P (is_suppressed_by_gap os Source.primary r.primary_seq_tracker) (unchanged true) (
        either P (is_suppressed_by_gap os Source.drop_copy r.dropcopy_seq_tracker) (unchanged true)
          closed))

keep_waiting-Keeps :
    (cal : TscCalibration) (r : Reconciler) (os : OrderState) (m now : ℕ)
    → Keeps os.key r (keep_waiting cal r os m now)
unfolding keep_waiting
keep_waiting-Keeps cal r os m now =
    either (Keeps os.key r) (any m && os.recon_deadline_tsc == 0) (enter_grace-Keeps cal r os m now)
      (same-Keeps r os)

pub transition-Keeps :
    (cal : TscCalibration) (r : Reconciler) (os : OrderState) (m now : ℕ) (s : ReconState)
    → Keeps os.key r (transition cal r os m now s)
unfolding transition
transition-Keeps cal r os m now ReconState.unknown =
    either (Keeps os.key r) (os.seen_internal && not os.seen_dropcopy)
      (either (Keeps os.key r) (any m) (enter_grace-Keeps cal r os m now)
        (same-Keeps r (set_state os ReconState.awaiting_drop_copy)))
      (either (Keeps os.key r) (os.seen_dropcopy && not os.seen_internal)
        (either (Keeps os.key r) (any m) (enter_grace-Keeps cal r os m now)
          (same-Keeps r (set_state os ReconState.awaiting_primary)))
        (either (Keeps os.key r) (both_sides_seen os) (compare_views-Keeps cal r os m now)
          (same-Keeps r os)))
transition-Keeps cal r os m now ReconState.awaiting_primary =
    either (Keeps os.key r) os.seen_internal (compare_views-Keeps cal r os m now)
      (keep_waiting-Keeps cal r os m now)
transition-Keeps cal r os m now ReconState.awaiting_drop_copy =
    either (Keeps os.key r) os.seen_dropcopy (compare_views-Keeps cal r os m now)
      (keep_waiting-Keeps cal r os m now)
transition-Keeps cal r os m now ReconState.in_grace =
    either (Keeps os.key r) (is_none m) (exit_grace-Keeps r os) (
      either (Keeps os.key r) (m != os.current_mismatch)
        (same-Keeps r (record os { current_mismatch = m })) (same-Keeps r os))
transition-Keeps cal r os m now ReconState.matched =
    either (Keeps os.key r) (any m) (enter_grace-Keeps cal r os m now) (same-Keeps r os)
transition-Keeps cal r os m now ReconState.diverged_confirmed =
    either (Keeps os.key r) (is_none m)
      (counted-Keeps r (set_state os ReconState.matched) _ refl refl refl) (same-Keeps r os)
transition-Keeps cal r os m now ReconState.suppressed_by_gap =
    let (r', suppressed) = is_gap_suppressed cal r os in
    let kept = is_gap_suppressed-Keeps cal r os in
    either (Keeps os.key r) (not suppressed) (both-Keeps kept (compare_views-Keeps cal r' os m now))
      kept
