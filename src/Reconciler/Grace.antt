-- ===== src/Reconciler/Grace.antt =====
-- src/core/reconciler.cpp: the grace period, and the state of an order after an event.
use fx_dropcopy_primary_reco.Prelude.{
  ℕ, not, ◌&&◌, if◌then◌else◌, Option, none, some, inc64, add64, ◌==◌, ◌!=◌,
}
use fx_dropcopy_primary_reco.Clock.{TscCalibration, ns_to_cycles}
use fx_dropcopy_primary_reco.Mask.{MismatchMask, ReconState, any, is_none}
use fx_dropcopy_primary_reco.Mask
use fx_dropcopy_primary_reco.Order.{OrderState}
use fx_dropcopy_primary_reco.Timer.{schedule_recon_deadline, cancel_recon_deadline}
use fx_dropcopy_primary_reco.Wheel.{WheelTimer}
use fx_dropcopy_primary_reco.Reconciler.{Reconciler, counted, both_sides_seen}
use fx_dropcopy_primary_reco.Reconciler.Gaps.{is_gap_suppressed}
use fx_dropcopy_primary_reco.Reconciler.Emit.{emit_confirmed_divergence, clear_uncertainties}

-- What follows when a deadline did not fit the wheel, and at a confirmed divergence.
unfoldable pub confirm :
    TscCalibration → Reconciler → OrderState → MismatchMask → ℕ → Reconciler × OrderState
unfolding emit_confirmed_divergence
confirm cal r os mismatch now_tsc =
    let (r', os') =
      emit_confirmed_divergence cal r (record os { recon_state = ReconState.diverged_confirmed })
        mismatch now_tsc in
    (
      counted r'
          (record (r'.counters) { mismatch_confirmed = inc64 r'.counters.mismatch_confirmed }),
      os',
    )

abbrev pub overflow_timer : Reconciler → Reconciler
overflow_timer r =
    counted r (record (r.counters) { timer_overflow = inc64 r.counters.timer_overflow })

abbrev pub observed : Reconciler → Reconciler
observed r =
    counted r (record (r.counters) { mismatch_observed = inc64 r.counters.mismatch_observed })

-- The end of `enter_grace_period`, from `if (timer_wheel_)` on.
unfoldable pub schedule_grace :
    TscCalibration
    → Reconciler
    → OrderState
    → MismatchMask
    → ℕ
    → Option WheelTimer
    → Reconciler × OrderState
unfolding schedule_recon_deadline confirm
schedule_grace cal r os mismatch now_tsc none = (observed r, os)
schedule_grace cal r os mismatch now_tsc (some w) =
    let (w', os', scheduled) = schedule_recon_deadline w os os.recon_deadline_tsc in
    let r' : Reconciler = record r { timer_wheel = some w' } in
    if scheduled then (observed r', os') else confirm cal (overflow_timer r') os' mismatch now_tsc

unfoldable pub enter_grace_period :
    TscCalibration → Reconciler → OrderState → MismatchMask → ℕ → Reconciler × OrderState
unfolding schedule_grace
enter_grace_period cal r os mismatch now_tsc =
    schedule_grace cal r
      (record os {
        recon_state = ReconState.in_grace;
        current_mismatch = mismatch;
        mismatch_first_seen_tsc = now_tsc;
        recon_deadline_tsc = add64 now_tsc (ns_to_cycles cal r.config.grace_period_ns);
      })
      mismatch now_tsc r.timer_wheel

unfoldable pub exit_grace_period : Reconciler → OrderState → Reconciler × OrderState
unfolding cancel_recon_deadline clear_uncertainties
exit_grace_period r os =
    let (r', os') = clear_uncertainties r (record (cancel_recon_deadline os) {
      recon_state = ReconState.matched;
      current_mismatch = Mask.empty;
    }) in
    (
      counted r' (record (r'.counters) {
        false_positive_avoided = inc64 r'.counters.false_positive_avoided;
        orders_matched = inc64 r'.counters.orders_matched;
      }),
      os',
    )

unfoldable pub set_matched : Reconciler → OrderState → Reconciler × OrderState
set_matched r os = (
  counted r (record (r.counters) { orders_matched = inc64 r.counters.orders_matched }),
  record os { recon_state = ReconState.matched },
)

-- The branches that compare the two views: grace on a mismatch, and otherwise a match.
unfoldable pub compare_views :
    TscCalibration → Reconciler → OrderState → MismatchMask → ℕ → Reconciler × OrderState
unfolding enter_grace_period set_matched
compare_views cal r os mismatch now_tsc =
    if any mismatch then enter_grace_period cal r os mismatch now_tsc else set_matched r os

-- Waiting for the other side: grace on a mismatch that has no deadline yet.
unfoldable pub keep_waiting :
    TscCalibration → Reconciler → OrderState → MismatchMask → ℕ → Reconciler × OrderState
unfolding enter_grace_period
keep_waiting cal r os mismatch now_tsc =
    if any mismatch && os.recon_deadline_tsc == 0
    then enter_grace_period cal r os mismatch now_tsc
    else (r, os)

-- One case for each state of the order.
unfoldable pub transition :
    TscCalibration
    → Reconciler
    → OrderState
    → MismatchMask
    → ℕ
    → ReconState
    → Reconciler × OrderState
unfolding compare_views keep_waiting enter_grace_period exit_grace_period set_matched
    is_gap_suppressed
transition cal r os m now ReconState.unknown =
    if os.seen_internal && not os.seen_dropcopy
    then (if any m
        then enter_grace_period cal r os m now
        else (r, record os { recon_state = ReconState.awaiting_drop_copy }))
    else if os.seen_dropcopy && not os.seen_internal
    then (if any m
        then enter_grace_period cal r os m now
        else (r, record os { recon_state = ReconState.awaiting_primary }))
    else if both_sides_seen os
    then compare_views cal r os m now
    else (r, os)
transition cal r os m now ReconState.awaiting_primary =
    if os.seen_internal then compare_views cal r os m now else keep_waiting cal r os m now
transition cal r os m now ReconState.awaiting_drop_copy =
    if os.seen_dropcopy then compare_views cal r os m now else keep_waiting cal r os m now
transition cal r os m now ReconState.in_grace =
    if is_none m
    then exit_grace_period r os
    else if m != os.current_mismatch
    then (r, record os { current_mismatch = m })
    else (r, os)
transition cal r os m now ReconState.matched =
    if any m then enter_grace_period cal r os m now else (r, os)
transition cal r os m now ReconState.diverged_confirmed =
    if is_none m
    then (
      counted r
          (record (r.counters) { divergence_resolved = inc64 r.counters.divergence_resolved }),
      record os { recon_state = ReconState.matched },
    )
    else (r, os)
transition cal r os m now ReconState.suppressed_by_gap =
    let (r', suppressed) = is_gap_suppressed cal r os in
    if not suppressed then compare_views cal r' os m now else (r', os)

unfoldable pub handle_recon_state_transition :
    TscCalibration → Reconciler → OrderState → MismatchMask → ℕ → Reconciler × OrderState
unfolding transition
handle_recon_state_transition cal r os new_mismatch now_tsc =
    transition cal r os new_mismatch now_tsc os.recon_state
