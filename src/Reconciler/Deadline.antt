-- ===== src/Reconciler/Deadline.antt =====
-- src/core/reconciler.cpp: the callback of an expired deadline, and the poll of the wheel in `run`.
use fx_dropcopy_primary_reco.Prelude.{ℕ, not, ◌&&◌, if◌then◌else◌, Option, none, some, inc64, add64}
use fx_dropcopy_primary_reco.Clock.{TscCalibration, ns_to_cycles}
use fx_dropcopy_primary_reco.Mask.{MismatchMask, ReconState, is_none, ◌==ʳ◌}
use fx_dropcopy_primary_reco.Order.{OrderState, compute_mismatch}
use fx_dropcopy_primary_reco.Timer.{refresh_recon_deadline, is_timer_valid}
use fx_dropcopy_primary_reco.Wheel.{WheelTimer, Host, poll_expired}
use fx_dropcopy_primary_reco.Store.{find, deref, write}
use fx_dropcopy_primary_reco.Reconciler.{Reconciler, counted}
use fx_dropcopy_primary_reco.Reconciler.Gaps.{is_gap_suppressed}
use fx_dropcopy_primary_reco.Reconciler.Grace.{confirm, overflow_timer}

abbrev pub stale : Reconciler → Reconciler
stale r =
    counted r (record (r.counters) { stale_timers_skipped = inc64 r.counters.stale_timers_skipped })

abbrev pub gap_suppressed : Reconciler → Reconciler
gap_suppressed r =
    counted r (record (r.counters) { gap_suppressions = inc64 r.counters.gap_suppressions })

-- The branch for an order that an open gap may affect, from `if (timer_wheel_)` on: it is looked at
-- again later.
unfoldable pub reschedule :
    TscCalibration
    → Reconciler
    → OrderState
    → MismatchMask
    → Option WheelTimer
    → Reconciler × OrderState
unfolding refresh_recon_deadline confirm
reschedule cal r os mismatch none = (gap_suppressed r, os)
reschedule cal r os mismatch (some w) =
    let now : ℕ = r.last_poll_tsc in
    let (w', os', rescheduled) =
      refresh_recon_deadline w os (add64 now (ns_to_cycles cal r.config.gap_recheck_period_ns)) in
    let r' : Reconciler = record r { timer_wheel = some w' } in
    if rescheduled
    then (gap_suppressed r', os')
    else confirm cal (overflow_timer r') os' mismatch now

unfoldable pub recheck_later :
    TscCalibration → Reconciler → OrderState → MismatchMask → Reconciler × OrderState
unfolding reschedule
recheck_later cal r os mismatch =
    reschedule cal r (record os { recon_state = ReconState.suppressed_by_gap }) mismatch
      r.timer_wheel

-- The callback from the point where the order is known.
unfoldable pub expire : TscCalibration → Reconciler → OrderState → ℕ → Reconciler × OrderState
unfolding is_gap_suppressed recheck_later confirm
expire cal r os scheduled_gen =
    let mismatch = compute_mismatch os r.config.qty_tolerance r.config.px_tolerance in
    let (r', suppressed) = is_gap_suppressed cal r os in
    if not (is_timer_valid os scheduled_gen)
    then (stale r, os)
    else if not (os.recon_state ==ʳ ReconState.in_grace)
        && not (os.recon_state ==ʳ ReconState.suppressed_by_gap)
    then (stale r, os)
    else if is_none mismatch
    then (
      counted r (record (r.counters) {
        false_positive_avoided = inc64 r.counters.false_positive_avoided;
        orders_matched = inc64 r.counters.orders_matched;
      }),
      record os { recon_state = ReconState.matched },
    )
    else if suppressed
    then recheck_later cal r' os mismatch
    else confirm cal r' os mismatch r'.last_poll_tsc

-- The store holds the order under the bucket that was found.
abbrev pub store_back : ℕ → Reconciler × OrderState → Reconciler
store_back i (r, os) = record r { store = write r.store i os }

-- The callback for the bucket that was found, which holds an order.
unfoldable pub expire_at : TscCalibration → Reconciler → ℕ → ℕ → Option OrderState → Reconciler
unfolding expire
expire_at cal r scheduled_gen i none = r
expire_at cal r scheduled_gen i (some os) = store_back i (expire cal r os scheduled_gen)

unfoldable pub expire_found : TscCalibration → Reconciler → ℕ → Option ℕ → Reconciler
unfolding expire_at
expire_found cal r scheduled_gen none = r
expire_found cal r scheduled_gen (some i) = expire_at cal r scheduled_gen i (deref r.store i)

unfoldable pub on_grace_deadline_expired : TscCalibration → Reconciler → ℕ → ℕ → Reconciler
unfolding expire_found
on_grace_deadline_expired cal r key scheduled_gen =
    expire_found cal r scheduled_gen (find r.store key)

-- The wheel that the reconciler points to, and the reconciler.
abbrev pub with_its_wheel : WheelTimer → Reconciler → WheelTimer × Reconciler
with_its_wheel w r = elim r.timer_wheel [ none ↦ (w, r) | some w' ↦ (w', r) ]

-- The lambda that `run` passes to `poll_expired`.
abbrev pub deadline_host : TscCalibration → Host (WheelTimer × Reconciler)
deadline_host cal = record {
  wheel = λ s. s.0;
  with_wheel = λ s w. (w, record (s.1) { timer_wheel = some w });
  on_expired = λ s key generation.
      with_its_wheel s.0
        (on_grace_deadline_expired cal (record (s.1) { timer_wheel = some s.0 }) key generation);
}

-- `none` when the fuel for the ticks or for a bucket runs out.
unfoldable pub poll_timers : TscCalibration → ℕ → ℕ → Reconciler → ℕ → Option Reconciler
unfolding on_grace_deadline_expired
poll_timers cal ticks fuel r now = elim r.timer_wheel [
  | none ↦ some r
  | some w ↦ elim (poll_expired (deadline_host cal) now ticks fuel (w, r)) [
    | none ↦ none
    | some s ↦ some s.1
  ]
]
