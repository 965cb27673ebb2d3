-- ===== src/Reconciler/Expiry.antt =====
-- What the callback of an expired deadline in src/core/reconciler.cpp decides.
use fx_dropcopy_primary_reco.Prelude.{
  ℕ, ◌≡◌, refl, Bool, true, false, not, ◌&&◌, arith, Bool-cases, inl, inr, Option, none, some,
  inc32, add64,
}
use fx_dropcopy_primary_reco.Clock.{TscCalibration, ns_to_cycles}
use fx_dropcopy_primary_reco.Mask.{ReconState, any, is_none, ◌==ʳ◌}
use fx_dropcopy_primary_reco.Order.{OrderState, compute_mismatch}
use fx_dropcopy_primary_reco.Wheel.{WheelTimer, schedule}
use fx_dropcopy_primary_reco.Timer.{refresh_recon_deadline, schedule_recon_deadline, is_timer_valid}
use fx_dropcopy_primary_reco.Reconciler.{Reconciler}
use fx_dropcopy_primary_reco.Reconciler.Gaps.{is_gap_suppressed}
use fx_dropcopy_primary_reco.Reconciler.Deadline.{stale, reschedule, recheck_later, expire}
use fx_dropcopy_primary_reco.Reconciler.Closing.{is_gap_suppressed-eq}
use fx_dropcopy_primary_reco.Reconciler.States.{confirm-state}
use fx_dropcopy_primary_reco.Event.{Source}

-- An order whose deadline is still to be decided.
abbrev pub waits : ReconState → Bool
waits ReconState.in_grace = true
waits ReconState.suppressed_by_gap = true
waits _ = false

-- The state after the callback of a deadline that is still valid, for an order that waits: by whether
-- the views differ, whether an open gap suppresses the order, and whether the wheel takes the deadline
-- at which the order is looked at again.
abbrev pub decided : Bool → Bool → Bool → ReconState
decided false suppressed fits = ReconState.matched
decided true true true = ReconState.suppressed_by_gap
decided true true false = ReconState.diverged_confirmed
decided true false fits = ReconState.diverged_confirmed

-- The wheel takes the deadline of another look, if there is a wheel.
abbrev pub recheck_fits : TscCalibration → Reconciler → OrderState → Option WheelTimer → Bool
recheck_fits cal r os none = true
recheck_fits cal r os (some w) =
    (schedule w os.key (inc32 os.timer_generation)
      (add64 r.last_poll_tsc (ns_to_cycles cal r.config.gap_recheck_period_ns))).1

reschedule-state :
    (cal : TscCalibration) (r : Reconciler) (os : OrderState) (m : ℕ) (o : Option WheelTimer)
    → os.recon_state ≡ ReconState.suppressed_by_gap
    → (reschedule cal r os m o).1.recon_state ≡ decided true true (recheck_fits cal r os o)
unfolding reschedule refresh_recon_deadline schedule_recon_deadline
reschedule-state cal r os m none e = e
reschedule-state cal r os m (some w) e =
    let fits = recheck_fits cal r os (some w) in
    elim (Bool-cases fits) [
      | inl room ↦ rw room e
      | inr full ↦
          let at = add64 r.last_poll_tsc (ns_to_cycles cal r.config.gap_recheck_period_ns) in
          rw full (confirm-state cal _ (refresh_recon_deadline w os at).1 m r.last_poll_tsc)
    ]

later :
    (cal : TscCalibration) (r : Reconciler) (os : OrderState) (m : ℕ)
    → (is_gap_suppressed cal r os).1 ≡ true
    → (recheck_later cal (is_gap_suppressed cal r os).0 os m).1.recon_state
      ≡ decided true true (recheck_fits cal r os r.timer_wheel)
unfolding recheck_later
later cal r os m gap =
    let same : (is_gap_suppressed cal r os).0 ≡ r =
      (is_gap_suppressed-eq cal r os Source.primary).1 gap in
    rw same (reschedule-state cal r _ m r.timer_wheel refl)

waits-eq :
    (s : ReconState)
    → (not (s ==ʳ ReconState.in_grace) && not (s ==ʳ ReconState.suppressed_by_gap)) ≡ not (waits s)
waits-eq ReconState.unknown = refl
waits-eq ReconState.awaiting_primary = refl
waits-eq ReconState.awaiting_drop_copy = refl
waits-eq ReconState.in_grace = refl
waits-eq ReconState.matched = refl
waits-eq ReconState.diverged_confirmed = refl
waits-eq ReconState.suppressed_by_gap = refl

-- The callback of a deadline whose generation is not the order's, or of an order that no longer waits,
-- changes nothing but the count of stale timers. Otherwise the order is matched when its views agree;
-- when they differ, it stays suppressed if an open gap may explain it and the wheel takes the deadline
-- of another look, and is confirmed as diverged if not.
pub expire-decided :
    (cal : TscCalibration) (r : Reconciler) (os : OrderState) (generation : ℕ)
    → let live = is_timer_valid os generation && waits os.recon_state in
      let differs = any (compute_mismatch os r.config.qty_tolerance r.config.px_tolerance) in
      let suppressed = (is_gap_suppressed cal r os).1 in
      (live ≡ false → expire cal r os generation ≡ (stale r, os))
      × (live ≡ true
          → (expire cal r os generation).1.recon_state
            ≡ decided differs suppressed (recheck_fits cal r os r.timer_wheel))
unfolding expire
expire-decided cal r os generation = (
  λ h. elim (Bool-cases (is_timer_valid os generation)) [
    | inr old ↦ rw old refl
    | inl new ↦
        let done : waits os.recon_state ≡ false = ground arith in
        rw (new, waits-eq os.recon_state, done) refl
  ],
  λ h.
      let new : is_timer_valid os generation ≡ true = ground arith in
      let waiting : waits os.recon_state ≡ true = ground arith in
      let m = compute_mismatch os r.config.qty_tolerance r.config.px_tolerance in
      rw (new, waits-eq os.recon_state, waiting)
        (elim (Bool-cases (is_none m)) [
          | inl same ↦ let agree : any m ≡ false = ground arith in rw (same, agree) refl
          | inr other ↦
              let differ : any m ≡ true = ground arith in
              rw (other, differ)
                (elim (Bool-cases (is_gap_suppressed cal r os).1) [
                  | inr clear ↦ rw clear (confirm-state cal _ os m _)
                  | inl gap ↦ rw gap (later cal r os m gap)
                ])
        ]),
)
