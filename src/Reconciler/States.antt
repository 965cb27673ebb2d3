-- ===== src/Reconciler/States.antt =====
-- The states that src/core/reconciler.cpp gives to an order.
use fx_dropcopy_primary_reco.Prelude.{
  either, ℕ, ◌≡◌, refl, ap, ◌∙◌, Bool, true, false, not, ◌||◌, arith, if◌then◌else◌, Bool-cases,
  inl, inr, Option, none, some, inc32, add64,
}
use fx_dropcopy_primary_reco.Prelude.Int.{ℤ}
use fx_dropcopy_primary_reco.Event.{ExecEvent}
use fx_dropcopy_primary_reco.Clock.{TscCalibration, ns_to_cycles}
use fx_dropcopy_primary_reco.Mask.{ReconState, any}
use fx_dropcopy_primary_reco.Order.{
  OrderState, should_emit_divergence, record_divergence_emission, compute_mismatch,
}
use fx_dropcopy_primary_reco.Order.Mismatch.{compute_mismatch_one_sided}
use fx_dropcopy_primary_reco.Wheel.{WheelTimer, schedule}
use fx_dropcopy_primary_reco.Timer.{schedule_recon_deadline}
use fx_dropcopy_primary_reco.Gap.{is_suppressed_by_gap}
use fx_dropcopy_primary_reco.Ring.{try_push}
use fx_dropcopy_primary_reco.Reconciler.{Reconciler, ring_bits, both_sides_seen}
use fx_dropcopy_primary_reco.Reconciler.Gaps.{close_timed_out, is_gap_suppressed}
use fx_dropcopy_primary_reco.Reconciler.Emit.{confirmed, emit_confirmed_divergence}
use fx_dropcopy_primary_reco.Reconciler.Emission.{clear_uncertainties-Published}
use fx_dropcopy_primary_reco.Reconciler.Process.{reconcile_windowed}
use fx_dropcopy_primary_reco.Reconciler.Grace.{
  confirm, schedule_grace, enter_grace_period, exit_grace_period, compare_views, set_matched,
  transition, handle_recon_state_transition,
}

-- The state after an event, by whether the views differ, whether a new deadline would fit the wheel,
-- and whether an open gap suppresses the order.
unfoldable pub next_state : ReconState → Bool → Bool → Bool → ReconState
next_state ReconState.suppressed_by_gap differs fits true = ReconState.suppressed_by_gap
next_state s false fits suppressed = ReconState.matched
next_state ReconState.in_grace true fits suppressed = ReconState.in_grace
next_state ReconState.diverged_confirmed true fits suppressed = ReconState.diverged_confirmed
next_state s true fits suppressed =
    if fits then ReconState.in_grace else ReconState.diverged_confirmed

-- The two states in which an order would wait for the other feed.
abbrev pub is_awaiting : ReconState → Bool
is_awaiting ReconState.awaiting_primary = true
is_awaiting ReconState.awaiting_drop_copy = true
is_awaiting _ = false

-- The wheel takes the deadline of a grace period that starts now, if there is a wheel.
abbrev pub deadline_fits : TscCalibration → Reconciler → OrderState → ℕ → Option WheelTimer → Bool
deadline_fits cal r os now none = true
deadline_fits cal r os now (some w) =
    (schedule w os.key (inc32 os.timer_generation)
      (add64 now (ns_to_cycles cal r.config.grace_period_ns))).1

emit-state :
    (cal : TscCalibration) (r : Reconciler) (os : OrderState) (m now : ℕ)
    → (emit_confirmed_divergence cal r os m now).1.recon_state ≡ os.recon_state
unfolding emit_confirmed_divergence record_divergence_emission
emit-state cal r os m now =
    let P : Reconciler × OrderState → Type 0 = λ p. p.1.recon_state ≡ os.recon_state in
    let (ring, pushed) = try_push ring_bits r.divergence_ring (confirmed os m now) in
    let r' : Reconciler = record r { divergence_ring = ring } in
    let done = clear_uncertainties-Published r' (record_divergence_emission os m now) in
    either P (not (should_emit_divergence cal os m now r.config.divergence_dedup_window_ns)) refl
      (either P (not pushed) refl done.same_state)

pub confirm-state :
    (cal : TscCalibration) (r : Reconciler) (os : OrderState) (m now : ℕ)
    → (confirm cal r os m now).1.recon_state ≡ ReconState.diverged_confirmed
unfolding confirm
confirm-state cal r os m now = emit-state cal r _ m now

branch-state :
    (b : Bool) (p q : Reconciler × OrderState)
    → p.1.recon_state ≡ ReconState.in_grace
    → q.1.recon_state ≡ ReconState.diverged_confirmed
    → (if b then p else q).1.recon_state
      ≡ (if b then ReconState.in_grace else ReconState.diverged_confirmed)
branch-state true p q e e' = e
branch-state false p q e e' = e'

schedule-state :
    (cal : TscCalibration) (r : Reconciler) (os : OrderState) (m now : ℕ) (w : Option WheelTimer)
    → let deadline : ℕ = add64 now (ns_to_cycles cal r.config.grace_period_ns) in
      let os' : OrderState = record os {
        recon_state = ReconState.in_grace;
        current_mismatch = m;
        mismatch_first_seen_tsc = now;
        recon_deadline_tsc = deadline;
      } in
      (schedule_grace cal r os' m now w).1.recon_state ≡ (
        if deadline_fits cal r os now w then ReconState.in_grace else ReconState.diverged_confirmed)
unfolding schedule_grace schedule_recon_deadline
schedule-state cal r os m now none = refl
schedule-state cal r os m now (some w) =
    let deadline : ℕ = add64 now (ns_to_cycles cal r.config.grace_period_ns) in
    let os' : OrderState = record os {
      recon_state = ReconState.in_grace;
      current_mismatch = m;
      mismatch_first_seen_tsc = now;
      recon_deadline_tsc = deadline;
      timer_generation = inc32 os.timer_generation;
    } in
    branch-state (deadline_fits cal r os now (some w)) _ _ refl (confirm-state cal _ os' m now)

enter-state :
    (cal : TscCalibration) (r : Reconciler) (os : OrderState) (m now : ℕ)
    → (enter_grace_period cal r os m now).1.recon_state ≡ (
        if deadline_fits cal r os now r.timer_wheel
        then ReconState.in_grace
        else ReconState.diverged_confirmed)
unfolding enter_grace_period
enter-state cal r os m now = schedule-state cal r os m now r.timer_wheel

exit-state :
    (r : Reconciler) (os : OrderState) → (exit_grace_period r os).1.recon_state ≡ ReconState.matched
unfolding exit_grace_period
exit-state r os = (clear_uncertainties-Published r _).same_state

gap-wheel :
    (cal : TscCalibration) (r : Reconciler) (os : OrderState)
    → ((is_gap_suppressed cal r os).0.timer_wheel ≡ r.timer_wheel)
      × ((is_gap_suppressed cal r os).0.config ≡ r.config)
unfolding is_gap_suppressed close_timed_out
gap-wheel cal r os = ground arith

fits_config :
    (cal : TscCalibration) (r r' : Reconciler) (os : OrderState) (now : ℕ) (w : Option WheelTimer)
    → r.config ≡ r'.config
    → deadline_fits cal r os now w ≡ deadline_fits cal r' os now w
fits_config cal r r' os now none e = refl
fits_config cal r r' os now (some w) e =
    ap
      (λ c.
        (schedule w os.key (inc32 os.timer_generation)
          (add64 now (ns_to_cycles cal c.grace_period_ns))).1)
      e

compare-state :
    (cal : TscCalibration) (r : Reconciler) (os : OrderState) (m now : ℕ)
    → (compare_views cal r os m now).1.recon_state ≡ (
        if any m
        then if deadline_fits cal r os now r.timer_wheel
          then ReconState.in_grace
          else ReconState.diverged_confirmed
        else ReconState.matched)
unfolding compare_views set_matched
compare-state cal r os m now = ground (arith, enter-state cal r os m now)

-- The state of an order after an event follows the table, when the order has been seen and does not
-- wait for a feed, and a mask without mismatch means that both feeds have shown it.
pub transition-next :
    (cal : TscCalibration) (r : Reconciler) (os : OrderState) (m now : ℕ) (s : ReconState)
    → is_awaiting s ≡ false
    → (any m || both_sides_seen os) ≡ true
    → (os.seen_internal || os.seen_dropcopy) ≡ true
    → s ≡ os.recon_state
    → (transition cal r os m now s).1.recon_state
      ≡ next_state s
          (any m)
          (deadline_fits cal r os now r.timer_wheel)
          (is_gap_suppressed cal r os).1
unfolding transition next_state
transition-next cal r os m now ReconState.unknown a b c e =
    ground (arith, enter-state cal r os m now, compare-state cal r os m now)
transition-next cal r os m now ReconState.awaiting_primary a b c e = cc a
transition-next cal r os m now ReconState.awaiting_drop_copy a b c e = cc a
transition-next cal r os m now ReconState.in_grace a b c e = ground (arith, exit-state r os)
transition-next cal r os m now ReconState.matched a b c e =
    ground (arith, enter-state cal r os m now)
transition-next cal r os m now ReconState.diverged_confirmed a b c e = ground arith
transition-next cal r os m now ReconState.suppressed_by_gap a b c e =
    let r' = (is_gap_suppressed cal r os).0 in
    let (w, g) = gap-wheel cal r os in
    let same : deadline_fits cal r' os now r'.timer_wheel
        ≡ deadline_fits cal r os now r.timer_wheel =
      rw (w) (fits_config cal r' r os now r.timer_wheel g) in
    ground (arith, compare-state cal r' os m now, same)

seen_or_differs :
    (os : OrderState) (q p : ℤ)
    → (os.seen_internal || os.seen_dropcopy) ≡ true
    → (any (compute_mismatch os q p) || both_sides_seen os) ≡ true
seen_or_differs os q p c = elim (Bool-cases (both_sides_seen os)) [
  | inl both ↦ ground arith
  | inr one ↦ ground (arith, compute_mismatch_one_sided os q p (ap not one))
]

next-not_awaiting :
    (s : ReconState) (differs fits suppressed : Bool)
    → is_awaiting s ≡ false
    → is_awaiting (next_state s differs fits suppressed) ≡ false
unfolding next_state
next-not_awaiting s differs fits suppressed a = ground arith

same_suppression :
    (cal : TscCalibration) (r : Reconciler) (os : OrderState) (m : ℕ)
    → (is_gap_suppressed cal r (record os { current_mismatch = m })).1
      ≡ (is_gap_suppressed cal r os).1
unfolding is_gap_suppressed is_suppressed_by_gap
same_suppression cal r os m = refl

-- After an event that `reconcile` handles in two stages, the state is the one of the table for the
-- mask that is computed, and the order does not wait for a feed if it did not before: a mismatch is
-- seen as long as only one feed has shown the order.
pub reconcile_windowed-next :
    (cal : TscCalibration) (ev : ExecEvent) (r : Reconciler) (os : OrderState)
    → is_awaiting os.recon_state ≡ false
    → (os.seen_internal || os.seen_dropcopy) ≡ true
    → let m = compute_mismatch os r.config.qty_tolerance r.config.px_tolerance in
      let s = (reconcile_windowed cal ev r os).1.recon_state in
      (s
        ≡ next_state os.recon_state
            (any m)
            (deadline_fits cal r os ev.ingest_tsc r.timer_wheel)
            (is_gap_suppressed cal r os).1)
      × (is_awaiting s ≡ false)
unfolding reconcile_windowed handle_recon_state_transition
reconcile_windowed-next cal ev r os a c =
    let m = compute_mismatch os r.config.qty_tolerance r.config.px_tolerance in
    let os' : OrderState = record os { current_mismatch = m } in
    let e =
      transition-next cal r os' m ev.ingest_tsc os.recon_state a
        (seen_or_differs os r.config.qty_tolerance r.config.px_tolerance c) c refl in
    let e' = rw (same_suppression cal r os m) at e in
    (e', ap is_awaiting e' ∙ next-not_awaiting os.recon_state _ _ _ a)
