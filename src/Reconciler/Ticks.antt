-- ===== src/Reconciler/Ticks.antt =====
-- What the callback of an expired deadline in src/core/reconciler.cpp does to the timer wheel and to the
-- counts of the events.
use fx_dropcopy_primary_reco.Prelude.{
  either, ℕ, ◌/◌, ◌<◌, ◌≡◌, refl, sym, ◌∙◌, subst, Option, none, some, not, ◌&&◌, add64, inc32,
}
use fx_dropcopy_primary_reco.Clock.{TscCalibration, ns_to_cycles}
use fx_dropcopy_primary_reco.Mask.{ReconState, is_none, ◌==ʳ◌}
use fx_dropcopy_primary_reco.Order.{OrderState, compute_mismatch}
use fx_dropcopy_primary_reco.Reconciler.{Reconciler}
use fx_dropcopy_primary_reco.Reconciler.Gaps.{is_gap_suppressed}
use fx_dropcopy_primary_reco.Wheel.{WheelTimer, schedule}
use fx_dropcopy_primary_reco.Wheel.Timely.{Good, Keeps, schedule-Keeps}
use fx_dropcopy_primary_reco.Timer.{refresh_recon_deadline, schedule_recon_deadline, is_timer_valid}
use fx_dropcopy_primary_reco.Store.{deref}
use fx_dropcopy_primary_reco.Reconciler.Grace.{overflow_timer}
use fx_dropcopy_primary_reco.Reconciler.Deadline.{
  reschedule, recheck_later, expire, expire_at, expire_found, gap_suppressed, stale,
}
use fx_dropcopy_primary_reco.Reconciler.Branches.{is_gap_suppressed-Keeps}
use fx_dropcopy_primary_reco.Reconciler.Sound.{expire-Keeps}
use fx_dropcopy_primary_reco.Reconciler.Events.{events}
use fx_dropcopy_primary_reco.Reconciler.Calm.{
  Calm, calm_at, same-Calm, both-Calm, confirm-Calm, is_gap_suppressed-Calm,
}

-- A wheel that is behind the time of a poll, and the deadline at which orders are looked at again.
module _ (cal : TscCalibration) (now : ℕ) (w : WheelTimer) (g : Good w)
    (late : w.current_tick < now / w.tick_tsc) where
  -- The reconciler has a wheel with the same clock and the same current bucket.
  pub record Ticks (r r' : Reconciler) : Type 0 where
    pub same_poll : r'.last_poll_tsc ≡ r.last_poll_tsc
    pub next : WheelTimer
    pub holds : r'.timer_wheel ≡ some next
    pub kept : Keeps w next

  untouched : (r r' : Reconciler) → r.timer_wheel ≡ some w → Calm r r' → Ticks r r'
  untouched r r' e c = record {
    same_poll = c.same_poll;
    next = w;
    holds = c.same_wheel ∙ e;
    kept = record { good = g; same_tick = refl; same_time = refl; same_bucket = refl };
  }

  -- The deadline of an order that is looked at again.
  abbrev recheck : Reconciler → ℕ
  recheck r = add64 r.last_poll_tsc (ns_to_cycles cal r.config.gap_recheck_period_ns)

  after_calm : {r r₁ r₂ : Reconciler} → Ticks r r₁ → Calm r₁ r₂ → Ticks r r₂
  after_calm t c = record {
    same_poll = c.same_poll ∙ t.same_poll;
    next = t.next;
    holds = c.same_wheel ∙ t.holds;
    kept = t.kept;
  }

  reschedule-Ticks :
      (r : Reconciler) (os : OrderState) (m : ℕ)
      → now < recheck r
      → Ticks r (reschedule cal r os m (some w)).0
  unfolding reschedule refresh_recon_deadline schedule_recon_deadline
  reschedule-Ticks r os m h =
      let generation = inc32 os.timer_generation in
      let placed = schedule w os.key generation (recheck r) in
      let os' = (refresh_recon_deadline w os (recheck r)).1 in
      let r' : Reconciler = record r { timer_wheel = some placed.0 } in
      let ticked : Ticks r r' = record {
        same_poll = refl;
        next = placed.0;
        holds = refl;
        kept = schedule-Keeps w os.key generation (recheck r) now g late h;
      } in
      either (λ (p : Reconciler × OrderState). Ticks r p.0) placed.1
        (after_calm ticked (calm_at r' (gap_suppressed r') refl refl))
        (after_calm ticked (
          both-Calm (calm_at r' (overflow_timer r') refl refl)
            (confirm-Calm cal (overflow_timer r') os' m r.last_poll_tsc)))

  recheck_later-Ticks :
      (r : Reconciler) (os : OrderState) (m : ℕ)
      → r.timer_wheel ≡ some w
      → now < recheck r
      → Ticks r (recheck_later cal r os m).0
  unfolding recheck_later
  recheck_later-Ticks r os m e h =
      let os' : OrderState = record os { recon_state = ReconState.suppressed_by_gap } in
      subst (λ o. Ticks r (reschedule cal r os' m o).0) (sym e) (reschedule-Ticks r os' m h)

  before_calm : {r r₁ r₂ : Reconciler} → Calm r r₁ → Ticks r₁ r₂ → Ticks r r₂
  before_calm c t = record {
    same_poll = t.same_poll ∙ c.same_poll;
    next = t.next;
    holds = t.holds;
    kept = t.kept;
  }

  expire-Ticks :
      (r : Reconciler) (os : OrderState) (generation : ℕ)
      → r.timer_wheel ≡ some w
      → now < recheck r
      → Ticks r (expire cal r os generation).0
  unfolding expire
  expire-Ticks r os generation e h =
      let P : Reconciler × OrderState → Type 0 = λ p. Ticks r p.0 in
      let m = compute_mismatch os r.config.qty_tolerance r.config.px_tolerance in
      let (r', suppressed) = is_gap_suppressed cal r os in
      let c = is_gap_suppressed-Calm cal r os in
      let same = (is_gap_suppressed-Keeps cal r os).same_config in
      let later : now < recheck r' = rw (c.same_poll, same) h in
      let skipped = untouched r (stale r) e (calm_at r (stale r) refl refl) in
      either P (not (is_timer_valid os generation)) skipped (
        either P
          (not (os.recon_state ==ʳ ReconState.in_grace)
            && not (os.recon_state ==ʳ ReconState.suppressed_by_gap))
          skipped
          (either P (is_none m) (untouched r _ e (calm_at r _ refl refl)) (
            either P suppressed
              (before_calm c (recheck_later-Ticks r' os m (c.same_wheel ∙ e) later))
              (untouched r _ e (both-Calm c (confirm-Calm cal r' os m r'.last_poll_tsc))))))

  expire_at-Ticks :
      (r : Reconciler) (generation i : ℕ) (o : Option OrderState)
      → r.timer_wheel ≡ some w
      → now < recheck r
      → Ticks r (expire_at cal r generation i o)
  unfolding expire_at
  expire_at-Ticks r generation i none e h = untouched r r e (same-Calm r)
  expire_at-Ticks r generation i (some os) e h =
      after_calm (expire-Ticks r os generation e h) (calm_at _ _ refl refl)

  pub expire_found-Ticks :
      (r : Reconciler) (generation : ℕ) (i : Option ℕ)
      → r.timer_wheel ≡ some w
      → now < recheck r
      → Ticks r (expire_found cal r generation i)
  unfolding expire_found
  expire_found-Ticks r generation none e h = untouched r r e (same-Calm r)
  expire_found-Ticks r generation (some i) e h =
      expire_at-Ticks r generation i (deref r.store i) e h

-- The settings and the count of the events are as they were.
abbrev pub Same : Reconciler → Reconciler → Type 0
Same r r' = (r'.config ≡ r.config) × (events r' ≡ events r)

expire_at-Same :
    (cal : TscCalibration) (r : Reconciler) (generation i : ℕ) (o : Option OrderState)
    → Same r (expire_at cal r generation i o)
unfolding expire_at
expire_at-Same cal r generation i none = (refl, refl)
expire_at-Same cal r generation i (some os) =
    let k = expire-Keeps cal r os generation in
    (k.same_config, λ j. (k.same_internal j, k.same_dropcopy j, k.same_overflow j))

pub expire_found-Same :
    (cal : TscCalibration) (r : Reconciler) (generation : ℕ) (i : Option ℕ)
    → Same r (expire_found cal r generation i)
unfolding expire_found
expire_found-Same cal r generation none = (refl, refl)
expire_found-Same cal r generation (some i) = expire_at-Same cal r generation i (deref r.store i)
