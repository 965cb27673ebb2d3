-- ===== src/Reconciler/Turns.antt =====
-- A whole round of `Reconciler::run` in src/core/reconciler.cpp: it ends, and handles what it takes.
use fx_dropcopy_primary_reco.Prelude.{
  either, ℕ, zero, suc, false, ◌-◌, ◌/◌, ◌≤◌, ◌<◌, ◌≡◌, refl, ap, sym, ◌∙◌, inl, inr, ◌⊎◌, Option,
  none, some, arith, u64, ltb, not, ◌&&◌, ◌!=◌, sub64, inc64,
}
use fx_dropcopy_primary_reco.Event.{Source}
use fx_dropcopy_primary_reco.Clock.{TscCalibration, ns_to_cycles}
use fx_dropcopy_primary_reco.Order.{OrderState, fresh_order}
use fx_dropcopy_primary_reco.Sequence.{close_gap}
use fx_dropcopy_primary_reco.Sequence.Invariant.{close_gap-IsValid}
use fx_dropcopy_primary_reco.Wheel.{WheelTimer, Host, bucket_capacity, poll_expired, poll_ticks}
use fx_dropcopy_primary_reco.Ring.{size_approx}
use fx_dropcopy_primary_reco.Store.{Layout}
use fx_dropcopy_primary_reco.Reconciler.{Reconciler, ring_bits, counted, tracker_of, with_tracker}
use fx_dropcopy_primary_reco.Reconciler.Gaps.{
  close_session_gap, check_gap_timeout, check_gap_timeouts,
}
use fx_dropcopy_primary_reco.Reconciler.Deadline.{deadline_host, poll_timers}
use fx_dropcopy_primary_reco.Reconciler.Keeps.{
  Keeps, same-Keeps, both-Keeps, counted-Keeps, with_tracker-Keeps,
}
use fx_dropcopy_primary_reco.Reconciler.Sound.{IsSound}
use fx_dropcopy_primary_reco.Reconciler.Events.{events}
use fx_dropcopy_primary_reco.Reconciler.Immediate.{check_gap_timeouts-Calm}
use fx_dropcopy_primary_reco.Reconciler.Polling.{IsReady, answered, polled, poll_timers_total}
use fx_dropcopy_primary_reco.Reconciler.Run.{
  Loop, consume, check_gaps, back_off, after_poll, round, gap_check_interval_ns,
}
use fx_dropcopy_primary_reco.Reconciler.Rounds.{
  IsRunning, Room, Takes, at_most_one, uncounted, both-Takes, nothing-Takes, consume-Takes,
}

-- A tracker replaced, and a counter that counts no event.
closed_counted :
    (r : Reconciler) (os : OrderState) (source : Source)
    → let r' = with_tracker r source (close_gap (tracker_of r source)).0 in
      Keeps os.key r
        (counted r' (record (r.counters) { gaps_closed = inc64 r.counters.gaps_closed }), os)
closed_counted r os Source.primary =
    both-Keeps (with_tracker-Keeps r os Source.primary _ (close_gap-IsValid _))
      (counted-Keeps (with_tracker r Source.primary _) os _ refl refl refl)
closed_counted r os Source.drop_copy =
    both-Keeps (with_tracker-Keeps r os Source.drop_copy _ (close_gap-IsValid _))
      (counted-Keeps (with_tracker r Source.drop_copy _) os _ refl refl refl)

close_session_gap-Keeps :
    (r : Reconciler) (os : OrderState) (source : Source)
    → Keeps os.key r (close_session_gap r source, os)
unfolding close_session_gap
close_session_gap-Keeps r os source =
    let P : Reconciler → Type 0 = λ x. Keeps os.key r (x, os) in
    let t = tracker_of r source in
    let closed = with_tracker-Keeps r os source (close_gap t).0 (close_gap-IsValid t) in
    either P (not t.gap_open) (same-Keeps r os)
      (either P (close_gap t).1 (closed_counted r os source) closed)

check_gap_timeout-Keeps :
    (r : Reconciler) (os : OrderState) (source : Source) (now timeout : ℕ)
    → Keeps os.key r (check_gap_timeout r source now timeout, os)
unfolding check_gap_timeout
check_gap_timeout-Keeps r os source now timeout =
    let t = tracker_of r source in
    let late = t.gap_opened_tsc != 0 && ltb timeout (sub64 now t.gap_opened_tsc) in
    either (λ x. Keeps os.key r (x, os)) (t.gap_open && late)
      (both-Keeps (close_session_gap-Keeps r os source)
        (counted-Keeps (close_session_gap r source) os _ refl refl refl))
      (same-Keeps r os)

-- The closing of the gaps counts no event and keeps the reconciler sound.
check_gap_timeouts-IsSound :
    (cal : TscCalibration) (k : ℕ) (r : Reconciler) (now : ℕ)
    → IsSound k r
    → IsSound k (check_gap_timeouts cal r now) × (events (check_gap_timeouts cal r now) ≡ events r)
unfolding check_gap_timeouts
check_gap_timeouts-IsSound cal k r now v =
    let os = fresh_order 0 in
    let timeout = ns_to_cycles cal r.config.gap_timeout_ns in
    let r₁ = check_gap_timeout r Source.primary now timeout in
    let kept =
      both-Keeps (check_gap_timeout-Keeps r os Source.primary now timeout)
        (check_gap_timeout-Keeps r₁ os Source.drop_copy now timeout) in
    (
      record {
        store_valid = rw kept.same_store v.store_valid;
        parts_valid = kept.keeps_valid v.parts_valid;
      },
      λ j. (kept.same_internal j, kept.same_dropcopy j, kept.same_overflow j),
    )

-- The timers can be polled: there are none, or the wheel is already at the tick of `now`, or it is ready
-- and the fuel is enough.
abbrev pub CanPoll : TscCalibration → ℕ → ℕ → ℕ → Reconciler → Type 0
CanPoll cal now ticks fuel r =
    (r.timer_wheel ≡ none)
    ⊎ ((w : WheelTimer) × (r.timer_wheel ≡ some w)
        × (now / w.tick_tsc ≤ w.current_tick)
        × (0 < ticks))
    ⊎ ((w : WheelTimer) × IsReady cal now r w
        × (now < u64)
        × (now / w.tick_tsc - w.current_tick < ticks)
        × (bucket_capacity < fuel))

-- What a poll gives back.
record Answers (k : ℕ) (r : Reconciler) (o : Option Reconciler) : Type 0 where
  answer : Reconciler
  given : o ≡ some answer
  sound : IsSound k answer
  count : events answer ≡ events r
  no_wheel : r.timer_wheel ≡ none → answer.timer_wheel ≡ none

poll_nothing :
    (cal : TscCalibration) (ticks fuel now : ℕ) (r : Reconciler)
    → r.timer_wheel ≡ none
    → poll_timers cal ticks fuel r now ≡ some r
unfolding poll_timers
poll_nothing cal ticks fuel now r e = ap (polled cal ticks fuel r now) e

with_wheel-IsSound :
    (k : ℕ) (r : Reconciler) (o : Option WheelTimer)
    → IsSound k r
    → IsSound k (record r { timer_wheel = o })
with_wheel-IsSound k r o v = record {
  store_valid = v.store_valid;
  parts_valid = record {
    primary_valid = v.parts_valid.primary_valid;
    dropcopy_valid = v.parts_valid.dropcopy_valid;
    divergences_valid = v.parts_valid.divergences_valid;
    gaps_valid = v.parts_valid.gaps_valid;
  };
}

ticks_idle :
    {S : Type 0} (host : Host S) (now ticks fuel : ℕ) (s : S)
    → now / (host.wheel s).tick_tsc ≤ (host.wheel s).current_tick
    → 0 < ticks
    → poll_ticks host now ticks fuel s ≡ some s
unfolding poll_ticks
ticks_idle host now zero fuel s low h = absurd (omega arith)
ticks_idle host now (suc ticks) fuel s low h =
    let idle : ltb (host.wheel s).current_tick (now / (host.wheel s).tick_tsc) ≡ false =
      ground arith in
    rw idle refl

-- A wheel that is at the tick of `now` expires nothing.
poll_idle :
    (cal : TscCalibration) (ticks fuel now : ℕ) (r : Reconciler) (w : WheelTimer)
    → r.timer_wheel ≡ some w
    → now / w.tick_tsc ≤ w.current_tick
    → 0 < ticks
    → poll_timers cal ticks fuel r now
      ≡ some (record r { timer_wheel = some (record w { last_poll_tsc = now }) })
unfolding poll_timers poll_expired
poll_idle cal ticks fuel now r w e low h =
    ap (polled cal ticks fuel r now) e
    ∙ ap
        (λ o. answered (elim o [
          | none ↦ none
          | some s ↦ some (
            record (s.0) { last_poll_tsc = now },
            record (s.1) { timer_wheel = some (record (s.0) { last_poll_tsc = now }) },
          )
        ]))
        (ticks_idle (deadline_host cal) now ticks fuel (w, r) low h)

poll_timers-Answers :
    (cal : TscCalibration) (k ticks fuel now : ℕ) (r : Reconciler)
    → IsSound k r
    → CanPoll cal now ticks fuel r
    → Answers k r (poll_timers cal ticks fuel r now)
poll_timers-Answers cal k ticks fuel now r v (inl e) = record {
  answer = r;
  given = poll_nothing cal ticks fuel now r e;
  sound = v;
  count = refl;
  no_wheel = λ q. q;
}
poll_timers-Answers cal k ticks fuel now r v (inr (inl (w, e, low, h))) = record {
  answer = record r { timer_wheel = some (record w { last_poll_tsc = now }) };
  given = poll_idle cal ticks fuel now r w e low h;
  sound = with_wheel-IsSound k r _ v;
  count = refl;
  no_wheel = λ q. let bad : some w ≡ none = sym e ∙ q in absurd (ground arith);
}
poll_timers-Answers cal k ticks fuel now r v (inr (inr (w, ready, bounded, t, f))) =
    let (r', run, p) = poll_timers_total cal k now ticks fuel r w v ready bounded t f in
    record {
      answer = r';
      given = run;
      sound = p.sound;
      count = p.count;
      no_wheel = λ q. let e : some w ≡ none = sym ready.its_wheel ∙ q in absurd (ground arith);
    }

module _ (l : Layout) (cal : TscCalibration) (k ticks fuel : ℕ) where
  check_gaps-Takes : (s : Loop) (now : ℕ) → IsRunning k s → Takes k 0 0 s (check_gaps cal s now)
  unfolding check_gaps
  check_gaps-Takes s now v =
      let (sound, count) = check_gap_timeouts-IsSound cal k s.recon now v.sound in
      let calm = check_gap_timeouts-Calm cal s.recon now in
      either (Takes k 0 0 s)
        (ltb (ns_to_cycles cal gap_check_interval_ns) (sub64 now s.last_gap_check_tsc))
        (record {
          running = record { sound = sound; primary = v.primary; dropcopy = v.dropcopy };
          counts = uncounted _ _ (ap (λ t. t.0) count) (ap (λ t. t.1) count) (ap (λ t. t.2) count);
          primary_left = omega arith;
          dropcopy_left = omega arith;
          no_wheel = λ e. calm.same_wheel ∙ e;
        })
        (nothing-Takes k s v)

  polled-Takes :
      (s : Loop) (now : ℕ)
      → IsRunning k s
      → (p : Answers k s.recon (poll_timers cal ticks fuel s.recon now))
      → Takes k 0 0 s (record s { recon = p.answer })
  polled-Takes s now v p = record {
    running = record { sound = p.sound; primary = v.primary; dropcopy = v.dropcopy };
    counts = uncounted _ _ (ap (λ t. t.0) p.count) (ap (λ t. t.1) p.count) (ap (λ t. t.2) p.count);
    primary_left = omega arith;
    dropcopy_left = omega arith;
    no_wheel = p.no_wheel;
  }

  with_backoff-Takes :
      (s s' : Loop) (p d : ℕ) (b : ℕ) → Takes k p d s s' → Takes k p d s (record s' { backoff = b })
  with_backoff-Takes s s' p d b t = record {
    running = record {
      sound = t.running.sound;
      primary = t.running.primary;
      dropcopy = t.running.dropcopy;
    };
    counts = t.counts;
    primary_left = t.primary_left;
    dropcopy_left = t.dropcopy_left;
    no_wheel = t.no_wheel;
  }

  -- A round ends, when the timers can be polled after the events that it takes. It takes one event from
  -- each ring that holds any, and no more, and each is counted once: by the counter of its own feed, or
  -- as one that found no room in the store. The reconciler stays sound, and the rings keep events of
  -- their feed.
  pub round-Takes :
      (s : Loop) (now : ℕ)
      → IsRunning k s
      → Room 2 s.recon
      → CanPoll cal now ticks fuel (consume l cal s).0.recon
      → (s' : Loop) × (round l cal ticks fuel s now ≡ some s')
        × Takes k
            (at_most_one (size_approx ring_bits s.primary))
            (at_most_one (size_approx ring_bits s.dropcopy))
            s
            s'
  unfolding round after_poll
  round-Takes s now v h can =
      let a = consume-Takes l cal k s v h in
      let (s₁, consumed) = consume l cal s in
      let p = poll_timers-Answers cal k ticks fuel now s₁.recon a.running.sound can in
      let s₂ : Loop = record s₁ { recon = p.answer } in
      let b = polled-Takes s₁ now a.running p in
      let c = check_gaps-Takes s₂ now b.running in
      let s₃ = check_gaps cal s₂ now in
      let few = at_most_one (size_approx ring_bits s.primary) in
      let few' = at_most_one (size_approx ring_bits s.dropcopy) in
      let ab : Takes k few few' s s₂ = both-Takes (omega arith) (omega arith) a b in
      let abc : Takes k few few' s s₃ = both-Takes (omega arith) (omega arith) ab c in
      (
        record s₃ { backoff = back_off consumed s₁.backoff },
        ap (after_poll cal now s₁ consumed) p.given,
        with_backoff-Takes s s₃ few few' (back_off consumed s₁.backoff) abc,
      )
