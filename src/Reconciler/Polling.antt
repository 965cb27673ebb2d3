-- ===== src/Reconciler/Polling.antt =====
-- The poll of the timer wheel in `run` of src/core/reconciler.cpp, with the callback of an expired
-- deadline: it ends when a deadline that is looked at again is put after the time of the poll.
use fx_dropcopy_primary_reco.Prelude.{
  ℕ, ◌-◌, ◌/◌, ◌<◌, ◌≡◌, refl, sym, ap, ◌∙◌, subst, u64, Option, none, some, add64,
}
use fx_dropcopy_primary_reco.Clock.{TscCalibration, ns_to_cycles}
use fx_dropcopy_primary_reco.Reconciler.{Reconciler}
use fx_dropcopy_primary_reco.Wheel.{WheelTimer, poll_expired, bucket_capacity}
use fx_dropcopy_primary_reco.Wheel.Timely.{Good, Keeps}
use fx_dropcopy_primary_reco.Wheel.Poll.{IsTame}
use fx_dropcopy_primary_reco.Wheel.Complete.{Due, poll_expired_total}
use fx_dropcopy_primary_reco.Store.{find}
use fx_dropcopy_primary_reco.Reconciler.Deadline.{
  on_grace_deadline_expired, deadline_host, with_its_wheel, poll_timers,
}
use fx_dropcopy_primary_reco.Reconciler.Sound.{IsSound, on_grace_deadline_expired-IsSound}
use fx_dropcopy_primary_reco.Reconciler.Events.{events}
use fx_dropcopy_primary_reco.Reconciler.Ticks.{Same, Ticks, expire_found-Same, expire_found-Ticks}

-- What a poll keeps of the reconciler and its wheel.
record Serves (cal : TscCalibration) (now k : ℕ) (n : ℕ × ℕ × ℕ) (s : WheelTimer × Reconciler)
    : Type 0 where
  later : now < add64 s.1.last_poll_tsc (ns_to_cycles cal s.1.config.gap_recheck_period_ns)
  sound : IsSound k s.1
  count : events s.1 ≡ n
  its_wheel : s.1.timer_wheel ≡ some s.0

with_wheel-IsSound :
    (k : ℕ) (r : Reconciler) (o : Option WheelTimer)
    → IsSound k r
    → IsSound k (record r { timer_wheel = o })
with_wheel-IsSound k r o v = record {
  store_valid = v.store_valid;
  parts_valid = record {
    primary_valid = v.parts_valid.primary_valid;
    dropcopy_valid = v.parts_valid.dropcopy_valid;
    divergences_valid = v.parts_valid.divergences_valid;
    gaps_valid = v.parts_valid.gaps_valid;
  };
}

module _ (cal : TscCalibration) (now k : ℕ) (n : ℕ × ℕ × ℕ) where
  with_wheel-Serves :
      (s : WheelTimer × Reconciler) (w : WheelTimer)
      → Serves cal now k n s
      → Serves cal now k n (w, record (s.1) { timer_wheel = some w })
  with_wheel-Serves s w v = record {
    later = v.later;
    sound = with_wheel-IsSound k s.1 (some w) v.sound;
    count = v.count;
    its_wheel = refl;
  }

  abbrev After : WheelTimer × Reconciler → ℕ → ℕ → Reconciler
  After s key generation =
      on_grace_deadline_expired cal (record (s.1) { timer_wheel = some s.0 }) key generation

  callback-Ticks :
      (s : WheelTimer × Reconciler) (key generation : ℕ) (v : Serves cal now k n s) (g : Good s.0)
      (h : s.0.current_tick < now / s.0.tick_tsc)
      → Ticks cal now s.0 g h (record (s.1) { timer_wheel = some s.0 }) (After s key generation)
  unfolding on_grace_deadline_expired
  callback-Ticks s key generation v g h =
      expire_found-Ticks cal now s.0 g h (record (s.1) { timer_wheel = some s.0 }) generation
        (find s.1.store key) refl v.later

  callback-Same :
      (s : WheelTimer × Reconciler) (key generation : ℕ)
      → Same (record (s.1) { timer_wheel = some s.0 }) (After s key generation)
  unfolding on_grace_deadline_expired
  callback-Same s key generation =
      expire_found-Same cal (record (s.1) { timer_wheel = some s.0 }) generation
        (find s.1.store key)

  -- The state after a callback, when the reconciler has the wheel w'.
  its_wheel-eq :
      (w w' : WheelTimer) (r : Reconciler) → r.timer_wheel ≡ some w' → with_its_wheel w r ≡ (w', r)
  its_wheel-eq w w' r e = ap (λ o. elim o [ none ↦ (w, r) | some v ↦ (v, r) ]) e

  callback-Serves :
      (s : WheelTimer × Reconciler) (key generation : ℕ)
      → Serves cal now k n s
      → Good s.0
      → s.0.current_tick < now / s.0.tick_tsc
      → Serves cal now k n (with_its_wheel s.0 (After s key generation))
  callback-Serves s key generation v g h =
      let t = callback-Ticks s key generation v g h in
      let (config, count) = callback-Same s key generation in
      subst (Serves cal now k n) (sym (its_wheel-eq s.0 t.next _ t.holds)) (record {
        later = rw (t.same_poll, config) v.later;
        sound =
            on_grace_deadline_expired-IsSound cal k _ key generation
              (with_wheel-IsSound k s.1 (some s.0) v.sound);
        count = count ∙ v.count;
        its_wheel = t.holds;
      })

  deadline_host-IsTame : IsTame (deadline_host cal) now (Serves cal now k n)
  deadline_host-IsTame = record {
    wheel-with = λ s w. refl;
    with_wheel-Inv = λ s w v. with_wheel-Serves s w v;
    on_expired-Inv = λ s key generation v g h. callback-Serves s key generation v g h;
    callback = λ s key generation v g h.
        let t = callback-Ticks s key generation v g h in
        subst (λ p. Keeps s.0 p.0) (sym (its_wheel-eq s.0 t.next _ t.holds)) t.kept;
  }

-- A reconciler with a well-formed wheel that is behind the time `now`, and that puts the deadline of
-- an order which an open gap may affect after `now`.
pub record IsReady (cal : TscCalibration) (now : ℕ) (r : Reconciler) (w : WheelTimer) : Type 0 where
  pub its_wheel : r.timer_wheel ≡ some w
  pub good : Good w
  pub behind : w.current_tick < now / w.tick_tsc
  pub later : now < add64 r.last_poll_tsc (ns_to_cycles cal r.config.gap_recheck_period_ns)

-- What the poll has come to.
pub record IsPolled (now k : ℕ) (r r' : Reconciler) (w : WheelTimer) : Type 0 where
  pub sound : IsSound k r'
  pub count : events r' ≡ events r
  pub next : WheelTimer
  pub its_wheel : r'.timer_wheel ≡ some next
  pub time : next.current_tick ≡ now / w.tick_tsc
  pub good : Good next
  pub due : Due next

-- The two steps of `poll_timers`.
abbrev pub answered : Option (WheelTimer × Reconciler) → Option Reconciler
answered none = none
answered (some s) = some s.1

abbrev pub polled : TscCalibration → ℕ → ℕ → Reconciler → ℕ → Option WheelTimer → Option Reconciler
polled cal ticks fuel r now none = some r
polled cal ticks fuel r now (some w) =
    answered (poll_expired (deadline_host cal) now ticks fuel (w, r))

-- The poll of the timers of a sound reconciler ends, given fuel for the ticks between and for a full
-- bucket, when an order that is looked at again gets a deadline after the time of the poll. The
-- reconciler is sound again, has counted no event, and its wheel has come to the tick of `now`, with no
-- deadline before that tick left on it.
pub poll_timers_total :
    (cal : TscCalibration) (k now ticks fuel : ℕ) (r : Reconciler) (w : WheelTimer)
    → IsSound k r
    → IsReady cal now r w
    → now < u64
    → now / w.tick_tsc - w.current_tick < ticks
    → bucket_capacity < fuel
    → (r' : Reconciler) × (poll_timers cal ticks fuel r now ≡ some r') × IsPolled now k r r' w
unfolding poll_timers
poll_timers_total cal k now ticks fuel r w v ready bounded t f =
    let serves : Serves cal now k (events r) (w, r) = record {
      later = ready.later;
      sound = v;
      count = refl;
      its_wheel = ready.its_wheel;
    } in
    let (s, run, time, served, good, due) =
      poll_expired_total (deadline_host cal) now (Serves cal now k (events r))
        (deadline_host-IsTame cal now k (events r)) bounded ticks fuel (w, r) serves ready.good
        ready.behind t f in
    (
      s.1,
      ap (polled cal ticks fuel r now) ready.its_wheel ∙ ap answered run,
      record {
        sound = served.sound;
        count = served.count;
        next = s.0;
        its_wheel = served.its_wheel;
        time = time;
        good = good;
        due = due;
      },
    )
