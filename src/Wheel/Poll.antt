-- ===== src/Wheel/Poll.antt =====
-- `poll_expired` of src/util/wheel_timer.hpp terminates and leaves no overdue entry, for a callback
-- that schedules into the future only.
use fx_dropcopy_primary_reco.Prelude.{
  ℕ, zero, suc, ◌+◌, ◌/◌, ◌%◌, ◌<◌, ◌≡◌, refl, sym, ap, ◌∙◌, subst, arith, Bool-cases, inl, inr,
  some, leb, ◌==◌,
}
use fx_dropcopy_primary_reco.FixedVec.{swap_erase, at}
use fx_dropcopy_primary_reco.Wheel.{
  WheelTimer, Entry, empty_entry, bucket_at, schedule, erase_first, reschedule_first, count_expired,
  Host, drain_step, drain,
}
use fx_dropcopy_primary_reco.Wheel.Buckets.{erased-here}
use fx_dropcopy_primary_reco.Wheel.Timely.{
  slot, Good, Keeps, schedule-Keeps, erase_first-Good, with_stats-Good,
}

-- One entry gone from the current bucket.
pub record Shrinks (w w' : WheelTimer) : Type 0 where
  pub good : Good w'
  pub same_tick : w'.tick_tsc ≡ w.tick_tsc
  pub same_time : w'.current_tick ≡ w.current_tick
  pub fewer : (bucket_at w' (slot w)).size + 1 ≡ (bucket_at w (slot w)).size

erase_first-Shrinks :
    (w : WheelTimer) → Good w → 0 < (bucket_at w (slot w)).size → Shrinks w (erase_first w (slot w))
erase_first-Shrinks w g p =
    let h : slot w < 256 = omega arith in
    record {
      good = erase_first-Good w (slot w) g h p;
      same_tick = unfold erase_first in refl;
      same_time = unfold erase_first in refl;
      fewer =
          subst (λ b. b.size + 1 ≡ (bucket_at w (slot w)).size)
            (sym (erased-here w (slot w) g.valid h)) (unfold swap_erase in omega arith);
    }

reschedule_first-Shrinks :
    (w : WheelTimer) (e : Entry) (now : ℕ)
    → Good w
    → w.current_tick < now / w.tick_tsc
    → now < e.deadline_tsc
    → 0 < (bucket_at w (slot w)).size
    → Shrinks w (reschedule_first w (slot w) e)
unfolding reschedule_first
reschedule_first-Shrinks w e now g h k p =
    let s = erase_first-Shrinks w g p in
    let w₁ = erase_first w (slot w) in
    let t =
      schedule-Keeps w₁ e.key e.generation e.deadline_tsc now s.good
        (rw (s.same_time, s.same_tick) h) k in
    record {
      good = with_stats-Good _ _ t.good;
      same_tick = t.same_tick ∙ s.same_tick;
      same_time = t.same_time ∙ s.same_time;
      fewer =
          ap (λ b. b.size + 1)
            (subst
              (λ c.
                bucket_at (schedule w₁ e.key e.generation e.deadline_tsc).0 (c % 256)
                ≡ bucket_at w₁ (c % 256))
              s.same_time t.same_bucket)
          ∙ s.fewer;
    }

-- The entry that has expired leaves after the callback.
fired-Shrinks :
    (w w₁ : WheelTimer)
    → Keeps w w₁
    → 0 < (bucket_at w (slot w)).size
    → Shrinks w (erase_first (count_expired w₁) (slot w))
unfolding count_expired
fired-Shrinks w w₁ k p =
    let w₂ = count_expired w₁ in
    let g₂ : Good w₂ = with_stats-Good w₁ _ k.good in
    let h : slot w < 256 = omega arith in
    let same : bucket_at w₂ (slot w) ≡ bucket_at w (slot w) = k.same_bucket in
    record {
      good = erase_first-Good w₂ (slot w) g₂ h (rw same p);
      same_tick = unfold erase_first in k.same_tick;
      same_time = unfold erase_first in k.same_time;
      fewer = rw (erased-here w₂ (slot w) g₂.valid h, same) (unfold swap_erase in omega arith);
    }

-- A bucket that was emptied.
pub record Emptied (w w' : WheelTimer) : Type 0 where
  pub good : Good w'
  pub same_tick : w'.tick_tsc ≡ w.tick_tsc
  pub same_time : w'.current_tick ≡ w.current_tick
  pub no_entry : (bucket_at w' (slot w)).size ≡ 0

Emptied-after : {w w₁ w' : WheelTimer} → Shrinks w w₁ → Emptied w₁ w' → Emptied w w'
Emptied-after {w} {w₁} {w'} s d = record {
  good = d.good;
  same_tick = d.same_tick ∙ s.same_tick;
  same_time = d.same_time ∙ s.same_time;
  no_entry = subst (λ c. (bucket_at w' (c % 256)).size ≡ 0) s.same_time d.no_entry;
}

module _ {ℓ} {S : Type ℓ} (host : Host S) (now : ℕ) (Inv : S → Type 0) where
  open host use {wheel, with_wheel, on_expired}

  -- The host gives back the wheel that it was given. Under an invariant of the host, its callback, on
  -- a wheel that is behind the poll's time, keeps the clock and the current bucket: it schedules past
  -- the poll's time, or not at all.
  pub record IsTame : Type ℓ where
    pub wheel-with : (s : S) (w : WheelTimer) → wheel (with_wheel s w) ≡ w
    pub with_wheel-Inv : (s : S) (w : WheelTimer) → Inv s → Inv (with_wheel s w)
    pub on_expired-Inv :
        (s : S) (key generation : ℕ)
        → Inv s
        → Good (wheel s)
        → (wheel s).current_tick < now / (wheel s).tick_tsc
        → Inv (on_expired s key generation)
    pub callback :
        (s : S) (key generation : ℕ)
        → Inv s
        → Good (wheel s)
        → (wheel s).current_tick < now / (wheel s).tick_tsc
        → Keeps (wheel s) (wheel (on_expired s key generation))

  module _ (tame : IsTame) where
    drain_step-Inv :
        (s : S) (idx : ℕ) (e : Entry)
        → Inv s
        → Good (wheel s)
        → (wheel s).current_tick < now / (wheel s).tick_tsc
        → Inv (drain_step host now idx s e)
    unfolding drain_step
    drain_step-Inv s idx e i g h = elim (Bool-cases (leb e.deadline_tsc now)) [
      | inl due ↦ rw due (tame.with_wheel-Inv _ _ (tame.on_expired-Inv s e.key e.generation i g h))
      | inr early ↦ rw early (tame.with_wheel-Inv s _ i)
    ]

    drain_step-Shrinks :
        (s : S) (e : Entry)
        → Inv s
        → Good (wheel s)
        → (wheel s).current_tick < now / (wheel s).tick_tsc
        → 0 < (bucket_at (wheel s) (slot (wheel s))).size
        → Shrinks (wheel s) (wheel (drain_step host now (slot (wheel s)) s e))
    unfolding drain_step
    drain_step-Shrinks s e i g h p = elim (Bool-cases (leb e.deadline_tsc now)) [
      | inl due ↦
          rw (due, tame.wheel-with)
            (fired-Shrinks (wheel s) _ (tame.callback s e.key e.generation i g h) p)
      | inr early ↦
          rw (early, tame.wheel-with)
            (reschedule_first-Shrinks (wheel s) e now g h (ground arith) p)
    ]

    pub drain_total :
        (fuel : ℕ) (s : S) (idx : ℕ)
        → idx ≡ slot (wheel s)
        → Inv s
        → Good (wheel s)
        → (wheel s).current_tick < now / (wheel s).tick_tsc
        → (bucket_at (wheel s) idx).size < fuel
        → (s' : S) × (drain host now fuel idx s ≡ some s') × Inv s' × Emptied (wheel s) (wheel s')
    unfolding drain
    drain_total zero s idx e i g h f = absurd (omega arith)
    drain_total (suc fuel) s idx e i g h f =
        elim (Bool-cases ((bucket_at (wheel s) idx).size == 0)) [
          | inl empty ↦ (
            s,
            rw empty,
            i,
            record {
              good = g;
              same_tick = refl;
              same_time = refl;
              no_entry = subst (λ i. (bucket_at (wheel s) i).size ≡ 0) e (ground arith);
            },
          )
          | inr more ↦
              let first = at (bucket_at (wheel s) idx) 0 empty_entry in
              let s₁ = drain_step host now idx s first in
              let filled : 0 < (bucket_at (wheel s) (slot (wheel s))).size =
                rw (← e) (ground arith) in
              let step =
                subst (λ n. Shrinks (wheel s) (wheel (drain_step host now n s first))) (sym e)
                  (drain_step-Shrinks s first i g h filled) in
              let here : idx ≡ slot (wheel s₁) = e ∙ ap (λ c. c % 256) (sym step.same_time) in
              let smaller : (bucket_at (wheel s₁) idx).size < fuel =
                let n =
                  subst (λ i. (bucket_at (wheel s₁) i).size + 1 ≡ (bucket_at (wheel s) i).size)
                    (sym e) step.fewer in
                omega arith in
              let behind : (wheel s₁).current_tick < now / (wheel s₁).tick_tsc =
                rw (step.same_time, step.same_tick) h in
              let kept = drain_step-Inv s idx first i g h in
              let (s', run, i', d) = drain_total fuel s₁ idx here kept step.good behind smaller in
              (s', rw more run, i', Emptied-after step d)
        ]
