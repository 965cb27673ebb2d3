-- ===== src/Wheel/Complete.antt =====
-- A whole poll of the wheel of src/util/wheel_timer.hpp.
use mathlib.Core.List.{Mem, not-mem-nil}
use fx_dropcopy_primary_reco.Prelude.{
  ℕ, zero, suc, ◌+◌, ◌-◌, ◌/◌, ◌%◌, ◌≤◌, ◌<◌, ◌≡◌, refl, sym, ap, ◌∙◌, subst, arith, u64,
  Bool-cases, inl, inr, some, ltb, take, bit_and, bit_and_mask, max, inc64,
}
use fx_dropcopy_primary_reco.FixedVec.Live.{live}
use fx_dropcopy_primary_reco.Wheel.{
  WheelTimer, Entry, bucket_at, next_tick, Host, poll_ticks, poll_expired, bucket_capacity,
}
use fx_dropcopy_primary_reco.Wheel.Buckets.{entries}
use fx_dropcopy_primary_reco.Wheel.Timely.{slot, Good}
use fx_dropcopy_primary_reco.Wheel.Poll.{IsTame, Emptied, drain_total}

-- No entry has a deadline before the tick that the wheel has come to.
abbrev pub Due : WheelTimer → Type 0
Due w =
    (d : ℕ) (e : Entry)
    → d < 256
    → Mem e (entries w ((w.current_tick + d) % 256))
    → w.current_tick ≤ e.deadline_tsc / w.tick_tsc

-- The wheel turns from an empty bucket.
module _ (w : WheelTimer) (g : Good w) (h : w.current_tick + 1 < u64)
    (no_entry : (bucket_at w (slot w)).size ≡ 0) where
  none_here : (e : Entry) → ¬ Mem e (entries w (slot w))
  none_here e m =
      not-mem-nil
        (subst (λ n. Mem e (take n (bucket_at w (slot w)).cells)) no_entry (unfold live in m))

  -- An entry d buckets ahead after the turn was one further ahead before it.
  ahead :
      (d : ℕ) (e : Entry)
      → d < 256
      → Mem e (entries w ((inc64 w.current_tick + d) % 256))
      → d + 1 ≤ e.deadline_tsc / w.tick_tsc - w.current_tick
  ahead d e k m = elim (Bool-cases (ltb d 255)) [
    | inl inner ↦
        let q : (inc64 w.current_tick + d) % 256 ≡ (w.current_tick + (d + 1)) % 256 = omega arith in
        g.timely (d + 1) e (ground arith) (subst (λ i. Mem e (entries w i)) q m)
    | inr last ↦
        let l : d ≡ 255 = ground arith in
        let q : (inc64 w.current_tick + d) % 256 ≡ slot w = omega arith in
        absurd (none_here e (subst (λ i. Mem e (entries w i)) q m))
  ]

  pub turn-Good : Good (next_tick w)
  unfolding next_tick
  turn-Good = record {
    valid = record { wide = g.valid.wide; ticks = g.valid.ticks; sound = g.valid.sound };
    timely = λ d e k m. omega (arith, ahead d e k m);
  }

  pub turn-Due : Due (next_tick w)
  unfolding next_tick
  turn-Due d e k m = omega (arith, ahead d e k m)

  pub turn_time : (next_tick w).current_tick ≡ w.current_tick + 1
  unfolding next_tick
  turn_time = omega arith

  pub turn_tick : (next_tick w).tick_tsc ≡ w.tick_tsc
  unfolding next_tick
  turn_tick = refl

-- What a poll at `now` makes of a wheel.
pub record Polled (now : ℕ) (w w' : WheelTimer) : Type 0 where
  pub good : Good w'
  pub same_tick : w'.tick_tsc ≡ w.tick_tsc
  pub time : w'.current_tick ≡ max w.current_tick (now / w.tick_tsc)
  pub keeps_due : Due w → Due w'
  pub due : w.current_tick < now / w.tick_tsc → Due w'

-- The wheel of a host whose bucket was emptied has turned.
record Turned (w w' : WheelTimer) : Type 0 where
  good : Good w'
  due : Due w'
  time : w'.current_tick ≡ w.current_tick + 1
  same_tick : w'.tick_tsc ≡ w.tick_tsc

turned : (w w₁ : WheelTimer) → w.current_tick + 1 < u64 → Emptied w w₁ → Turned w (next_tick w₁)
turned w w₁ h d =
    let b₁ : w₁.current_tick + 1 < u64 = omega (arith, d.same_time) in
    let n₁ : (bucket_at w₁ (slot w₁)).size ≡ 0 =
      subst (λ c. (bucket_at w₁ (c % 256)).size ≡ 0) (sym d.same_time) d.no_entry in
    record {
      good = turn-Good w₁ d.good b₁ n₁;
      due = turn-Due w₁ d.good b₁ n₁;
      time = turn_time w₁ d.good b₁ n₁ ∙ ap (λ c. c + 1) d.same_time;
      same_tick = turn_tick w₁ d.good b₁ n₁ ∙ d.same_tick;
    }

-- A poll from a wheel that has turned is a poll from the wheel before.
after_turn :
    {now : ℕ} {w w₂ w' : WheelTimer}
    → w.current_tick < now / w.tick_tsc
    → Turned w w₂
    → Polled now w₂ w'
    → Polled now w w'
after_turn late t p = record {
  good = p.good;
  same_tick = p.same_tick ∙ t.same_tick;
  time = p.time ∙ rw (t.same_tick, t.time) (omega arith);
  keeps_due = λ _. p.keeps_due t.due;
  due = λ _. p.keeps_due t.due;
}

module _ {ℓ} {S : Type ℓ} (host : Host S) (now : ℕ) (Inv : S → Type 0) (tame : IsTame host now Inv)
    (bounded : now < u64) where
  open host use {wheel, with_wheel}

  tick_bound : (t : ℕ) → 0 < t → now / t < u64
  tick_bound t h = grind arith

  poll_ticks_total :
      (ticks fuel : ℕ) (s : S)
      → Inv s
      → Good (wheel s)
      → now / (wheel s).tick_tsc - (wheel s).current_tick < ticks
      → bucket_capacity < fuel
      → (s' : S) × (poll_ticks host now ticks fuel s ≡ some s')
        × Inv s'
        × Polled now (wheel s) (wheel s')
  unfolding poll_ticks
  poll_ticks_total zero fuel s i g t f = absurd (omega arith)
  poll_ticks_total (suc ticks) fuel s i g t f =
      elim (Bool-cases (ltb (wheel s).current_tick (now / (wheel s).tick_tsc))) [
        | inr done ↦ (
          s,
          rw done,
          i,
          record {
            good = g;
            same_tick = refl;
            time = ground arith;
            keeps_due = λ k. k;
            due = λ k. absurd (ground arith);
          },
        )
        | inl behind ↦
            let idx = bit_and (wheel s).current_tick 255 in
            let here : idx ≡ slot (wheel s) = bit_and_mask 8 (wheel s).current_tick in
            let late : (wheel s).current_tick < now / (wheel s).tick_tsc = ground arith in
            let top = tick_bound (wheel s).tick_tsc g.valid.ticks in
            let fits : (bucket_at (wheel s) idx).size < fuel =
              omega (arith, (g.valid.sound idx).fits) in
            let (s₁, run, i₁, d) = drain_total host now Inv tame fuel s idx here i g late fits in
            let s₂ = with_wheel s₁ (next_tick (wheel s₁)) in
            let t₂ : Turned (wheel s) (wheel s₂) =
              subst (Turned (wheel s)) {y = wheel s₂}
                (sym (tame.wheel-with s₁ (next_tick (wheel s₁))))
                (turned (wheel s) (wheel s₁) (omega arith) d) in
            let smaller : now / (wheel s₂).tick_tsc - (wheel s₂).current_tick < ticks =
              rw (t₂.same_tick, t₂.time) (omega arith) in
            let (s', more, i', p) =
              poll_ticks_total ticks fuel s₂ (tame.with_wheel-Inv s₁ _ i₁) t₂.good smaller f in
            (s', rw (behind, run) more, i', after_turn {w₂ = wheel s₂} {w' = wheel s'} late t₂ p)
      ]

  -- A poll at `now` of a well-formed wheel that is behind it ends, given fuel for the ticks between and
  -- for a full bucket, whatever the callback schedules past `now`: the wheel has come to the tick of
  -- `now`, is well formed again, and holds no entry whose deadline lies in an earlier tick.
  pub poll_expired_total :
      (ticks fuel : ℕ) (s : S)
      → Inv s
      → Good (wheel s)
      → (wheel s).current_tick < now / (wheel s).tick_tsc
      → now / (wheel s).tick_tsc - (wheel s).current_tick < ticks
      → bucket_capacity < fuel
      → (s' : S) × (poll_expired host now ticks fuel s ≡ some s')
        × ((wheel s').current_tick ≡ now / (wheel s).tick_tsc)
        × Inv s'
        × Good (wheel s')
        × Due (wheel s')
  unfolding poll_expired
  poll_expired_total ticks fuel s i g h t f =
      let (s₁, run, i₁, p) = poll_ticks_total ticks fuel s i g t f in
      let e = tame.wheel-with s₁ (record (wheel s₁) { last_poll_tsc = now }) in
      (
        with_wheel s₁ (record (wheel s₁) { last_poll_tsc = now }),
        rw (run, poll_expired),
        ap (λ w. w.current_tick) e ∙ p.time ∙ omega arith,
        tame.with_wheel-Inv s₁ _ i₁,
        subst Good (sym e) (record {
          valid = record {
            wide = p.good.valid.wide;
            ticks = p.good.valid.ticks;
            sound = p.good.valid.sound;
          };
          timely = p.good.timely;
        }),
        subst Due (sym e) (p.due h),
      )
