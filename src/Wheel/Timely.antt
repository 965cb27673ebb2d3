-- ===== src/Wheel/Timely.antt =====
-- On the wheel of src/util/wheel_timer.hpp no entry stands in a bucket that is reached after its
-- deadline.
use mathlib.Core.List.{Mem}
use mathlib.Core.Logic.Or
use native.Mathlib.Bridge.{le_prop}
use fx_dropcopy_primary_reco.Prelude.{
  ℕ, ◌+◌, ◌-◌, ◌/◌, ◌%◌, ◌≤◌, ◌<◌, ◌≡◌, ◌≢◌, refl, sym, subst, arith,
}
use fx_dropcopy_primary_reco.Wheel.{
  WheelTimer, Entry, Stats, bucket_at, delta_ticks, target_bucket, place, schedule, erase_first,
}
use fx_dropcopy_primary_reco.Wheel.Buckets.{
  IsValid, entries, delta-le, target-eq, place-other, place-IsValid, mem-place, erase_first-IsValid,
  mem-erase_first,
}

abbrev pub slot : WheelTimer → ℕ
slot w = w.current_tick % 256

-- An entry d buckets ahead of the current one has a deadline at least d ticks ahead.
abbrev pub Timely : WheelTimer → Type 0
Timely w =
    (d : ℕ) (e : Entry)
    → d < 256
    → Mem e (entries w ((w.current_tick + d) % 256))
    → d ≤ e.deadline_tsc / w.tick_tsc - w.current_tick

pub record Good (w : WheelTimer) : Type 0 where
  pub valid : IsValid w
  pub timely : Timely w

pub place-Good : (w : WheelTimer) (e : Entry) → Good w → Good (place w e).0
unfolding place
place-Good w e g = record {
  valid = place-IsValid w e g.valid;
  timely = λ d x hd m.
      Or.elim le_prop (mem-place w e ((w.current_tick + d) % 256) x g.valid m)
        (λ old. g.timely d x hd old)
        (λ (new : (x ≡ e) × ((w.current_tick + d) % 256 ≡ target_bucket w e.deadline_tsc)).
          let q : d ≡ delta_ticks w e.deadline_tsc =
            omega (arith, target-eq w e.deadline_tsc, delta-le w e.deadline_tsc, new.1) in
          rw (new.0, q) (delta-le w e.deadline_tsc).0);
}

-- The wheel with other statistics.
abbrev pub with_stats : WheelTimer → Stats → WheelTimer
with_stats w st = record w { stats = st }

pub with_stats-Good : (w : WheelTimer) (st : Stats) → Good w → Good (with_stats w st)
with_stats-Good w st g = record {
  valid = record { wide = g.valid.wide; ticks = g.valid.ticks; sound = g.valid.sound };
  timely = g.timely;
}

abbrev pub entry : ℕ → ℕ → ℕ → Entry
entry key generation deadline = record {
  key = key;
  generation = generation;
  deadline_tsc = deadline;
}

-- Scheduling is placing, up to the statistics.
pub schedule-eq :
    (w : WheelTimer) (key generation deadline : ℕ)
    → (st : Stats) × ((schedule w key generation deadline).0
        ≡ with_stats (place w (entry key generation deadline)).0 st)
unfolding schedule
schedule-eq w key generation deadline = ((schedule w key generation deadline).0.stats, ground arith)

-- A change of the wheel that leaves its clock and its current bucket alone.
pub record Keeps (w w' : WheelTimer) : Type 0 where
  pub good : Good w'
  pub same_tick : w'.tick_tsc ≡ w.tick_tsc
  pub same_time : w'.current_tick ≡ w.current_tick
  pub same_bucket : bucket_at w' (slot w) ≡ bucket_at w (slot w)

div_mono : (a b t : ℕ) → 0 < t → a ≤ b → a / t ≤ b / t
div_mono a b t h k = grind arith

-- A deadline past the time of a poll goes into another bucket than the one that the poll is at.
pub schedule-Keeps :
    (w : WheelTimer) (key generation deadline now : ℕ)
    → Good w
    → w.current_tick < now / w.tick_tsc
    → now < deadline
    → Keeps w (schedule w key generation deadline).0
schedule-Keeps w key generation deadline now g h k =
    let e = entry key generation deadline in
    let (st, q) = schedule-eq w key generation deadline in
    let later = div_mono now deadline w.tick_tsc g.valid.ticks (omega arith) in
    let ahead : 1 ≤ delta_ticks w deadline = unfold delta_ticks in ground arith in
    let apart : slot w ≢ target_bucket w deadline =
      omega (arith, target-eq w deadline, delta-le w deadline, ahead) in
    subst (Keeps w) (sym q) (record {
      good = with_stats-Good _ st (place-Good w e g);
      same_tick = unfold place in refl;
      same_time = unfold place in refl;
      same_bucket = place-other w e (slot w) apart;
    })

pub erase_first-Good :
    (w : WheelTimer) (idx : ℕ)
    → Good w
    → idx < 256
    → 0 < (bucket_at w idx).size
    → Good (erase_first w idx)
unfolding erase_first
erase_first-Good w idx g h p = record {
  valid = erase_first-IsValid w idx g.valid h;
  timely = λ d x hd m. g.timely d x hd (mem-erase_first w idx _ x g.valid h p m);
}
