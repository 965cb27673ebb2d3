-- ===== src/Wheel.antt =====
-- src/util/wheel_timer.hpp: the timing wheel of the grace period deadlines. A call of `poll_expired`
-- runs a callback that may itself schedule on the wheel, so it works on the state of its caller, a
-- host that holds the wheel.
pub mod Buckets
pub mod Timely
pub mod Poll
pub mod Complete
pub mod Start
use fx_dropcopy_primary_reco.Prelude.{
  ℕ, zero, suc, ◌+◌, ◌-◌, ◌*◌, ◌/◌, ◌%◌, Bool, true, false, List, [], ◌∷◌, Option, none, some,
  if◌then◌else◌, ltb, leb, ◌==◌, get_or, set, replicate, bit_and, u64, add64, inc64, sub64, map,
}
use fx_dropcopy_primary_reco.Clock.{TscCalibration, ns_to_cycles, default_tsc_freq_hz, ns_per_sec}
use fx_dropcopy_primary_reco.FixedVec.{FixedVec, try_push_back, swap_erase, at, clear}
use fx_dropcopy_primary_reco.FixedVec

abbrev pub num_buckets : ℕ
num_buckets = 256

abbrev pub tick_ns : ℕ
tick_ns = 1_000_000

abbrev pub bucket_capacity : ℕ
bucket_capacity = 1024

pub record Entry : Type 0 where
  pub key : ℕ
  pub generation : ℕ
  pub deadline_tsc : ℕ

abbrev pub empty_entry : Entry
empty_entry = record { key = 0; generation = 0; deadline_tsc = 0 }

pub record Stats : Type 0 where
  pub scheduled : ℕ
  pub expired : ℕ
  pub rescheduled : ℕ
  pub overflow_dropped : ℕ

abbrev pub empty_stats : Stats
empty_stats = record { scheduled = 0; expired = 0; rescheduled = 0; overflow_dropped = 0 }

abbrev pub Bucket : Type 0
Bucket = FixedVec Entry

pub record WheelTimer : Type 0 where
  pub tick_tsc : ℕ
  pub buckets : List Bucket
  pub current_tick : ℕ
  pub last_poll_tsc : ℕ
  pub stats : Stats

abbrev pub default_tick_tsc : ℕ
default_tick_tsc = tick_ns * default_tsc_freq_hz / ns_per_sec

unfoldable pub empty_bucket : Bucket
unfolding FixedVec.make
empty_bucket = FixedVec.make bucket_capacity empty_entry

-- The constructor.
unfoldable pub make : TscCalibration → ℕ → WheelTimer
make cal start_tsc =
    let tick : ℕ = ns_to_cycles cal tick_ns in
    record {
      tick_tsc = if tick == 0 then default_tick_tsc else tick;
      buckets = replicate num_buckets empty_bucket;
      current_tick = if ltb 0 tick then start_tsc / tick else 0;
      last_poll_tsc = start_tsc;
      stats = empty_stats;
    }

abbrev pub bucket_at : WheelTimer → ℕ → Bucket
bucket_at w idx = get_or w.buckets idx empty_bucket

-- The ticks from now to a deadline, from 0 to the last bucket ahead.
unfoldable pub delta_ticks : WheelTimer → ℕ → ℕ
delta_ticks w deadline_tsc =
    let deadline_tick : ℕ = deadline_tsc / w.tick_tsc in
    let delta : ℕ =
      if ltb w.current_tick deadline_tick then deadline_tick - w.current_tick else 0 in
    if leb num_buckets delta then num_buckets - 1 else delta

unfoldable pub target_bucket : WheelTimer → ℕ → ℕ
unfolding delta_ticks
target_bucket w deadline_tsc =
    bit_and (add64 w.current_tick (delta_ticks w deadline_tsc)) (num_buckets - 1)

-- Put an entry into its bucket.
unfoldable pub place : WheelTimer → Entry → WheelTimer × Bool
unfolding target_bucket
place w e =
    let idx = target_bucket w e.deadline_tsc in
    let (b, done) = try_push_back bucket_capacity (bucket_at w idx) e in
    (record w { buckets = set w.buckets idx b }, done)

unfoldable pub schedule : WheelTimer → ℕ → ℕ → ℕ → WheelTimer × Bool
schedule w key generation deadline_tsc =
    let e : Entry = record { key = key; generation = generation; deadline_tsc = deadline_tsc } in
    let (w', done) = place w e in
    if done
    then (record w' { stats = record (w.stats) { scheduled = inc64 w.stats.scheduled } }, true)
    else (
      record w' {
        stats = record (w.stats) {
          scheduled = inc64 w.stats.scheduled;
          overflow_dropped = inc64 w.stats.overflow_dropped;
        };
      },
      false,
    )

-- `bucket.swap_erase(0)`: the loop over a bucket never moves on from its first entry.
unfoldable pub erase_first : WheelTimer → ℕ → WheelTimer
erase_first w idx = record w {
  buckets = set w.buckets idx (swap_erase (bucket_at w idx) 0 empty_entry);
}

unfoldable pub count_expired : WheelTimer → WheelTimer
count_expired w = record w { stats = record (w.stats) { expired = inc64 w.stats.expired } }

-- The branch for an entry that is not yet due: it leaves the bucket and is scheduled again.
unfoldable pub reschedule_first : WheelTimer → ℕ → Entry → WheelTimer
reschedule_first w idx e =
    let (w', done) = schedule (erase_first w idx) e.key e.generation e.deadline_tsc in
    record w' {
      stats = record (w'.stats) {
        rescheduled = if done then inc64 w'.stats.rescheduled else w'.stats.rescheduled;
        scheduled = sub64 w'.stats.scheduled 1;
      };
    }

unfoldable pub next_tick : WheelTimer → WheelTimer
next_tick w = record w { current_tick = inc64 w.current_tick }

-- A state that holds a wheel, and the callback on it.
pub record Host {ℓ} (S : Type ℓ) : Type ℓ where
  pub wheel : S → WheelTimer
  pub with_wheel : S → WheelTimer → S
  pub on_expired : S → ℕ → ℕ → S

module _ {ℓ} {S : Type ℓ} (host : Host S) (now_tsc : ℕ) where
  open host use {wheel, with_wheel, on_expired}

  -- One round of the loop over a bucket, with `e` its first entry.
  unfoldable pub drain_step : ℕ → S → Entry → S
  drain_step idx s e =
      if leb e.deadline_tsc now_tsc
      then fired (on_expired s e.key e.generation)
      else with_wheel s (reschedule_first (wheel s) idx e)
    where
      fired : S → S
      fired s' = with_wheel s' (erase_first (count_expired (wheel s')) idx)

  -- The loop over a bucket; `none` when the fuel runs out.
  unfoldable pub drain : ℕ → ℕ → S → Option S
  drain zero idx s = none
  drain (suc fuel) idx s =
      let b = bucket_at (wheel s) idx in
      let rest = drain fuel idx (drain_step idx s (at b 0 empty_entry)) in
      if b.size == 0 then some s else rest

  -- The loop over the ticks, with fuel for it and for each bucket.
  unfoldable pub poll_ticks : ℕ → ℕ → S → Option S
  poll_ticks zero fuel s = none
  poll_ticks (suc ticks) fuel s =
      let w = wheel s in
      let drained = drain fuel (bit_and w.current_tick (num_buckets - 1)) s in
      let rest : Option S = elim drained [
        | none ↦ none
        | some s' ↦ poll_ticks ticks fuel (with_wheel s' (next_tick (wheel s')))
      ] in
      if ltb w.current_tick (now_tsc / w.tick_tsc) then rest else some s

  unfoldable pub poll_expired : ℕ → ℕ → S → Option S
  poll_expired ticks fuel s = elim (poll_ticks ticks fuel s) [
    | none ↦ none
    | some s' ↦ some (with_wheel s' (record (wheel s') { last_poll_tsc = now_tsc }))
  ]

unfoldable pub advance : WheelTimer → ℕ → WheelTimer
advance w now_tsc =
    let now_tick : ℕ = now_tsc / w.tick_tsc in
    record w {
      current_tick = if ltb w.current_tick now_tick then now_tick else w.current_tick;
      last_poll_tsc = now_tsc;
    }

unfoldable pub reset : WheelTimer → ℕ → WheelTimer
unfolding clear
reset w start_tsc = record w {
  buckets = map (λ b. clear b) w.buckets;
  current_tick = start_tsc / w.tick_tsc;
  last_poll_tsc = start_tsc;
  stats = empty_stats;
}

sizes : List Bucket → ℕ
sizes [] = 0
sizes (b ∷ bs) = b.size + sizes bs

unfoldable pub total_pending : WheelTimer → ℕ
unfolding sizes
total_pending w = sizes w.buckets
