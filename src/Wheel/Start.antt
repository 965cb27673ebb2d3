-- ===== src/Wheel/Start.antt =====
-- The wheel that the constructor of src/util/wheel_timer.hpp builds.
use mathlib.Core.List.{Mem, not-mem-nil}
use fx_dropcopy_primary_reco.Prelude.{
  ℕ, ◌<◌, ◌≡◌, refl, subst, arith, [], get_or-replicate, length-replicate,
}
use fx_dropcopy_primary_reco.Clock.{TscCalibration}
use fx_dropcopy_primary_reco.FixedVec
use fx_dropcopy_primary_reco.FixedVec.Live
use fx_dropcopy_primary_reco.FixedVec.Live.{live}
use fx_dropcopy_primary_reco.Wheel.{make, bucket_at, empty_bucket, empty_entry, bucket_capacity}
use fx_dropcopy_primary_reco.Wheel.Buckets.{entries}
use fx_dropcopy_primary_reco.Wheel.Timely.{Good}

start-bucket : (cal : TscCalibration) (start i : ℕ) → bucket_at (make cal start) i ≡ empty_bucket
unfolding make
start-bucket cal start i = get_or-replicate 256 i empty_bucket

no_entries : live empty_bucket ≡ []
unfolding live empty_bucket FixedVec.make
no_entries = refl

start-entries : (cal : TscCalibration) (start i : ℕ) → entries (make cal start) i ≡ []
start-entries cal start i = rw (start-bucket cal start i) no_entries

start-ticks : (cal : TscCalibration) (start : ℕ) → 0 < (make cal start).tick_tsc
unfolding make
start-ticks cal start = ground arith

-- A new wheel is well formed, whatever the calibration.
pub make-Good : (cal : TscCalibration) (start : ℕ) → Good (make cal start)
make-Good cal start = record {
  valid = record {
    wide = unfold make in length-replicate 256 empty_bucket;
    ticks = start-ticks cal start;
    sound = λ i.
        rw (start-bucket cal start i)
          (unfold empty_bucket in FixedVec.Live.make-IsValid bucket_capacity empty_entry);
  };
  timely = λ d e h m. absurd (not-mem-nil (subst (Mem e) (start-entries cal start _) m));
}
