-- ===== src/Reconciler/Sound.antt =====
-- The invariant of the reconciler of src/core/reconciler.cpp.
use fx_dropcopy_primary_reco.Prelude.{either, ℕ, ◌≡◌, refl, Option, none, some, not, ◌&&◌, add64}
use fx_dropcopy_primary_reco.Clock.{TscCalibration, ns_to_cycles}
use fx_dropcopy_primary_reco.Mask.{ReconState, is_none, ◌==ʳ◌}
use fx_dropcopy_primary_reco.Order.{OrderState, compute_mismatch}
use fx_dropcopy_primary_reco.Timer.{refresh_recon_deadline, schedule_recon_deadline, is_timer_valid}
use fx_dropcopy_primary_reco.Wheel.{WheelTimer}
use fx_dropcopy_primary_reco.Store.{find, deref}
use fx_dropcopy_primary_reco.Store.View
use fx_dropcopy_primary_reco.Store.Upsert
use fx_dropcopy_primary_reco.Reconciler.{Reconciler}
use fx_dropcopy_primary_reco.Reconciler.Gaps.{is_gap_suppressed}
use fx_dropcopy_primary_reco.Reconciler.Deadline.{
  reschedule, recheck_later, expire, gap_suppressed, stale, expire_at, expire_found,
  on_grace_deadline_expired, store_back,
}
use fx_dropcopy_primary_reco.Reconciler.Keeps.{
  IsValid, Keeps, both-Keeps, counted-Keeps, confirm-Keeps,
}
use fx_dropcopy_primary_reco.Reconciler.Branches.{scheduled-Keeps, is_gap_suppressed-Keeps}

reschedule-Keeps :
    (cal : TscCalibration) (r : Reconciler) (os : OrderState) (m : ℕ) (w : Option WheelTimer)
    → Keeps os.key r (reschedule cal r os m w)
unfolding reschedule refresh_recon_deadline schedule_recon_deadline
reschedule-Keeps cal r os m none = counted-Keeps r os _ refl refl refl
reschedule-Keeps cal r os m (some w) =
    let (w', os', done) =
      refresh_recon_deadline w os
        (add64 r.last_poll_tsc (ns_to_cycles cal r.config.gap_recheck_period_ns)) in
    scheduled-Keeps cal r os' m r.last_poll_tsc w' done gap_suppressed
      (λ r'. counted-Keeps r' os' _ refl refl refl)

pub expire-Keeps :
    (cal : TscCalibration) (r : Reconciler) (os : OrderState) (generation : ℕ)
    → Keeps os.key r (expire cal r os generation)
unfolding expire recheck_later
expire-Keeps cal r os generation =
    let P = Keeps os.key r in
    let m = compute_mismatch os r.config.qty_tolerance r.config.px_tolerance in
    let (r', suppressed) = is_gap_suppressed cal r os in
    let kept = is_gap_suppressed-Keeps cal r os in
    let skipped : P (stale r, os) = counted-Keeps r os _ refl refl refl in
    let os₁ : OrderState = record os { recon_state = ReconState.suppressed_by_gap } in
    let os₂ : OrderState = record os { recon_state = ReconState.matched } in
    either P (not (is_timer_valid os generation)) skipped (
      either P
        (not (os.recon_state ==ʳ ReconState.in_grace)
          && not (os.recon_state ==ʳ ReconState.suppressed_by_gap))
        skipped
        (either P (is_none m) (counted-Keeps r os₂ _ refl refl refl) (
          either P suppressed (both-Keeps kept (reschedule-Keeps cal r' os₁ m r'.timer_wheel))
            (both-Keeps kept (confirm-Keeps cal r' os m r'.last_poll_tsc)))))

-- A well-formed store of 2 ^ k buckets, with well-formed trackers and rings.
pub record IsSound (k : ℕ) (r : Reconciler) : Type 0 where
  pub store_valid : View.IsValid k r.store
  pub parts_valid : IsValid r

-- A step on an order, written back to the bucket that it came from.
pub store_back-IsSound :
    (k i : ℕ) (r : Reconciler) (os : OrderState) (p : Reconciler × OrderState)
    → IsSound k r
    → deref r.store i ≡ some os
    → p.1.key ≡ os.key
    → p.0.store ≡ r.store
    → (IsValid r → IsValid p.0)
    → IsSound k (store_back i p)
store_back-IsSound k i r os p v d same_key same_store h =
    let w = h v.parts_valid in
    record {
      store_valid =
          Upsert.write-IsValid k p.0.store i os p.1 (rw same_store v.store_valid) (rw same_store d)
            same_key;
      parts_valid = record {
        primary_valid = w.primary_valid;
        dropcopy_valid = w.dropcopy_valid;
        divergences_valid = w.divergences_valid;
        gaps_valid = w.gaps_valid;
      };
    }

expire_at-IsSound :
    (cal : TscCalibration) (k : ℕ) (r : Reconciler) (generation i : ℕ) (o : Option OrderState)
    → IsSound k r
    → deref r.store i ≡ o
    → IsSound k (expire_at cal r generation i o)
unfolding expire_at
expire_at-IsSound cal k r generation i none v d = v
expire_at-IsSound cal k r generation i (some os) v d =
    let kept = expire-Keeps cal r os generation in
    store_back-IsSound k i r os (expire cal r os generation) v d kept.same_key kept.same_store
      kept.keeps_valid

expire_found-IsSound :
    (cal : TscCalibration) (k : ℕ) (r : Reconciler) (generation : ℕ) (i : Option ℕ)
    → IsSound k r
    → IsSound k (expire_found cal r generation i)
unfolding expire_found
expire_found-IsSound cal k r generation none v = v
expire_found-IsSound cal k r generation (some i) v =
    expire_at-IsSound cal k r generation i (deref r.store i) v refl

-- The callback of any deadline, valid or stale, keeps the reconciler sound.
pub on_grace_deadline_expired-IsSound :
    (cal : TscCalibration) (k : ℕ) (r : Reconciler) (key generation : ℕ)
    → IsSound k r
    → IsSound k (on_grace_deadline_expired cal r key generation)
unfolding on_grace_deadline_expired
on_grace_deadline_expired-IsSound cal k r key generation v =
    expire_found-IsSound cal k r generation (find r.store key) v
