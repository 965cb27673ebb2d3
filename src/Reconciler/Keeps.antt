-- ===== src/Reconciler/Keeps.antt =====
-- What every step of src/core/reconciler.cpp on one order keeps.
use fx_dropcopy_primary_reco.Prelude.{ℕ, ◌≡◌, refl, ◌∙◌, subst, arith, Bool-cases, inl, inr, Option}
use fx_dropcopy_primary_reco.Event.{Source}
use fx_dropcopy_primary_reco.Clock.{TscCalibration}
use fx_dropcopy_primary_reco.Mask.{ReconState}
use fx_dropcopy_primary_reco.Order.{
  OrderState, has_gap_uncertainty_for, should_emit_divergence, record_divergence_emission,
}
use fx_dropcopy_primary_reco.Sequence.{SequenceTracker, SequenceGapEvent}
use fx_dropcopy_primary_reco.Sequence.Invariant
use fx_dropcopy_primary_reco.Sequence.Invariant.{close_gap-IsValid}
use fx_dropcopy_primary_reco.Gap.{clear_gap_uncertainty, mark_gap_uncertainty}
use fx_dropcopy_primary_reco.Ring.{try_push}
use fx_dropcopy_primary_reco.Ring.Refine
use fx_dropcopy_primary_reco.Ring.Refine.{try_push-IsValid}
use fx_dropcopy_primary_reco.Counters.{ReconCounters}
use fx_dropcopy_primary_reco.Divergence.{Divergence}
use fx_dropcopy_primary_reco.Wheel.{WheelTimer}
use fx_dropcopy_primary_reco.Reconciler.{Reconciler, counted, tracker_of, with_tracker, ring_bits}
use fx_dropcopy_primary_reco.Reconciler.Emit.{
  clear_uncertainty, clear_uncertainties, emit_confirmed_divergence, confirmed,
}
use fx_dropcopy_primary_reco.Reconciler.Grace.{confirm}

-- The trackers and the rings are well formed.
pub record IsValid (r : Reconciler) : Type 0 where
  pub primary_valid : Invariant.IsValid r.primary_seq_tracker
  pub dropcopy_valid : Invariant.IsValid r.dropcopy_seq_tracker
  pub divergences_valid : Refine.IsValid ring_bits r.divergence_ring
  pub gaps_valid : Refine.IsValid ring_bits r.seq_gap_ring

-- An order of the key `key`, and a reconciler with the store, the settings and the three counts of
-- events that it had, which is well formed if it was.
pub record Keeps (key : ℕ) (r : Reconciler) (p : Reconciler × OrderState) : Type 0 where
  pub same_key : p.1.key ≡ key
  pub same_store : p.0.store ≡ r.store
  pub same_config : p.0.config ≡ r.config
  pub same_internal : p.0.counters.internal_events ≡ r.counters.internal_events
  pub same_dropcopy : p.0.counters.dropcopy_events ≡ r.counters.dropcopy_events
  pub same_overflow : p.0.counters.store_overflow ≡ r.counters.store_overflow
  pub keeps_valid : IsValid r → IsValid p.0

pub same-Keeps : (r : Reconciler) (os : OrderState) → Keeps os.key r (r, os)
same-Keeps r os = record {
  same_key = refl;
  same_store = refl;
  same_config = refl;
  same_internal = refl;
  same_dropcopy = refl;
  same_overflow = refl;
  keeps_valid = λ v. v;
}

pub both-Keeps :
    {key : ℕ} {r : Reconciler} {p q : Reconciler × OrderState}
    → Keeps key r p
    → Keeps p.1.key p.0 q
    → Keeps key r q
both-Keeps a b = record {
  same_key = b.same_key ∙ a.same_key;
  same_store = b.same_store ∙ a.same_store;
  same_config = b.same_config ∙ a.same_config;
  same_internal = b.same_internal ∙ a.same_internal;
  same_dropcopy = b.same_dropcopy ∙ a.same_dropcopy;
  same_overflow = b.same_overflow ∙ a.same_overflow;
  keeps_valid = λ v. b.keeps_valid (a.keeps_valid v);
}

clear-IsValid :
    (os : OrderState) (source : Source) (t : SequenceTracker)
    → Invariant.IsValid t
    → Invariant.IsValid (clear_gap_uncertainty os source t).1
unfolding clear_gap_uncertainty
clear-IsValid os source t v = ground arith

pub mark-IsValid :
    (os : OrderState) (source : Source) (t : SequenceTracker)
    → Invariant.IsValid t
    → Invariant.IsValid (mark_gap_uncertainty os source t).1
unfolding mark_gap_uncertainty
mark-IsValid os source t v = ground arith

clear-key :
    (os : OrderState) (source : Source) (t : SequenceTracker)
    → (clear_gap_uncertainty os source t).0.key ≡ os.key
unfolding clear_gap_uncertainty
clear-key os source t = ground arith

pub with_tracker-Keeps :
    (r : Reconciler) (os : OrderState) (source : Source) (t : SequenceTracker)
    → (Invariant.IsValid (tracker_of r source) → Invariant.IsValid t)
    → Keeps os.key r (with_tracker r source t, os)
with_tracker-Keeps r os Source.primary t h = record {
  same_key = refl;
  same_store = refl;
  same_config = refl;
  same_internal = refl;
  same_dropcopy = refl;
  same_overflow = refl;
  keeps_valid = λ v. record {
    primary_valid = h v.primary_valid;
    dropcopy_valid = v.dropcopy_valid;
    divergences_valid = v.divergences_valid;
    gaps_valid = v.gaps_valid;
  };
}
with_tracker-Keeps r os Source.drop_copy t h = record {
  same_key = refl;
  same_store = refl;
  same_config = refl;
  same_internal = refl;
  same_dropcopy = refl;
  same_overflow = refl;
  keeps_valid = λ v. record {
    primary_valid = v.primary_valid;
    dropcopy_valid = h v.dropcopy_valid;
    divergences_valid = v.divergences_valid;
    gaps_valid = v.gaps_valid;
  };
}

-- Other counters than the three.
pub counted-Keeps :
    (r : Reconciler) (os : OrderState) (c : ReconCounters)
    → c.internal_events ≡ r.counters.internal_events
    → c.dropcopy_events ≡ r.counters.dropcopy_events
    → c.store_overflow ≡ r.counters.store_overflow
    → Keeps os.key r (counted r c, os)
counted-Keeps r os c i d o = record {
  same_key = refl;
  same_store = refl;
  same_config = refl;
  same_internal = i;
  same_dropcopy = d;
  same_overflow = o;
  keeps_valid = λ v. record {
    primary_valid = v.primary_valid;
    dropcopy_valid = v.dropcopy_valid;
    divergences_valid = v.divergences_valid;
    gaps_valid = v.gaps_valid;
  };
}

pub published-Keeps :
    (r : Reconciler) (os : OrderState) (d : Divergence)
    → Keeps os.key r (record r { divergence_ring = (try_push ring_bits r.divergence_ring d).0 }, os)
published-Keeps r os d = record {
  same_key = refl;
  same_store = refl;
  same_config = refl;
  same_internal = refl;
  same_dropcopy = refl;
  same_overflow = refl;
  keeps_valid = λ v. record {
    primary_valid = v.primary_valid;
    dropcopy_valid = v.dropcopy_valid;
    divergences_valid = try_push-IsValid ring_bits r.divergence_ring d v.divergences_valid;
    gaps_valid = v.gaps_valid;
  };
}

pub reported-Keeps :
    (r : Reconciler) (os : OrderState) (e : SequenceGapEvent)
    → Keeps os.key r (record r { seq_gap_ring = (try_push ring_bits r.seq_gap_ring e).0 }, os)
reported-Keeps r os e = record {
  same_key = refl;
  same_store = refl;
  same_config = refl;
  same_internal = refl;
  same_dropcopy = refl;
  same_overflow = refl;
  keeps_valid = λ v. record {
    primary_valid = v.primary_valid;
    dropcopy_valid = v.dropcopy_valid;
    divergences_valid = v.divergences_valid;
    gaps_valid = try_push-IsValid ring_bits r.seq_gap_ring e v.gaps_valid;
  };
}

pub wheel-Keeps :
    (r : Reconciler) (os : OrderState) (w : Option WheelTimer)
    → Keeps os.key r (record r { timer_wheel = w }, os)
wheel-Keeps r os w = record {
  same_key = refl;
  same_store = refl;
  same_config = refl;
  same_internal = refl;
  same_dropcopy = refl;
  same_overflow = refl;
  keeps_valid = λ v. record {
    primary_valid = v.primary_valid;
    dropcopy_valid = v.dropcopy_valid;
    divergences_valid = v.divergences_valid;
    gaps_valid = v.gaps_valid;
  };
}

clear_uncertainty-Keeps :
    (r : Reconciler) (os : OrderState) (source : Source)
    → Keeps os.key r (clear_uncertainty r os source)
unfolding clear_uncertainty
clear_uncertainty-Keeps r os source = elim (Bool-cases (has_gap_uncertainty_for os source)) [
  | inl e ↦
      let (os', t, _) = clear_gap_uncertainty os source (tracker_of r source) in
      rw e (
        subst (λ k. Keeps k r (with_tracker r source t, os'))
          (clear-key os source (tracker_of r source))
          (with_tracker-Keeps r os' source t (clear-IsValid os source (tracker_of r source))))
  | inr e ↦ rw e (same-Keeps r os)
]

pub clear_uncertainties-Keeps :
    (r : Reconciler) (os : OrderState) → Keeps os.key r (clear_uncertainties r os)
unfolding clear_uncertainties
clear_uncertainties-Keeps r os =
    let p = clear_uncertainty r os Source.primary in
    both-Keeps (clear_uncertainty-Keeps r os Source.primary)
      (clear_uncertainty-Keeps p.0 p.1 Source.drop_copy)

emit-Keeps :
    (cal : TscCalibration) (r : Reconciler) (os : OrderState) (m now : ℕ)
    → Keeps os.key r (emit_confirmed_divergence cal r os m now)
unfolding emit_confirmed_divergence record_divergence_emission
emit-Keeps cal r os m now =
    let w = r.config.divergence_dedup_window_ns in
    elim (Bool-cases (should_emit_divergence cal os m now w)) [
      | inr e ↦ rw e (counted-Keeps r os _ refl refl refl)
      | inl e ↦ elim (Bool-cases (try_push ring_bits r.divergence_ring (confirmed os m now)).1) [
        | inr f ↦ rw (e, f) (counted-Keeps r os _ refl refl refl)
        | inl f ↦
            let os' = record_divergence_emission os m now in
            let published = published-Keeps r os' (confirmed os m now) in
            let r' : Reconciler = record r {
              divergence_ring = (try_push ring_bits r.divergence_ring (confirmed os m now)).0;
            } in
            rw (e, f) (both-Keeps published (clear_uncertainties-Keeps r' os'))
      ]
    ]

pub confirm-Keeps :
    (cal : TscCalibration) (r : Reconciler) (os : OrderState) (m now : ℕ)
    → Keeps os.key r (confirm cal r os m now)
unfolding confirm
confirm-Keeps cal r os m now =
    let os' : OrderState = record os { recon_state = ReconState.diverged_confirmed } in
    let p = emit_confirmed_divergence cal r os' m now in
    both-Keeps (emit-Keeps cal r os' m now) (counted-Keeps p.0 p.1 _ refl refl refl)
