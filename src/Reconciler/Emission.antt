-- ===== src/Reconciler/Emission.antt =====
-- What the publication of a confirmed divergence in src/core/reconciler.cpp puts on the ring.
use fx_dropcopy_primary_reco.Prelude.{
  ℕ, ◌+◌, ◌-◌, ◌<◌, ◌≤◌, ◌^◌, ◌≡◌, ◌≢◌, refl, ap, ◌∙◌, Bool, true, false, not, ◌&&◌, arith,
  Bool-cases, inl, inr, if◌then◌else◌, ltb, inc64, List, [], ◌∷◌, ◌++◌, length,
}
use fx_dropcopy_primary_reco.Event.{Source}
use fx_dropcopy_primary_reco.Clock.{TscCalibration, ns_to_cycles}
use fx_dropcopy_primary_reco.Order.{OrderState, should_emit_divergence, record_divergence_emission}
use fx_dropcopy_primary_reco.Gap.{clear_gap_uncertainty}
use fx_dropcopy_primary_reco.Ring.{try_push}
use fx_dropcopy_primary_reco.Ring.Refine
use fx_dropcopy_primary_reco.Ring.Refine.{enqueue, contents, try_push_refines}
use fx_dropcopy_primary_reco.Divergence.{Divergence, empty_divergence}
use fx_dropcopy_primary_reco.Reconciler.{Reconciler, counted, ring_bits}
use fx_dropcopy_primary_reco.Reconciler.Emit.{
  clear_uncertainty, clear_uncertainties, confirmed, emit_confirmed_divergence,
}

-- What the two clearings leave alone.
pub record Published (r : Reconciler) (os : OrderState) (p : Reconciler × OrderState) : Type 0 where
  pub same_ring : p.0.divergence_ring ≡ r.divergence_ring
  pub same_counters : p.0.counters ≡ r.counters
  pub same_config : p.0.config ≡ r.config
  pub same_time : p.1.last_divergence_emit_tsc ≡ os.last_divergence_emit_tsc
  pub same_mask : p.1.last_emitted_mismatch ≡ os.last_emitted_mismatch
  pub same_state : p.1.recon_state ≡ os.recon_state

clear_uncertainty-Published :
    (r : Reconciler) (os : OrderState) (source : Source)
    → Published r os (clear_uncertainty r os source)
unfolding clear_uncertainty clear_gap_uncertainty
clear_uncertainty-Published r os Source.primary = ground arith
clear_uncertainty-Published r os Source.drop_copy = ground arith

pub clear_uncertainties-Published :
    (r : Reconciler) (os : OrderState) → Published r os (clear_uncertainties r os)
unfolding clear_uncertainties
clear_uncertainties-Published r os =
    let p = clear_uncertainty r os Source.primary in
    let a = clear_uncertainty-Published r os Source.primary in
    let b = clear_uncertainty-Published p.0 p.1 Source.drop_copy in
    record {
      same_ring = b.same_ring ∙ a.same_ring;
      same_counters = b.same_counters ∙ a.same_counters;
      same_config = b.same_config ∙ a.same_config;
      same_time = b.same_time ∙ a.same_time;
      same_mask = b.same_mask ∙ a.same_mask;
      same_state = b.same_state ∙ a.same_state;
    }

-- The divergences on the ring, oldest first.
abbrev pub queue : Reconciler → List Divergence
queue r = contents ring_bits empty_divergence r.divergence_ring

-- The outcome of an emission, in terms of the queue and of the test for a repetition.
pub record Emitted (r : Reconciler) (os : OrderState) (d : Divergence) (now : ℕ)
    (wanted room : Bool) (p : Reconciler × OrderState) : Type 0 where
  pub on_ring : queue p.0 ≡ (if wanted && room then queue r ++ d ∷ [] else queue r)
  pub deduped :
      p.0.counters.divergence_deduped
      ≡ (if wanted then r.counters.divergence_deduped else inc64 r.counters.divergence_deduped)
  pub dropped : p.0.counters.divergence_ring_drops ≡ (
      if wanted && not room
      then inc64 r.counters.divergence_ring_drops
      else r.counters.divergence_ring_drops)
  pub recorded :
      p.1.last_divergence_emit_tsc ≡ (if wanted && room then now else os.last_divergence_emit_tsc)
  pub recorded_mask :
      p.1.last_emitted_mismatch
      ≡ (if wanted && room then d.mismatch_mask else os.last_emitted_mismatch)
  pub same_state : p.1.recon_state ≡ os.recon_state
  pub same_config : p.0.config ≡ r.config

-- A push on the ring of divergences, by whether there is room.
module _ (r : Reconciler) (d : Divergence) (v : Refine.IsValid ring_bits r.divergence_ring) where
  pushed_room :
      ltb (length (queue r)) (2 ^ ring_bits - 1) ≡ true
      → let (ring, pushed) = try_push ring_bits r.divergence_ring d in
        (contents ring_bits empty_divergence ring ≡ queue r ++ d ∷ []) × (pushed ≡ true)
  unfolding enqueue
  pushed_room f =
      let e = try_push_refines ring_bits empty_divergence r.divergence_ring d v in
      (ap (λ u. u.0) e ∙ rw f, ap (λ u. u.1) e ∙ rw f)

  pushed_full :
      ltb (length (queue r)) (2 ^ ring_bits - 1) ≡ false
      → (try_push ring_bits r.divergence_ring d).1 ≡ false
  unfolding enqueue
  pushed_full f =
      let e = try_push_refines ring_bits empty_divergence r.divergence_ring d v in
      ap (λ u. u.1) e ∙ rw f

-- A confirmed divergence is put at the end of the queue when it is no repetition and the ring has
-- room, and the order remembers its time and mask; a repetition and a full ring are counted, and
-- leave the queue and the order's memory as they were.
pub emit-Emitted :
    (cal : TscCalibration) (r : Reconciler) (os : OrderState) (m now : ℕ)
    → Refine.IsValid ring_bits r.divergence_ring
    → Emitted r os
        (confirmed os m now)
        now
        (should_emit_divergence cal os m now r.config.divergence_dedup_window_ns)
        (ltb (length (queue r)) (2 ^ ring_bits - 1))
        (emit_confirmed_divergence cal r os m now)
unfolding emit_confirmed_divergence record_divergence_emission confirmed enqueue
emit-Emitted cal r os m now v =
    let os' = record_divergence_emission os m now in
    let d = confirmed os m now in
    let ring = (try_push ring_bits r.divergence_ring d).0 in
    let done = clear_uncertainties-Published (record r { divergence_ring = ring }) os' in
    elim (Bool-cases (should_emit_divergence cal os m now r.config.divergence_dedup_window_ns)) [
      | inr e ↦ rw e (record {
        on_ring = refl;
        deduped = refl;
        dropped = refl;
        recorded = refl;
        recorded_mask = refl;
        same_state = refl;
        same_config = refl;
      })
      | inl e ↦ elim (Bool-cases (ltb (length (queue r)) (2 ^ ring_bits - 1))) [
        | inr f ↦
            rw (e, f, pushed_full r d v f)
              (record {
                on_ring = refl;
                deduped = refl;
                dropped = refl;
                recorded = refl;
                recorded_mask = refl;
                same_state = refl;
                same_config = refl;
              })
        | inl f ↦
            let (q, pushed) = pushed_room r d v f in
            rw (e, f, pushed)
              (record {
                on_ring = ap (contents ring_bits empty_divergence) done.same_ring ∙ q;
                deduped = ap (λ c. c.divergence_deduped) done.same_counters;
                dropped = ap (λ c. c.divergence_ring_drops) done.same_counters;
                recorded = done.same_time;
                recorded_mask = done.same_mask;
                same_state = done.same_state;
                same_config = done.same_config;
              })
      ]
    ]

held_back :
    (cal : TscCalibration) (os : OrderState) (m t later window : ℕ)
    → os.last_divergence_emit_tsc ≡ t
    → os.last_emitted_mismatch ≡ m
    → t ≢ 0
    → t ≤ later
    → later < t + ns_to_cycles cal window
    → should_emit_divergence cal os m later window ≡ false
unfolding should_emit_divergence
held_back cal os m t later window e e' h before within = ground arith

-- Within the window after a publication the same mask is not published again: the second emission
-- changes nothing but the count of the repetitions.
pub emit_repeat :
    (cal : TscCalibration) (r : Reconciler) (os : OrderState) (m now later : ℕ)
    → Refine.IsValid ring_bits r.divergence_ring
    → should_emit_divergence cal os m now r.config.divergence_dedup_window_ns ≡ true
    → length (queue r) < 2 ^ ring_bits - 1
    → now ≢ 0
    → now ≤ later
    → later < now + ns_to_cycles cal r.config.divergence_dedup_window_ns
    → let p = emit_confirmed_divergence cal r os m now in
      emit_confirmed_divergence cal p.0 p.1 m later ≡ (
        counted p.0
            (record (p.0.counters) { divergence_deduped = inc64 p.0.counters.divergence_deduped }),
        p.1,
      )
unfolding emit_confirmed_divergence confirmed
emit_repeat cal r os m now later v wanted room h before within =
    let p = emit_confirmed_divergence cal r os m now in
    let e = emit-Emitted cal r os m now v in
    let t : p.1.last_divergence_emit_tsc ≡ now = ground (arith, e.recorded) in
    let k : p.1.last_emitted_mismatch ≡ m = ground (arith, e.recorded_mask) in
    let repeated =
      held_back cal p.1 m now later p.0.config.divergence_dedup_window_ns t k h before
        (rw e.same_config within) in
    rw repeated refl
