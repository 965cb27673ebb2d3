-- ===== src/Reconciler/Calm.antt =====
-- The steps of src/core/reconciler.cpp on one order that leave the timer wheel alone.
use fx_dropcopy_primary_reco.Prelude.{either, ℕ, ◌≡◌, refl, ◌∙◌, Bool, not}
use fx_dropcopy_primary_reco.Event.{Source}
use fx_dropcopy_primary_reco.Clock.{TscCalibration, ns_to_cycles}
use fx_dropcopy_primary_reco.Mask.{ReconState}
use fx_dropcopy_primary_reco.Order.{
  OrderState, should_emit_divergence, record_divergence_emission, has_gap_uncertainty_for,
}
use fx_dropcopy_primary_reco.Ring.{try_push}
use fx_dropcopy_primary_reco.Gap.{is_suppressed_by_gap}
use fx_dropcopy_primary_reco.Sequence.{SequenceTracker, close_gap}
use fx_dropcopy_primary_reco.Reconciler.{Reconciler, tracker_of, with_tracker, ring_bits}
use fx_dropcopy_primary_reco.Reconciler.Gaps.{is_gap_suppressed, close_timed_out, gap_timed_out}
use fx_dropcopy_primary_reco.Reconciler.Emit.{
  confirmed, emit_confirmed_divergence, clear_uncertainties, clear_uncertainty,
}
use fx_dropcopy_primary_reco.Reconciler.Grace.{confirm}

-- The clock of the last poll and the wheel are as they were.
pub record Calm (r r' : Reconciler) : Type 0 where
  pub same_poll : r'.last_poll_tsc ≡ r.last_poll_tsc
  pub same_wheel : r'.timer_wheel ≡ r.timer_wheel

pub same-Calm : (r : Reconciler) → Calm r r
same-Calm r = record { same_poll = refl; same_wheel = refl }

pub both-Calm : {r r₁ r₂ : Reconciler} → Calm r r₁ → Calm r₁ r₂ → Calm r r₂
both-Calm a b = record {
  same_poll = b.same_poll ∙ a.same_poll;
  same_wheel = b.same_wheel ∙ a.same_wheel;
}

pub with_tracker-Calm :
    (r : Reconciler) (source : Source) (t : SequenceTracker) → Calm r (with_tracker r source t)
with_tracker-Calm r Source.primary t = record { same_poll = refl; same_wheel = refl }
with_tracker-Calm r Source.drop_copy t = record { same_poll = refl; same_wheel = refl }

pub clear_uncertainty-Calm :
    (r : Reconciler) (os : OrderState) (source : Source) → Calm r (clear_uncertainty r os source).0
unfolding clear_uncertainty
clear_uncertainty-Calm r os source =
    either (λ (p : Reconciler × OrderState). Calm r p.0) (has_gap_uncertainty_for os source)
      (with_tracker-Calm r source _) (same-Calm r)

-- Nothing but other members was changed.
abbrev pub calm_at :
    (r r' : Reconciler)
    → r'.last_poll_tsc ≡ r.last_poll_tsc
    → r'.timer_wheel ≡ r.timer_wheel
    → Calm r r'
calm_at r r' p w = record { same_poll = p; same_wheel = w }

pub clear_uncertainties-Calm :
    (r : Reconciler) (os : OrderState) → Calm r (clear_uncertainties r os).0
unfolding clear_uncertainties
clear_uncertainties-Calm r os =
    let p = clear_uncertainty r os Source.primary in
    both-Calm (clear_uncertainty-Calm r os Source.primary)
      (clear_uncertainty-Calm p.0 p.1 Source.drop_copy)

pub emit-Calm :
    (cal : TscCalibration) (r : Reconciler) (os : OrderState) (m now : ℕ)
    → Calm r (emit_confirmed_divergence cal r os m now).0
unfolding emit_confirmed_divergence
emit-Calm cal r os m now =
    let P : Reconciler × OrderState → Type 0 = λ p. Calm r p.0 in
    let push = try_push ring_bits r.divergence_ring (confirmed os m now) in
    let window = r.config.divergence_dedup_window_ns in
    let published : Reconciler = record r { divergence_ring = push.0 } in
    either P (not (should_emit_divergence cal os m now window)) (calm_at r _ refl refl) (
      either P (not push.1) (calm_at r _ refl refl) (
        both-Calm (calm_at r published refl refl)
          (clear_uncertainties-Calm published (record_divergence_emission os m now))))

pub confirm-Calm :
    (cal : TscCalibration) (r : Reconciler) (os : OrderState) (m now : ℕ)
    → Calm r (confirm cal r os m now).0
unfolding confirm
confirm-Calm cal r os m now =
    let os' : OrderState = record os { recon_state = ReconState.diverged_confirmed } in
    both-Calm (emit-Calm cal r os' m now) (calm_at _ _ refl refl)

pub close_timed_out-Calm :
    (r : Reconciler) (source : Source) (timeout : ℕ) → Calm r (close_timed_out r source timeout)
unfolding close_timed_out
close_timed_out-Calm r source timeout =
    let t = tracker_of r source in
    either (Calm r) (gap_timed_out t r.last_poll_tsc timeout)
      (both-Calm (with_tracker-Calm r source (close_gap t).0) (calm_at _ _ refl refl)) (same-Calm r)

pub is_gap_suppressed-Calm :
    (cal : TscCalibration) (r : Reconciler) (os : OrderState)
    → Calm r (is_gap_suppressed cal r os).0
unfolding is_gap_suppressed
is_gap_suppressed-Calm cal r os =
    let P : Reconciler × Bool → Type 0 = λ p. Calm r p.0 in
    let timeout = ns_to_cycles cal r.config.gap_close_timeout_ns in
    let r₁ = close_timed_out r Source.primary timeout in
    either P (not r.config.enable_gap_suppression) (same-Calm r) (
      either P (is_suppressed_by_gap os Source.primary r.primary_seq_tracker) (same-Calm r) (
        either P (is_suppressed_by_gap os Source.drop_copy r.dropcopy_seq_tracker) (same-Calm r) (
          both-Calm (close_timed_out-Calm r Source.primary timeout)
            (close_timed_out-Calm r₁ Source.drop_copy timeout))))
