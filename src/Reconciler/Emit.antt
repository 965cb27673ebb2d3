-- ===== src/Reconciler/Emit.antt =====
-- src/core/reconciler.cpp: the publication of a confirmed divergence.
use fx_dropcopy_primary_reco.Prelude.{ℕ, not, if◌then◌else◌, inc64}
use fx_dropcopy_primary_reco.Event.{Source}
use fx_dropcopy_primary_reco.Clock.{TscCalibration}
use fx_dropcopy_primary_reco.Mask.{MismatchMask}
use fx_dropcopy_primary_reco.Order.{
  OrderState, should_emit_divergence, record_divergence_emission, has_gap_uncertainty_for,
}
use fx_dropcopy_primary_reco.Gap.{clear_gap_uncertainty}
use fx_dropcopy_primary_reco.Ring.{try_push}
use fx_dropcopy_primary_reco.Divergence.{Divergence}
use fx_dropcopy_primary_reco.Reconciler.{
  Reconciler, counted, tracker_of, with_tracker, classify_divergence_type, ring_bits,
}

-- `if (has_gap_uncertainty_for(os, source)) clear_gap_uncertainty(os, source, tracker)`
unfoldable pub clear_uncertainty : Reconciler → OrderState → Source → Reconciler × OrderState
clear_uncertainty r os source =
    let (os', t, _) = clear_gap_uncertainty os source (tracker_of r source) in
    if has_gap_uncertainty_for os source then (with_tracker r source t, os') else (r, os)

unfoldable pub clear_uncertainties : Reconciler → OrderState → Reconciler × OrderState
unfolding clear_uncertainty
clear_uncertainties r os =
    let (r', os') = clear_uncertainty r os Source.primary in
    clear_uncertainty r' os' Source.drop_copy

unfoldable pub confirmed : OrderState → MismatchMask → ℕ → Divergence
unfolding classify_divergence_type
confirmed os mismatch now_tsc = record {
  key = os.key;
  kind = classify_divergence_type os mismatch;
  internal_status = os.internal_status;
  dropcopy_status = os.dropcopy_status;
  internal_cum_qty = os.internal_cum_qty;
  dropcopy_cum_qty = os.dropcopy_cum_qty;
  internal_avg_px = os.internal_avg_px;
  dropcopy_avg_px = os.dropcopy_avg_px;
  internal_ts = os.last_internal_ts;
  dropcopy_ts = os.last_dropcopy_ts;
  detect_tsc = now_tsc;
  mismatch_mask = mismatch;
}

unfoldable pub emit_confirmed_divergence :
    TscCalibration → Reconciler → OrderState → MismatchMask → ℕ → Reconciler × OrderState
unfolding clear_uncertainties confirmed
emit_confirmed_divergence cal r os mismatch now_tsc =
    let (ring, pushed) = try_push ring_bits r.divergence_ring (confirmed os mismatch now_tsc) in
    if not (should_emit_divergence cal os mismatch now_tsc r.config.divergence_dedup_window_ns)
    then (
      counted r (record (r.counters) { divergence_deduped = inc64 r.counters.divergence_deduped }),
      os,
    )
    else if not pushed
    then (
      counted r
          (record (r.counters) { divergence_ring_drops = inc64 r.counters.divergence_ring_drops }),
      os,
    )
    else clear_uncertainties (record r { divergence_ring = ring })
        (record_divergence_emission os mismatch now_tsc)
