-- ===== src/Divergence.antt =====
-- src/core/divergence.hpp: the kinds of divergence, the record that is published, and the immediate
-- classification of an order.
pub mod Legacy
use fx_dropcopy_primary_reco.Prelude.{
  ℕ, Bool, true, false, not, ◌&&◌, ◌||◌, if◌then◌else◌, ltb, add64,
}
use fx_dropcopy_primary_reco.Prelude.Int.{ℤ, pos, to_u64}
use fx_dropcopy_primary_reco.Event.{OrdStatus, ◌==ˢ◌}
use fx_dropcopy_primary_reco.Order.{OrderState, safe_abs_diff}

pub data DivergenceType : Type 0 where
  missing_fill phantom_order state_mismatch quantity_mismatch timing_anomaly : DivergenceType
  missing_drop_copy : DivergenceType

pub record Divergence : Type 0 where
  pub key : ℕ
  pub kind : DivergenceType
  pub internal_status : OrdStatus
  pub dropcopy_status : OrdStatus
  pub internal_cum_qty : ℤ
  pub dropcopy_cum_qty : ℤ
  pub internal_avg_px : ℤ
  pub dropcopy_avg_px : ℤ
  pub internal_ts : ℕ
  pub dropcopy_ts : ℕ
  pub detect_tsc : ℕ
  pub mismatch_mask : ℕ

-- `Divergence div{}`
abbrev pub empty_divergence : Divergence
empty_divergence = record {
  key = 0;
  kind = DivergenceType.state_mismatch;
  internal_status = OrdStatus.unknown;
  dropcopy_status = OrdStatus.unknown;
  internal_cum_qty = pos 0;
  dropcopy_cum_qty = pos 0;
  internal_avg_px = pos 0;
  dropcopy_avg_px = pos 0;
  internal_ts = 0;
  dropcopy_ts = 0;
  detect_tsc = 0;
  mismatch_mask = 0;
}

-- The detection time and the mask are not written.
unfoldable pub fill_divergence_snapshot : OrderState → DivergenceType → Divergence → Divergence
fill_divergence_snapshot s kind out = record out {
  key = s.key;
  kind = kind;
  internal_status = s.internal_status;
  dropcopy_status = s.dropcopy_status;
  internal_cum_qty = s.internal_cum_qty;
  dropcopy_cum_qty = s.dropcopy_cum_qty;
  internal_avg_px = s.internal_avg_px;
  dropcopy_avg_px = s.dropcopy_avg_px;
  internal_ts = s.last_internal_ts;
  dropcopy_ts = s.last_dropcopy_ts;
}

-- `dropcopy_is_fill && internal_pre_filled`
unfoldable pub misses_fill : OrderState → Bool
misses_fill s =
    (s.dropcopy_status ==ˢ OrdStatus.filled || s.dropcopy_status ==ˢ OrdStatus.partially_filled)
    && (s.internal_status ==ˢ OrdStatus.new
        || s.internal_status ==ˢ OrdStatus.pending_new
        || s.internal_status ==ˢ OrdStatus.working)

-- What `out` holds afterwards, and whether there is a divergence.
unfoldable pub classify_divergence : OrderState → Divergence → ℤ → ℤ → ℕ → Divergence × Bool
unfolding fill_divergence_snapshot misses_fill
classify_divergence s out qty_tolerance px_tolerance timing_slack =
    if not s.seen_dropcopy
    then (out, false)
    else if not s.seen_internal
    then (fill_divergence_snapshot s DivergenceType.phantom_order out, true)
    else if misses_fill s
    then (fill_divergence_snapshot s DivergenceType.missing_fill out, true)
    else if not (s.dropcopy_status ==ˢ s.internal_status)
    then (fill_divergence_snapshot s DivergenceType.state_mismatch out, true)
    else if ltb (to_u64 qty_tolerance) (safe_abs_diff s.dropcopy_cum_qty s.internal_cum_qty)
        || ltb (to_u64 px_tolerance) (safe_abs_diff s.dropcopy_avg_px s.internal_avg_px)
    then (fill_divergence_snapshot s DivergenceType.quantity_mismatch out, true)
    else if ltb (add64 s.last_dropcopy_ts timing_slack) s.last_internal_ts
    then (fill_divergence_snapshot s DivergenceType.timing_anomaly out, true)
    else (out, false)
