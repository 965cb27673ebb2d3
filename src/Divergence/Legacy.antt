-- ===== src/Divergence/Legacy.antt =====
-- The immediate classification of src/core/divergence.hpp against the mask of
-- src/core/order_state.hpp, which the windowed pipeline uses.
use fx_dropcopy_primary_reco.Prelude.{
  ℕ, ◌≡◌, true, false, not, ◌||◌, if◌then◌else◌, arith, ltb, add64,
}
use fx_dropcopy_primary_reco.Prelude.Int.{ℤ, pos, negsuc, to_u64}
use fx_dropcopy_primary_reco.Event.{◌==ˢ◌}
use fx_dropcopy_primary_reco.Mask
use fx_dropcopy_primary_reco.Mask.{has}
use fx_dropcopy_primary_reco.Order.Mismatch.{step_mask-Flags}
use fx_dropcopy_primary_reco.Order.{
  OrderState, safe_abs_diff, compute_mismatch, mismatch_by, exec_ids_differ,
}
use fx_dropcopy_primary_reco.Divergence.{
  DivergenceType, Divergence, classify_divergence, misses_fill, fill_divergence_snapshot,
}

safe_abs_diff_comm : (a b : ℤ) → safe_abs_diff a b ≡ safe_abs_diff b a
unfolding safe_abs_diff
safe_abs_diff_comm (pos m) (pos n) = ground arith
safe_abs_diff_comm (pos m) (negsuc n) = ground arith
safe_abs_diff_comm (negsuc m) (pos n) = ground arith
safe_abs_diff_comm (negsuc m) (negsuc n) = ground arith

-- A drop copy that is filled against an order not yet filled has another status.
misses_fill-differs :
    (s : OrderState) → misses_fill s ≡ true → (s.internal_status ==ˢ s.dropcopy_status) ≡ false
unfolding misses_fill
misses_fill-differs s h = ground arith

-- For an order that both feeds have shown, the two pipelines agree but in two respects: the
-- classification ignores execution ids, and it has a test on the timestamps. When it reports nothing,
-- the mask is empty or flags the execution id alone.
pub classify_silent :
    (s : OrderState) (out : Divergence) (q p : ℤ) (slack : ℕ)
    → s.seen_internal ≡ true
    → s.seen_dropcopy ≡ true
    → (classify_divergence s out q p slack).1 ≡ false
    → compute_mismatch s q p ≡ (if exec_ids_differ s then Mask.exec_id_bit else Mask.empty)
unfolding classify_divergence compute_mismatch mismatch_by
classify_silent s out q p slack i d h = ground (
  arith,
  safe_abs_diff_comm s.internal_cum_qty s.dropcopy_cum_qty,
  safe_abs_diff_comm s.internal_avg_px s.dropcopy_avg_px,
)

-- For an order that both feeds have shown, the classification reports a divergence just when the mask
-- flags the status, the quantity or the price, or the internal timestamp is later than the drop copy's by
-- more than the slack. It looks at the execution ids as little as the mask looks at the timestamps.
pub classify-eq-mask :
    (s : OrderState) (out : Divergence) (q p : ℤ) (slack : ℕ)
    → s.seen_internal ≡ true
    → s.seen_dropcopy ≡ true
    → let m = compute_mismatch s q p in
      (classify_divergence s out q p slack).1 ≡ (
        has m Mask.status_bit
        || has m Mask.cum_qty_bit
        || has m Mask.avg_px_bit
        || ltb (add64 s.last_dropcopy_ts slack) s.last_internal_ts)
unfolding classify_divergence compute_mismatch mismatch_by
classify-eq-mask s out q p slack i d =
    let status = not (s.internal_status ==ˢ s.dropcopy_status) in
    let qty = ltb (to_u64 q) (safe_abs_diff s.internal_cum_qty s.dropcopy_cum_qty) in
    let px = ltb (to_u64 p) (safe_abs_diff s.internal_avg_px s.dropcopy_avg_px) in
    let f = step_mask-Flags status qty px (exec_ids_differ s) in
    rw (i, d, f.status_is, f.qty_is, f.px_is)
      (ground (
        arith,
        misses_fill-differs s,
        safe_abs_diff_comm s.dropcopy_cum_qty s.internal_cum_qty,
        safe_abs_diff_comm s.dropcopy_avg_px s.internal_avg_px,
      ))

-- When the mask is empty, the classification reports a timing anomaly or nothing.
classify_matched :
    (s : OrderState) (out : Divergence) (q p : ℤ) (slack : ℕ)
    → s.seen_internal ≡ true
    → s.seen_dropcopy ≡ true
    → compute_mismatch s q p ≡ Mask.empty
    → classify_divergence s out q p slack ≡ (
        if ltb (add64 s.last_dropcopy_ts slack) s.last_internal_ts
        then (fill_divergence_snapshot s DivergenceType.timing_anomaly out, true)
        else (out, false))
unfolding classify_divergence compute_mismatch mismatch_by
classify_matched s out q p slack i d h = ground (
  arith,
  safe_abs_diff_comm s.internal_cum_qty s.dropcopy_cum_qty,
  safe_abs_diff_comm s.internal_avg_px s.dropcopy_avg_px,
)
