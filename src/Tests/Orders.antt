-- ===== src/Tests/Orders.antt =====
-- Orders, statuses, divergences, decoding and conversions at concrete inputs.
use fx_dropcopy_primary_reco.Prelude.{
  not, ◌||◌, ltb, add64, ◌*◌, ◌/◌, ◌≤◌, ◌≡◌, refl, true, false, arith, [], ◌∷◌, some,
}
use fx_dropcopy_primary_reco.Prelude.Int.{pos, negsuc, distance}
use fx_dropcopy_primary_reco.Event.{Source, OrdStatus, from_wire, status_byte}
use fx_dropcopy_primary_reco.Event.Decode.{IsWellFormed, from_wire-IsWellFormed}
use fx_dropcopy_primary_reco.Lifecycle.{is_valid_transition}
use fx_dropcopy_primary_reco.Lifecycle.Graph.{
  lifecycle_rule, is_valid_transition-eq-rule, stage, observe, observe-stage,
}
use fx_dropcopy_primary_reco.Clock.{
  TscCalibration, Timespec, initial, split_product, ns_to_cycles, calibrate,
}
use fx_dropcopy_primary_reco.Clock.Convert.{split_product-eq, split_product_short}
use fx_dropcopy_primary_reco.Clock.Calibrate.{Calibrated, calibrate-Calibrated}
use fx_dropcopy_primary_reco.Order.{
  OrderState, fresh_order, safe_abs_diff, compute_mismatch, apply_internal_exec,
  apply_dropcopy_exec,
}
use fx_dropcopy_primary_reco.Order.Mismatch.{
  InRange, Flags, HasIds, same_text, internal_id, dropcopy_id, safe_abs_diff-distance,
  compute_mismatch-Flags,
}
use fx_dropcopy_primary_reco.Order.Apply.{
  done, internal, dropcopy, apply_all_internal, apply_all_dropcopy, Interleaved-eq,
}
use fx_dropcopy_primary_reco.Divergence.{classify_divergence, empty_divergence}
use fx_dropcopy_primary_reco.Divergence.Legacy.{classify-eq-mask}
use fx_dropcopy_primary_reco.Mask
use fx_dropcopy_primary_reco.Mask.{has}
use fx_dropcopy_primary_reco.Tests.Data.{seen_twice, new_report, working_report, message}

seen_twice-InRange : InRange seen_twice
seen_twice-InRange = record {
  internal_qty = (omega arith, omega arith);
  dropcopy_qty = (omega arith, omega arith);
  internal_px = (omega arith, omega arith);
  dropcopy_px = (omega arith, omega arith);
}

seen_twice-HasIds : HasIds seen_twice
seen_twice-HasIds = record { internal_in = omega arith; dropcopy_in = omega arith }

compute_mismatch-Flags_example :
    Flags
      (compute_mismatch seen_twice (pos 3) (pos 0))
      false
      true
      false
      (not (same_text (internal_id seen_twice) (dropcopy_id seen_twice)))
compute_mismatch-Flags_example =
    compute_mismatch-Flags seen_twice 3 0 seen_twice-InRange seen_twice-HasIds (omega arith)
      (omega arith) refl refl

-- The extremes of `int64_t`.
safe_abs_diff-distance_example :
    safe_abs_diff (pos 9_223_372_036_854_775_807) (negsuc 9_223_372_036_854_775_807)
    ≡ distance (pos 9_223_372_036_854_775_807) (negsuc 9_223_372_036_854_775_807)
safe_abs_diff-distance_example =
    safe_abs_diff-distance (pos 9_223_372_036_854_775_807) (negsuc 9_223_372_036_854_775_807)
      (omega arith, omega arith) (omega arith, omega arith)

Interleaved-eq_example :
    (apply_internal_exec (apply_dropcopy_exec (fresh_order 7) working_report).0 new_report).0
    ≡ apply_all_dropcopy
        (apply_all_internal (fresh_order 7) (new_report ∷ []))
        (working_report ∷ [])
Interleaved-eq_example =
    Interleaved-eq {s = fresh_order 7} {ps = new_report ∷ []} {ds = working_report ∷ []}
      (dropcopy (internal done))

is_valid_transition-eq-rule_example :
    is_valid_transition OrdStatus.working OrdStatus.canceled
    ≡ lifecycle_rule OrdStatus.working OrdStatus.canceled
is_valid_transition-eq-rule_example =
    is_valid_transition-eq-rule OrdStatus.working OrdStatus.canceled

observe-stage_example :
    stage OrdStatus.new ≤ stage (observe OrdStatus.new (OrdStatus.working ∷ OrdStatus.new ∷ []))
observe-stage_example = observe-stage OrdStatus.new (OrdStatus.working ∷ OrdStatus.new ∷ [])

-- Both feeds agree but for the execution id.
abbrev agreed : OrderState
agreed = record seen_twice { dropcopy_cum_qty = pos 100; last_internal_exec_id_len = 4 }

classify-eq-mask_example :
    let m = compute_mismatch agreed (pos 0) (pos 0) in
    (classify_divergence agreed empty_divergence (pos 0) (pos 0) 0).1 ≡ (
      has m Mask.status_bit
      || has m Mask.cum_qty_bit
      || has m Mask.avg_px_bit
      || ltb (add64 agreed.last_dropcopy_ts 0) agreed.last_internal_ts)
classify-eq-mask_example = classify-eq-mask agreed empty_divergence (pos 0) (pos 0) 0 refl refl

abbrev matched : OrderState
matched = record seen_twice { dropcopy_cum_qty = pos 100; last_internal_ts = 9 }

from_wire-IsWellFormed_example :
    IsWellFormed (from_wire message Source.primary 70)
    × (status_byte (from_wire message Source.primary 70).ord_status ≡ 1)
    × ((from_wire message Source.primary 70).seq_num ≡ 9)
from_wire-IsWellFormed_example =
    from_wire-IsWellFormed message Source.primary 70
      (record { exec = refl; order = refl; clord = refl })

split_product-eq_example :
    split_product 1_000_000 12_884_901_888 ≡ 1_000_000 * 12_884_901_888 / 18_446_744_073_709_551_616
split_product-eq_example = split_product-eq 1_000_000 12_884_901_888 (omega arith) (omega arith)

abbrev three_ghz : TscCalibration
three_ghz = record {
  tsc_freq_hz = 3_000_000_000;
  cycles_per_ns_q32 = 12_884_901_888;
  ns_per_cycle_q32 = 1_431_655_765;
  calibrated = true;
}

split_product_short_example :
    (1_000_000 ≤ ns_to_cycles three_ghz 1_000_000) × (split_product 1_000_000 12_884_901_888 ≡ 0)
split_product_short_example =
    split_product_short three_ghz 1_000_000 (omega arith) (omega arith) (omega arith)

abbrev clock_start : Timespec
clock_start = record { sec = 1; nsec = 0 }

abbrev clock_end : Timespec
clock_end = record { sec = 1; nsec = 10_000_000 }

calibrate-Calibrated_example :
    Calibrated initial (calibrate initial (some clock_start) 0 30_000_000 (some clock_end))
calibrate-Calibrated_example =
    calibrate-Calibrated initial (some clock_start) 0 30_000_000 (some clock_end)
