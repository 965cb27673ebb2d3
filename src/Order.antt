-- ===== src/Order.antt =====
-- src/core/order_state.hpp: the state kept for one order, and what the two feeds do to it.
pub mod Mismatch
pub mod Apply
pub mod Dedup
use fx_dropcopy_primary_reco.Prelude.{
  ℕ, ◌+◌, ◌-◌, ◌*◌, ◌%◌, Bool, true, false, not, ◌&&◌, ◌||◌, List, [], ◌∷◌, if◌then◌else◌, ltb, leb,
  ◌==◌, ◌!=◌, bit_and, bit_xor, u64, inc32, sub64, take, memcpy, mem_eq,
}
use fx_dropcopy_primary_reco.Prelude.Int.{ℤ, pos, to_u64, leb_ℤ, ◌==ℤ◌}
use fx_dropcopy_primary_reco.Event.{
  Source, is_primary, OrdStatus, ◌==ˢ◌, ExecEvent, id_capacity, clamp_id, zero_id,
}
use fx_dropcopy_primary_reco.Lifecycle.{apply_status_transition}
use fx_dropcopy_primary_reco.Mask.{ReconState, MismatchMask, set_flag}
use fx_dropcopy_primary_reco.Mask
use fx_dropcopy_primary_reco.Clock.{TscCalibration, ns_to_cycles}

-- The difference of the unsigned patterns, modulo 2 ^ 64.
unfoldable pub safe_abs_diff : ℤ → ℤ → ℕ
safe_abs_diff a b = if leb_ℤ b a then sub64 (to_u64 a) (to_u64 b) else sub64 (to_u64 b) (to_u64 a)

abbrev pub fnv_offset_basis : ℕ
fnv_offset_basis = 14_695_981_039_346_656_037

abbrev pub fnv_prime : ℕ
fnv_prime = 1_099_511_628_211

fnv_loop : ℕ → List ℕ → ℕ
fnv_loop hash [] = hash
fnv_loop hash (byte ∷ rest) = fnv_loop (bit_xor hash byte * fnv_prime % u64) rest

-- The loop reads the first `clord_id_len` bytes.
unfoldable pub make_order_key : ExecEvent → ℕ
unfolding fnv_loop
make_order_key e = fnv_loop fnv_offset_basis (take e.clord_id_len e.clord_id)

pub record OrderState : Type 0 where
  pub key : ℕ
  pub internal_status : OrdStatus
  pub internal_cum_qty : ℤ
  pub internal_avg_px : ℤ
  pub last_internal_ts : ℕ
  pub last_internal_exec_id : List ℕ
  pub last_internal_exec_id_len : ℕ
  pub dropcopy_status : OrdStatus
  pub dropcopy_cum_qty : ℤ
  pub dropcopy_avg_px : ℤ
  pub last_dropcopy_ts : ℕ
  pub last_dropcopy_exec_id : List ℕ
  pub last_dropcopy_exec_id_len : ℕ
  pub seen_internal : Bool
  pub seen_dropcopy : Bool
  pub has_divergence : Bool
  pub has_gap : Bool
  pub divergence_count : ℕ
  pub primary_last_seen_tsc : ℕ
  pub dropcopy_last_seen_tsc : ℕ
  pub mismatch_first_seen_tsc : ℕ
  pub recon_deadline_tsc : ℕ
  pub recon_state : ReconState
  pub current_mismatch : MismatchMask
  pub timer_generation : ℕ
  pub gap_suppression_epoch : ℕ
  pub gap_uncertainty_flags : ℕ
  pub last_divergence_emit_tsc : ℕ
  pub last_emitted_mismatch : MismatchMask
  pub divergence_emit_count : ℕ

-- What `create_order_state` writes to the memory that it was given.
abbrev pub fresh_order : ℕ → OrderState
fresh_order k = record {
  key = k;
  internal_status = OrdStatus.unknown;
  internal_cum_qty = pos 0;
  internal_avg_px = pos 0;
  last_internal_ts = 0;
  last_internal_exec_id = zero_id;
  last_internal_exec_id_len = 0;
  dropcopy_status = OrdStatus.unknown;
  dropcopy_cum_qty = pos 0;
  dropcopy_avg_px = pos 0;
  last_dropcopy_ts = 0;
  last_dropcopy_exec_id = zero_id;
  last_dropcopy_exec_id_len = 0;
  seen_internal = false;
  seen_dropcopy = false;
  has_divergence = false;
  has_gap = false;
  divergence_count = 0;
  primary_last_seen_tsc = 0;
  dropcopy_last_seen_tsc = 0;
  mismatch_first_seen_tsc = 0;
  recon_deadline_tsc = 0;
  recon_state = ReconState.unknown;
  current_mismatch = Mask.empty;
  timer_generation = 0;
  gap_suppression_epoch = 0;
  gap_uncertainty_flags = 0;
  last_divergence_emit_tsc = 0;
  last_emitted_mismatch = Mask.empty;
  divergence_emit_count = 0;
}

unfoldable pub select_event_timestamp : ExecEvent → ℕ
select_event_timestamp e = if e.transact_time != 0 then e.transact_time else e.sending_time

abbrev pub bounded_exec_id_length : ℕ → ℕ
bounded_exec_id_length len = clamp_id len

-- The debug assertion that the event has the order's key is left out.
unfoldable pub apply_internal_exec : OrderState → ExecEvent → OrderState × Bool
unfolding select_event_timestamp
apply_internal_exec s e =
    let (status, accepted) = apply_status_transition s.internal_status e.ord_status in
    let len = bounded_exec_id_length e.exec_id_len in
    if accepted
    then (
      record s {
        internal_status = status;
        internal_cum_qty = e.cum_qty;
        internal_avg_px = e.price_micro;
        last_internal_ts = select_event_timestamp e;
        last_internal_exec_id = memcpy s.last_internal_exec_id e.exec_id len;
        last_internal_exec_id_len = len;
        seen_internal = true;
      },
      true,
    )
    else (
      record s {
        internal_status = status;
        has_divergence = true;
        divergence_count = inc32 s.divergence_count;
      },
      false,
    )

unfoldable pub apply_dropcopy_exec : OrderState → ExecEvent → OrderState × Bool
unfolding select_event_timestamp
apply_dropcopy_exec s e =
    let (status, accepted) = apply_status_transition s.dropcopy_status e.ord_status in
    let len = bounded_exec_id_length e.exec_id_len in
    if accepted
    then (
      record s {
        dropcopy_status = status;
        dropcopy_cum_qty = e.cum_qty;
        dropcopy_avg_px = e.price_micro;
        last_dropcopy_ts = select_event_timestamp e;
        last_dropcopy_exec_id = memcpy s.last_dropcopy_exec_id e.exec_id len;
        last_dropcopy_exec_id_len = len;
        seen_dropcopy = true;
      },
      true,
    )
    else (
      record s {
        dropcopy_status = status;
        has_divergence = true;
        divergence_count = inc32 s.divergence_count;
      },
      false,
    )

abbrev pub set_if : Bool → ℕ → MismatchMask → MismatchMask
set_if true flag m = set_flag m flag
set_if false flag m = m

-- The last comparison: lengths first, then content if there is any.
pub exec_ids_differ : OrderState → Bool
exec_ids_differ s =
    if s.last_internal_exec_id_len != s.last_dropcopy_exec_id_len
    then true
    else if ltb 0 s.last_internal_exec_id_len && ltb 0 s.last_dropcopy_exec_id_len
    then not (mem_eq s.last_internal_exec_id s.last_dropcopy_exec_id s.last_internal_exec_id_len)
    else false

-- The mask of the two views, given the tests on quantity and price, which the two overloads of
-- `compute_mismatch` make each in its own way.
unfoldable pub mismatch_by : OrderState → Bool → Bool → MismatchMask
unfolding exec_ids_differ
mismatch_by s qty_differs px_differs =
    if (s.seen_internal && not s.seen_dropcopy) || (not s.seen_internal && s.seen_dropcopy)
    then set_flag Mask.empty Mask.existence_bit
    else if not s.seen_internal && not s.seen_dropcopy
    then Mask.empty
    else set_if (exec_ids_differ s) Mask.exec_id_bit (
        set_if px_differs Mask.avg_px_bit (
          set_if qty_differs Mask.cum_qty_bit
            (set_if (not (s.internal_status ==ˢ s.dropcopy_status)) Mask.status_bit Mask.empty)))

unfoldable pub compute_mismatch_exact : OrderState → MismatchMask
unfolding mismatch_by
compute_mismatch_exact s =
    mismatch_by s (not (s.internal_cum_qty ==ℤ s.dropcopy_cum_qty))
      (not (s.internal_avg_px ==ℤ s.dropcopy_avg_px))

-- The overload with tolerances, which are cast to unsigned numbers.
unfoldable pub compute_mismatch : OrderState → ℤ → ℤ → MismatchMask
unfolding mismatch_by
compute_mismatch s qty_tolerance px_tolerance =
    mismatch_by s (ltb (to_u64 qty_tolerance) (safe_abs_diff s.internal_cum_qty s.dropcopy_cum_qty))
      (ltb (to_u64 px_tolerance) (safe_abs_diff s.internal_avg_px s.dropcopy_avg_px))

unfoldable pub should_emit_divergence : TscCalibration → OrderState → MismatchMask → ℕ → ℕ → Bool
should_emit_divergence cal s mismatch now_tsc dedup_window_ns =
    if mismatch != s.last_emitted_mismatch
    then true
    else if s.last_divergence_emit_tsc == 0
    then true
    else if ltb now_tsc s.last_divergence_emit_tsc
    then true
    else leb (ns_to_cycles cal dedup_window_ns) (now_tsc - s.last_divergence_emit_tsc)

unfoldable pub record_divergence_emission : OrderState → MismatchMask → ℕ → OrderState
record_divergence_emission s mismatch emit_tsc = record s {
  last_divergence_emit_tsc = emit_tsc;
  last_emitted_mismatch = mismatch;
  divergence_emit_count = inc32 s.divergence_emit_count;
}

-- GapUncertaintyFlags.
abbrev pub primary_flag : ℕ
primary_flag = 1

abbrev pub drop_copy_flag : ℕ
drop_copy_flag = 2

unfoldable pub has_gap_uncertainty : OrderState → Bool
has_gap_uncertainty s = s.gap_uncertainty_flags != 0

unfoldable pub has_gap_uncertainty_for : OrderState → Source → Bool
has_gap_uncertainty_for s source =
    let flag : ℕ = if is_primary source then primary_flag else drop_copy_flag in
    bit_and s.gap_uncertainty_flags flag != 0

unfoldable pub clear_all_gap_uncertainty : OrderState → OrderState
clear_all_gap_uncertainty s = record s { gap_uncertainty_flags = 0 }
