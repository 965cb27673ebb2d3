-- ===== src/Gap.antt =====
-- src/core/gap_uncertainty.hpp: the marks that an open gap leaves on the orders it may affect.
pub mod Marks
use fx_dropcopy_primary_reco.Prelude.{
  ℕ, ◌-◌, Bool, true, false, not, if◌then◌else◌, ltb, ◌==◌, ◌!=◌, bit_and, bit_or, inc32, Option,
  none, some,
}
use fx_dropcopy_primary_reco.Event.{Source, is_primary}
use fx_dropcopy_primary_reco.Mask.{has, set_flag, clear_flag}
use fx_dropcopy_primary_reco.Order.{OrderState, primary_flag, drop_copy_flag}
use fx_dropcopy_primary_reco.Sequence.{SequenceTracker}

abbrev pub get_gap_flag_for_source : Source → ℕ
get_gap_flag_for_source Source.primary = primary_flag
get_gap_flag_for_source Source.drop_copy = drop_copy_flag

unfoldable pub mark_gap_uncertainty :
    OrderState → Source → SequenceTracker → OrderState × SequenceTracker
mark_gap_uncertainty s source t =
    let flag = get_gap_flag_for_source source in
    let was_marked = has s.gap_uncertainty_flags flag in
    if not t.gap_open then (s, t) else (
      record s {
        gap_suppression_epoch = t.gap_epoch;
        gap_uncertainty_flags = set_flag s.gap_uncertainty_flags flag;
      },
      (if was_marked then t else record t { orders_in_gap_count = inc32 t.orders_in_gap_count }),
    )

-- `--tracker->orders_in_gap_count`, where the tracker is given and counts an order.
abbrev pub uncount : SequenceTracker → SequenceTracker
uncount t =
    if ltb 0 t.orders_in_gap_count
    then record t { orders_in_gap_count = t.orders_in_gap_count - 1 }
    else t

abbrev pub uncount_opt : Option SequenceTracker → Option SequenceTracker
uncount_opt none = none
uncount_opt (some t) = some (uncount t)

-- The overload with a pointer that may be null: the order, the tracker, and whether it was marked.
unfoldable pub clear_gap_uncertainty_opt :
    OrderState → Source → Option SequenceTracker → OrderState × Option SequenceTracker × Bool
clear_gap_uncertainty_opt s source t =
    let flag = get_gap_flag_for_source source in
    if not (has s.gap_uncertainty_flags flag) then (s, t, false) else (
      record s { gap_uncertainty_flags = clear_flag s.gap_uncertainty_flags flag },
      uncount_opt t,
      true,
    )

-- The overload with a reference.
unfoldable pub clear_gap_uncertainty :
    OrderState → Source → SequenceTracker → OrderState × SequenceTracker × Bool
clear_gap_uncertainty s source t =
    let flag = get_gap_flag_for_source source in
    if not (has s.gap_uncertainty_flags flag) then (s, t, false) else (
      record s { gap_uncertainty_flags = clear_flag s.gap_uncertainty_flags flag },
      uncount t,
      true,
    )

unfoldable pub is_suppressed_by_gap : OrderState → Source → SequenceTracker → Bool
is_suppressed_by_gap s source t =
    let flag = get_gap_flag_for_source source in
    if not t.gap_open
    then false
    else if bit_and s.gap_uncertainty_flags flag == 0
    then false
    else s.gap_suppression_epoch == t.gap_epoch
