-- ===== src/Order/Apply.antt =====
-- The two feeds of src/core/order_state.hpp write disjoint views: how they interleave does not
-- matter.
use fx_dropcopy_primary_reco.Prelude.{◌≡◌, refl, List, [], ◌∷◌, arith, ap, ◌∙◌}
use fx_dropcopy_primary_reco.Event.{ExecEvent}
use fx_dropcopy_primary_reco.Order.{OrderState, apply_internal_exec, apply_dropcopy_exec}

-- An accepted report of one feed and a report of the other, in either order.
pub apply_comm :
    (s : OrderState) (p d : ExecEvent)
    → (apply_internal_exec (apply_dropcopy_exec s d).0 p).0
      ≡ (apply_dropcopy_exec (apply_internal_exec s p).0 d).0
unfolding apply_internal_exec apply_dropcopy_exec
apply_comm s p d = ground arith

-- Reports of the primary feed, applied in order; so for the other feed.
abbrev pub apply_all_internal : OrderState → List ExecEvent → OrderState
apply_all_internal s [] = s
apply_all_internal s (p ∷ ps) = apply_all_internal (apply_internal_exec s p).0 ps

abbrev pub apply_all_dropcopy : OrderState → List ExecEvent → OrderState
apply_all_dropcopy s [] = s
apply_all_dropcopy s (d ∷ ds) = apply_all_dropcopy (apply_dropcopy_exec s d).0 ds

-- The states that an order can have after the reports `ps` of one feed and `ds` of the other, each
-- in its own order, have come in interleaved somehow.
pub data Interleaved : OrderState → List ExecEvent → List ExecEvent → OrderState → Type 0 where
  done : {s : OrderState} → Interleaved s [] [] s
  internal :
      {s t : OrderState} {p : ExecEvent} {ps ds : List ExecEvent}
      → Interleaved (apply_internal_exec s p).0 ps ds t
      → Interleaved s (p ∷ ps) ds t
  dropcopy :
      {s t : OrderState} {d : ExecEvent} {ps ds : List ExecEvent}
      → Interleaved (apply_dropcopy_exec s d).0 ps ds t
      → Interleaved s ps (d ∷ ds) t

-- A report of the drop copy moves behind all those of the primary feed.
move_behind :
    (s : OrderState) (ps : List ExecEvent) (d : ExecEvent)
    → apply_all_internal (apply_dropcopy_exec s d).0 ps
      ≡ (apply_dropcopy_exec (apply_all_internal s ps) d).0
move_behind s [] d = refl
move_behind s (p ∷ ps) d =
    ap (λ u. apply_all_internal u ps) (apply_comm s p d)
    ∙ move_behind (apply_internal_exec s p).0 ps d

-- Every interleaving of the two feeds leaves the state that the primary feed followed by the drop copy
-- leaves.
pub Interleaved-eq :
    {s t : OrderState} {ps ds : List ExecEvent}
    → Interleaved s ps ds t
    → t ≡ apply_all_dropcopy (apply_all_internal s ps) ds
Interleaved-eq done = refl
Interleaved-eq (internal i) = Interleaved-eq i
Interleaved-eq {s} {ps} (dropcopy {d = d} {ds = ds} i) =
    Interleaved-eq i ∙ ap (λ u. apply_all_dropcopy u ds) (move_behind s ps d)
