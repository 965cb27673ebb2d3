-- ===== src/Lifecycle.antt =====
-- src/core/order_lifecycle.hpp: which changes of a FIX order status are accepted.
pub mod Graph
use fx_dropcopy_primary_reco.Prelude.{Bool, true, false, ◌||◌, if◌then◌else◌}
use fx_dropcopy_primary_reco.Event.{OrdStatus, ◌==ˢ◌}

unfoldable pub is_terminal_status : OrdStatus → Bool
is_terminal_status OrdStatus.filled = true
is_terminal_status OrdStatus.canceled = true
is_terminal_status OrdStatus.rejected = true
is_terminal_status _ = false

-- The `switch` of `is_valid_transition`.
transition_allowed : OrdStatus → OrdStatus → Bool
transition_allowed OrdStatus.new next =
    next ==ˢ OrdStatus.working
    || next ==ˢ OrdStatus.partially_filled
    || next ==ˢ OrdStatus.filled
    || next ==ˢ OrdStatus.cancel_pending
    || next ==ˢ OrdStatus.rejected
transition_allowed OrdStatus.pending_new next =
    next ==ˢ OrdStatus.working
    || next ==ˢ OrdStatus.partially_filled
    || next ==ˢ OrdStatus.filled
    || next ==ˢ OrdStatus.cancel_pending
    || next ==ˢ OrdStatus.rejected
transition_allowed OrdStatus.working next =
    next ==ˢ OrdStatus.partially_filled
    || next ==ˢ OrdStatus.filled
    || next ==ˢ OrdStatus.cancel_pending
    || next ==ˢ OrdStatus.rejected
transition_allowed OrdStatus.partially_filled next =
    next ==ˢ OrdStatus.partially_filled
    || next ==ˢ OrdStatus.filled
    || next ==ˢ OrdStatus.cancel_pending
transition_allowed OrdStatus.cancel_pending next =
    next ==ˢ OrdStatus.canceled
    || next ==ˢ OrdStatus.rejected
    || next ==ˢ OrdStatus.partially_filled
    || next ==ˢ OrdStatus.filled
transition_allowed OrdStatus.replaced next =
    next ==ˢ OrdStatus.working
    || next ==ˢ OrdStatus.partially_filled
    || next ==ˢ OrdStatus.filled
    || next ==ˢ OrdStatus.cancel_pending
    || next ==ˢ OrdStatus.rejected
transition_allowed _ next = false

unfoldable pub is_valid_transition : OrdStatus → OrdStatus → Bool
unfolding transition_allowed is_terminal_status
is_valid_transition current next =
    if current ==ˢ OrdStatus.unknown
    then true
    else if current ==ˢ next
    then true
    else if is_terminal_status current
    then false
    else transition_allowed current next

-- The status after the call, and whether the change was accepted.
unfoldable pub apply_status_transition : OrdStatus → OrdStatus → OrdStatus × Bool
unfolding is_valid_transition
apply_status_transition current next =
    if is_valid_transition current next then (next, true) else (current, false)
