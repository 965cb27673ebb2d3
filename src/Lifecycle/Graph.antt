-- ===== src/Lifecycle/Graph.antt =====
-- The life of an order as src/core/order_lifecycle.hpp lets it be seen: the table of accepted
-- changes against a rule, and what a whole feed of statuses can do.
use fx_dropcopy_primary_reco.Prelude.{
  ℕ, ◌≤◌, ◌≡◌, refl, Bool, true, false, not, ◌&&◌, ◌||◌, List, [], ◌∷◌, arith, ap, ◌∙◌,
}
use fx_dropcopy_primary_reco.Event.{OrdStatus, ◌==ˢ◌}
use fx_dropcopy_primary_reco.Lifecycle.{
  is_terminal_status, is_valid_transition, apply_status_transition,
}

-- An order that the venue has taken but not yet put to work.
pub is_opening : OrdStatus → Bool
is_opening OrdStatus.new = true
is_opening OrdStatus.pending_new = true
is_opening OrdStatus.replaced = true
is_opening _ = false

-- An order that can still trade.
pub is_live : OrdStatus → Bool
unfolding is_opening
is_live s =
    is_opening s
    || s ==ˢ OrdStatus.working
    || s ==ˢ OrdStatus.partially_filled
    || s ==ˢ OrdStatus.cancel_pending

-- The rule: a first report or a repeat; an opening order may start to work; a live one may fill, in
-- part or whole, be asked to cancel, or, while it has no fill, be rejected; only an order that was
-- asked to cancel is canceled.
pub lifecycle_rule : OrdStatus → OrdStatus → Bool
unfolding is_live
lifecycle_rule s t =
    s ==ˢ OrdStatus.unknown
    || s ==ˢ t
    || (is_opening s && t ==ˢ OrdStatus.working)
    || (is_live s
        && (t ==ˢ OrdStatus.partially_filled
            || t ==ˢ OrdStatus.filled
            || t ==ˢ OrdStatus.cancel_pending))
    || (s ==ˢ OrdStatus.cancel_pending && t ==ˢ OrdStatus.canceled)
    || (is_live s && not (s ==ˢ OrdStatus.partially_filled) && t ==ˢ OrdStatus.rejected)

-- The code accepts a change of status exactly when the rule does.
pub is_valid_transition-eq-rule : (s t : OrdStatus) → is_valid_transition s t ≡ lifecycle_rule s t
unfolding is_valid_transition lifecycle_rule
is_valid_transition-eq-rule OrdStatus.new t = ground arith
is_valid_transition-eq-rule _ t = ground arith

-- How far an order has come. A status that the code has no name for is never left.
abbrev pub stage : OrdStatus → ℕ
stage OrdStatus.unknown = 0
stage OrdStatus.new = 1
stage OrdStatus.pending_new = 1
stage OrdStatus.replaced = 1
stage OrdStatus.working = 2
stage OrdStatus.partially_filled = 3
stage OrdStatus.cancel_pending = 3
stage _ = 4

-- A feed of reported statuses, each applied to the last accepted one.
unfoldable pub observe : OrdStatus → List OrdStatus → OrdStatus
observe s [] = s
observe s (t ∷ ts) = observe (apply_status_transition s t).0 ts

apply-stage : (s t : OrdStatus) → stage s ≤ stage (apply_status_transition s t).0
unfolding apply_status_transition
apply-stage OrdStatus.new OrdStatus.new = ground arith
apply-stage _ _ = ground arith

apply-terminal :
    (s t : OrdStatus) → is_terminal_status s ≡ true → (apply_status_transition s t).0 ≡ s
unfolding apply_status_transition
apply-terminal OrdStatus.new t h = ground arith
apply-terminal _ t h = ground arith

-- Along any feed an order never goes back a stage, whatever is reported.
pub observe-stage : (s : OrdStatus) (ts : List OrdStatus) → stage s ≤ stage (observe s ts)
unfolding observe
observe-stage s [] = omega arith
observe-stage s (t ∷ ts) =
    omega (arith, apply-stage s t, observe-stage (apply_status_transition s t).0 ts)

-- A filled, canceled or rejected order keeps its status through any further feed.
observe_terminal :
    (s : OrdStatus) (ts : List OrdStatus) → is_terminal_status s ≡ true → observe s ts ≡ s
unfolding observe
observe_terminal s [] h = refl
observe_terminal s (t ∷ ts) h =
    ap (λ u. observe u ts) (apply-terminal s t h) ∙ observe_terminal s ts h
