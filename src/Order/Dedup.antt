-- ===== src/Order/Dedup.antt =====
-- The deduplication of src/core/order_state.hpp.
use fx_dropcopy_primary_reco.Prelude.{ℕ, ◌+◌, ◌≡◌, ◌≢◌, not, ◌&&◌, arith, ltb, leb, ◌==◌}
use fx_dropcopy_primary_reco.Clock.{TscCalibration, ns_to_cycles}
use fx_dropcopy_primary_reco.Order.{OrderState, should_emit_divergence, record_divergence_emission}

-- After an emission of `m` at a nonzero time t, a divergence is held back exactly when it has the same
-- mask and falls in the window from t on: an earlier time, a later one and another mask are emitted.
should_emit-record :
    (cal : TscCalibration) (s : OrderState) (m m' t now window : ℕ)
    → t ≢ 0
    → should_emit_divergence cal (record_divergence_emission s m t) m' now window
      ≡ not (m' == m && leb t now && ltb now (t + ns_to_cycles cal window))
unfolding should_emit_divergence record_divergence_emission
should_emit-record cal s m m' t now window h = ground arith
