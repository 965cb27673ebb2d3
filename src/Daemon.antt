-- ===== src/Daemon.antt =====
-- The parts of src/api/recond_main.cpp at work together: a thread for each feed, which runs the handler
-- of src/ingest/aeron_subscriber.cpp on the fragments of its subscription, and the loop of
-- src/core/reconciler.cpp between them.
pub mod Conserved
pub mod Feeds
use fx_dropcopy_primary_reco.Prelude.{ℕ, ◌+◌, Option, none, some, List, [], ◌∷◌}
use fx_dropcopy_primary_reco.Event.{Source, ExecEvent, empty_event}
use fx_dropcopy_primary_reco.Clock.{TscCalibration}
use fx_dropcopy_primary_reco.Sequence.{empty_tracker, empty_gap_event}
use fx_dropcopy_primary_reco.Divergence.{empty_divergence}
use fx_dropcopy_primary_reco.Ring
use fx_dropcopy_primary_reco.Store.{Layout, OrderStateStore}
use fx_dropcopy_primary_reco.Config.{default_recon_config}
use fx_dropcopy_primary_reco.Counters.{empty_counters}
use fx_dropcopy_primary_reco.Reconciler.{Reconciler, ring_bits}
use fx_dropcopy_primary_reco.Reconciler.Run.{Loop, enter, round}
use fx_dropcopy_primary_reco.Aeron.{ThreadStats, no_stats, Feed, feed_bits, on_fragment}

-- `Reconciler(stop_flag, primary, dropcopy, store, counters, divergence_ring, seq_gap_ring)`: the
-- constructor without a timer wheel, on empty rings.
unfoldable pub make_reconciler : OrderStateStore → Reconciler
unfolding Ring.make
make_reconciler store = record {
  store = store;
  counters = empty_counters;
  divergence_ring = Ring.make ring_bits empty_divergence;
  seq_gap_ring = Ring.make ring_bits empty_gap_event;
  primary_seq_tracker = empty_tracker;
  dropcopy_seq_tracker = empty_tracker;
  timer_wheel = none;
  config = default_recon_config;
  last_poll_tsc = 0;
}

pub record Daemon : Type 0 where
  pub loop : Loop
  pub primary_stats : ThreadStats
  pub dropcopy_stats : ThreadStats

-- The daemon when its threads start, with the two readings of the clock before the loop.
unfoldable pub start_daemon : OrderStateStore → ℕ → ℕ → Daemon
unfolding make_reconciler enter
start_daemon store tsc tsc' = record {
  loop =
      enter (make_reconciler store) (Ring.make feed_bits empty_event)
        (Ring.make feed_bits empty_event) tsc tsc';
  primary_stats = no_stats;
  dropcopy_stats = no_stats;
}

-- A fragment of a feed reaches its handler.
unfoldable pub deliver : Daemon → Source → ℕ → List ℕ → Daemon
unfolding on_fragment
deliver d Source.primary tsc bytes =
    let f =
      on_fragment Source.primary tsc (record { ring = d.loop.primary; stats = d.primary_stats })
        bytes in
    record d { loop = record (d.loop) { primary = f.ring }; primary_stats = f.stats }
deliver d Source.drop_copy tsc bytes =
    let f =
      on_fragment Source.drop_copy tsc (record { ring = d.loop.dropcopy; stats = d.dropcopy_stats })
        bytes in
    record d { loop = record (d.loop) { dropcopy = f.ring }; dropcopy_stats = f.stats }

-- What happens, in its order, until the stop flag is seen.
pub data Step : Type 0 where
  fragment : Source → ℕ → List ℕ → Step
  polls : ℕ → Step

-- `none` when the fuel for the timers runs out.
unfoldable pub run : Layout → TscCalibration → ℕ → ℕ → Daemon → List Step → Option Daemon
unfolding deliver round
run l cal ticks fuel d [] = some d
run l cal ticks fuel d (Step.fragment source tsc bytes ∷ steps) =
    run l cal ticks fuel (deliver d source tsc bytes) steps
run l cal ticks fuel d (Step.polls now ∷ steps) = elim (round l cal ticks fuel d.loop now) [
  | none ↦ none
  | some s ↦ run l cal ticks fuel (record d { loop = s }) steps
]
