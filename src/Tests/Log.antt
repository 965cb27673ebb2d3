-- ===== src/Tests/Log.antt =====
-- The logger at concrete inputs.
use fx_dropcopy_primary_reco.Prelude.{◌+◌, ◌≡◌, refl, true, false, arith, List, [], ◌∷◌, take}
use fx_dropcopy_primary_reco.Logger.{AsyncLogger, Consumer, start, new_slots, Step, step, run}
use fx_dropcopy_primary_reco.Logger
use fx_dropcopy_primary_reco.Logger.Record.{empty_record}
use fx_dropcopy_primary_reco.Logger.Fifo.{IsFine}
use fx_dropcopy_primary_reco.Logger.Drain.{
  IsFresh, Drained, draining, logger_in_order, consumer_drains,
}

-- `AsyncLogger()`
abbrev not_running : AsyncLogger
not_running = record {
  head = 0;
  tail = 0;
  mask = 0;
  capacity = 0;
  slots = [];
  stop = true;
  dropped = 0;
  written = 0;
  sink = [];
  consumer = Consumer.ended;
  entering = 0;
  loaded = [];
  seen = [];
  pending = [];
  history = [];
}

not_running-IsFresh : IsFresh not_running
not_running-IsFresh = record {
  no_loaded = refl;
  no_seen = refl;
  no_pending = refl;
  no_sink = refl;
  no_history = refl;
}

-- Two threads log at once; the second claims its position first.
abbrev two_logs : List Step
two_logs =
    Step.begins
    ∷ Step.begins
    ∷ Step.loads
    ∷ Step.loads
    ∷ Step.looks 0
    ∷ Step.looks 0
    ∷ Step.claims 1 empty_record false
    ∷ Step.claims 0 empty_record false
    ∷ Step.publishes 0
    ∷ Step.publishes 0
    ∷ Step.stops
    ∷ []

abbrev logged : AsyncLogger
logged = run (start not_running 2 true true).0 two_logs

logger_in_order_example :
    ((start not_running 2 true true).1 ≡ true)
    × IsFine 1 0 logged
    × (logged.sink ≡ take logged.tail logged.history)
logger_in_order_example =
    logger_in_order 1 not_running two_logs not_running-IsFresh refl (omega arith) (omega arith)

logged-eq :
    (logged.consumer ≡ Consumer.testing)
    × (logged.stop ≡ true)
    × (logged.pending ≡ [])
    × (logged.head ≡ logged.tail + 1)
unfolding start run step Logger.begin Logger.load_head Logger.look_at Logger.claim_at Logger.go_on
    Logger.fill_at Logger.publish_at Logger.request_stop Logger.is_behind new_slots
    Logger.is_power_of_two
logged-eq = (refl, refl, refl, refl)

consumer_drains_example : Drained logged.history (run logged (draining 1))
consumer_drains_example =
    consumer_drains 1 1 logged logger_in_order_example.1 logged-eq.0 logged-eq.1 logged-eq.2
      logged-eq.3
