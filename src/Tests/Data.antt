-- ===== src/Tests/Data.antt =====
-- The inputs of the tests.
use fx_dropcopy_primary_reco.Prelude.{true, none, some, replicate}
use fx_dropcopy_primary_reco.Prelude.Int.{pos}
use fx_dropcopy_primary_reco.Event.{
  Source, OrdStatus, ExecEvent, empty_event, WireExecEvent, zero_id,
}
use fx_dropcopy_primary_reco.Clock.{initial}
use fx_dropcopy_primary_reco.Order.{OrderState, fresh_order}
use fx_dropcopy_primary_reco.Sequence.{SequenceTracker, empty_tracker, empty_gap_event}
use fx_dropcopy_primary_reco.Ring
use fx_dropcopy_primary_reco.Divergence.{empty_divergence}
use fx_dropcopy_primary_reco.Arena.{Arena}
use fx_dropcopy_primary_reco.Wheel
use fx_dropcopy_primary_reco.Store.{Layout, OrderStateStore, reset_epoch}
use fx_dropcopy_primary_reco.Config.{default_recon_config}
use fx_dropcopy_primary_reco.Counters.{empty_counters}
use fx_dropcopy_primary_reco.Reconciler.{Reconciler, ring_bits}

abbrev pub layout : Layout
layout = record { size_of = 256; align_of = 8 }

abbrev pub small_arena : Arena
small_arena = record { capacity_bytes = 1024; base = 4096; offset = 0 }

abbrev pub small_store : OrderStateStore
small_store = record {
  arena = small_arena;
  keys = replicate 4 0;
  values = replicate 4 none;
  bucket_count = 4;
  size = 0;
  overflow_count = 0;
  max_probe = 4;
}

-- Numbers 1 to 4 have been seen.
abbrev pub started : SequenceTracker
started = record empty_tracker { expected_seq = 5; last_seen_seq = 4; initialized = true }

-- Numbers 5 and 6 are missing.
abbrev pub gapped : SequenceTracker
gapped = record started {
  expected_seq = 8;
  last_seen_seq = 7;
  gap_open = true;
  gap_start_seq = 5;
  gap_epoch = 3;
  gap_opened_tsc = 100;
  gap_last_missing_seq = 6;
  gap_end_seq = 7;
  gap_detected_tsc = 100;
}

abbrev pub recon : Reconciler
recon = record {
  store = reset_epoch small_store;
  counters = empty_counters;
  divergence_ring = Ring.make ring_bits empty_divergence;
  seq_gap_ring = Ring.make ring_bits empty_gap_event;
  primary_seq_tracker = empty_tracker;
  dropcopy_seq_tracker = empty_tracker;
  timer_wheel = some (Wheel.make initial 0);
  config = default_recon_config;
  last_poll_tsc = 0;
}

-- The primary feed has reported 100 at a price of 5, the drop copy 90.
abbrev pub seen_twice : OrderState
seen_twice = record (fresh_order 7) {
  internal_status = OrdStatus.working;
  internal_cum_qty = pos 100;
  internal_avg_px = pos 5;
  dropcopy_status = OrdStatus.working;
  dropcopy_cum_qty = pos 90;
  dropcopy_avg_px = pos 5;
  seen_internal = true;
  seen_dropcopy = true;
}

abbrev pub seen_once : OrderState
seen_once = record (fresh_order 7) { internal_status = OrdStatus.working; seen_internal = true }

abbrev pub new_report : ExecEvent
new_report = record empty_event {
  ord_status = OrdStatus.new;
  seq_num = 1;
  ingest_tsc = 50;
  clord_id_len = 3;
}

abbrev pub working_report : ExecEvent
working_report = record empty_event {
  source = Source.drop_copy;
  ord_status = OrdStatus.working;
  seq_num = 2;
  ingest_tsc = 60;
}

abbrev pub message : WireExecEvent
message = record {
  exec_type = 2;
  ord_status = 1;
  seq_num = 9;
  session_id = 1;
  price_micro = pos 5;
  qty = pos 10;
  cum_qty = pos 4;
  sending_time = 11;
  transact_time = 12;
  exec_id = zero_id;
  exec_id_len = 40;
  order_id = zero_id;
  order_id_len = 8;
  clord_id = zero_id;
  clord_id_len = 8;
}
