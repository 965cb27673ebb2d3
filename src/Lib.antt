-- ===== src/Lib.antt =====
-- A model of the FX drop-copy reconciliation daemon, with what its parts guarantee.
--
-- The daemon compares two feeds of execution reports, the primary one and the drop copy. A thread for
-- each feed decodes messages and pushes events on a ring (src/ingest/spsc_ring.hpp); the reconciler
-- (src/core/reconciler.cpp) takes them off, tracks the sequence numbers of each feed, looks the order up
-- in the store, applies the report to that feed's view of the order, compares the two views, and
-- moves the order through its states. A mismatch starts a grace period on a timing wheel; what is
-- still wrong when it expires is published on a ring of divergences, unless it repeats the last
-- publication or a gap in a feed may explain it.
--
-- The files, in the order of their use:
--   Event         src/core/exec_event.hpp, src/core/wire_exec_event.hpp: events and from_wire
--   Lifecycle     src/core/order_lifecycle.hpp: the graph of order statuses
--   Mask          src/core/recon_state.hpp: ReconState and the one-byte MismatchMask
--   Clock         src/util/tsc_calibration.hpp: conversions between cycles and nanoseconds
--   Order         src/core/order_state.hpp: OrderState, its key, the two apply functions,
--                 compute_mismatch, deduplication, gap flags
--   Sequence      src/core/sequence_tracker.hpp: track_sequence and close_gap
--   Gap           src/core/gap_uncertainty.hpp: marks of orders under an open gap
--   Divergence    src/core/divergence.hpp: the published record, the immediate classification
--   Ring          src/ingest/spsc_ring.hpp: try_push and try_pop
--   FixedVec      src/util/fixed_vec.hpp: the vector of a wheel's bucket
--   Arena         src/util/arena.hpp: the bump allocator of the orders
--   Wheel         src/util/wheel_timer.hpp: schedule and poll_expired
--   Store         src/core/order_state_store.hpp, src/core/order_state_store.cpp: the open-addressed
--                 table of the orders
--   Config        src/core/recon_config.hpp
--   Timer         src/core/recon_timer.hpp: deadlines and generations
--   Counters      the counters of src/core/reconciler.hpp
--   Reconciler    src/core/reconciler.hpp, src/core/reconciler.cpp: Gaps (is_gap_suppressed,
--                 close_session_gap, check_gap_timeouts), Emit (emit_confirmed_divergence), Grace
--                 (enter_grace_period, exit_grace_period, handle_recon_state_transition), Deadline
--                 (on_grace_deadline_expired and the poll in run), Process (process_event)
--                 Run (the loop of run, one round at a time)
--   FixParser     src/ingest/fix_parser.cpp: parse_exec_report over the bytes of a message
--   Aeron         src/ingest/aeron_subscriber.cpp, src/api/aeron_publisher.cpp: a message as bytes, the
--                 handler of a fragment, the messages of the publisher
--   Daemon        src/api/recond_main.cpp: the two feeds and the loop between them, as a list of steps
--   Logger        src/util/async_log.hpp, src/util/async_log.cpp: the ring of log records, as steps
--                 of the logging threads and of the consumer, in one order for all of them
--   Prelude       shared names and lemmas; Tests: runs at concrete inputs
-- The modules below a component hold its theorems and are named for them.
--
-- Correspondence. A function of the source is a function of the same name, which takes the objects
-- that it changes and returns them. Members of a class are a record. An order is passed by value
-- between its lookup in the store and the write that puts it back into its bucket: no function of
-- the source holds two pointers to one order. Unsigned words are natural numbers with the
-- wrap-around written out; signed ones are integers. An enum that is cast from a byte has a
-- constructor for the bytes without a name. The calibration singleton, sizeof and alignof of an
-- order, and what system calls return are arguments.
--
-- Bounds and fuel. The loops of the store end by their probe limit, as in the source. The loop that
-- finds a power of two has fuel 65, one more than its doublings. The poll of the wheel takes fuel for
-- its ticks and for a bucket, which the entries of one bucket and the ticks up to now bound when the
-- callback schedules past the time of the poll only; without that it need not end.
--
-- The parser takes fuel for one turn more than there are bytes; the loop of the logger's consumer takes
-- five steps for each record that is left, and two to end. A run of the daemon without a timer wheel needs no fuel.
--
-- Not modelled: the calls of the Aeron library around the handler of a fragment, argument parsing,
-- signals and printing in the programs, and demo_main.cpp and the benchmark, which drive the parts and
-- print; the printed form of a log record, its file and the synchronous log (input and output); log
-- messages of the other parts; debug assertions; memory ordering. In the logger the filling of a slot and
-- the copy out of it are one step each, apart from the stores of its sequence; what the consumer does
-- alone after it has freed a slot is in the step that frees it. Each operation on an SPSC ring is one
-- step. The branch of set_tsc_freq_hz without 128-bit integers computes in floating point.
pub mod Prelude
pub mod Event
pub mod Lifecycle
pub mod Mask
pub mod Clock
pub mod Order
pub mod Sequence
pub mod Gap
pub mod Divergence
pub mod Ring
pub mod FixedVec
pub mod Arena
pub mod Wheel
pub mod Store
pub mod Config
pub mod Timer
pub mod Counters
pub mod Reconciler
pub mod FixParser
pub mod Aeron
pub mod Daemon
pub mod Logger
pub mod Tests
