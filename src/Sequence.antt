-- ===== src/Sequence.antt =====
-- src/core/sequence_tracker.hpp: the sequence numbers of one session, and the gap that may be open
-- in them.
pub mod Invariant
pub mod Reports
use fx_dropcopy_primary_reco.Prelude.{
  ℕ, ◌+◌, Bool, true, false, not, ◌&&◌, if◌then◌else◌, ltb, leb, ◌==◌, inc32, inc64, sub64, Option,
  none, some,
}
use fx_dropcopy_primary_reco.Event.{Source}

pub data GapKind : Type 0 where
  gap duplicate out_of_order gap_fill : GapKind

pub record SequenceGapEvent : Type 0 where
  pub source : Source
  pub session_id : ℕ
  pub expected_seq : ℕ
  pub seen_seq : ℕ
  pub kind : GapKind
  pub detect_ts : ℕ
  pub gap_closed_by_fill : Bool

abbrev pub empty_gap_event : SequenceGapEvent
empty_gap_event = record {
  source = Source.primary;
  session_id = 0;
  expected_seq = 0;
  seen_seq = 0;
  kind = GapKind.gap;
  detect_ts = 0;
  gap_closed_by_fill = false;
}

pub record SequenceTracker : Type 0 where
  pub expected_seq : ℕ
  pub last_seen_seq : ℕ
  pub initialized : Bool
  pub gap_open : Bool
  pub gap_start_seq : ℕ
  pub gap_epoch : ℕ
  pub gap_opened_tsc : ℕ
  pub gap_last_missing_seq : ℕ
  pub orders_in_gap_count : ℕ
  pub gap_end_seq : ℕ
  pub gap_detected_tsc : ℕ

abbrev pub empty_tracker : SequenceTracker
empty_tracker = record {
  expected_seq = 0;
  last_seen_seq = 0;
  initialized = false;
  gap_open = false;
  gap_start_seq = 0;
  gap_epoch = 0;
  gap_opened_tsc = 0;
  gap_last_missing_seq = 0;
  orders_in_gap_count = 0;
  gap_end_seq = 0;
  gap_detected_tsc = 0;
}

unfoldable pub init_sequence_tracker : SequenceTracker → ℕ → SequenceTracker × Bool
init_sequence_tracker t first_seq = if t.initialized then (t, false) else (
  record {
    expected_seq = inc64 first_seq;
    last_seen_seq = first_seq;
    initialized = true;
    gap_open = false;
    gap_start_seq = 0;
    gap_epoch = 0;
    gap_opened_tsc = 0;
    gap_last_missing_seq = 0;
    orders_in_gap_count = 0;
    gap_end_seq = 0;
    gap_detected_tsc = 0;
  },
  true,
)

-- The epoch is kept.
unfoldable pub close_gap : SequenceTracker → SequenceTracker × Bool
close_gap t = if not t.gap_open then (t, false) else (
  record t {
    gap_open = false;
    gap_start_seq = 0;
    gap_end_seq = 0;
    gap_detected_tsc = 0;
    gap_opened_tsc = 0;
    gap_last_missing_seq = 0;
    orders_in_gap_count = 0;
  },
  true,
)

-- Zero is skipped when the epoch wraps.
abbrev pub next_epoch : ℕ → ℕ
next_epoch e = if inc32 e == 0 then 1 else inc32 e

-- The branch for a number past the expected one: a gap is opened or extended.
unfoldable pub jump : SequenceTracker → ℕ → ℕ → SequenceTracker
jump t seq now_ts = record t {
  expected_seq = inc64 seq;
  last_seen_seq = seq;
  gap_open = true;
  gap_start_seq = if t.gap_open then t.gap_start_seq else t.expected_seq;
  gap_epoch = if t.gap_open then t.gap_epoch else next_epoch t.gap_epoch;
  gap_opened_tsc = if t.gap_open then t.gap_opened_tsc else now_ts;
  gap_last_missing_seq = sub64 seq 1;
  orders_in_gap_count = if t.gap_open then t.orders_in_gap_count else 0;
  gap_end_seq = seq;
  gap_detected_tsc = now_ts;
}

-- A late number that is no duplicate and lies in the open gap.
unfoldable pub fills_gap : SequenceTracker → ℕ → Bool
fills_gap t seq =
    t.gap_open && not (seq == t.last_seen_seq) && (leb t.gap_start_seq seq && ltb seq t.gap_end_seq)

unfoldable pub late_kind : SequenceTracker → ℕ → GapKind
unfolding fills_gap
late_kind t seq =
    if seq == t.last_seen_seq
    then GapKind.duplicate
    else if fills_gap t seq
    then GapKind.gap_fill
    else GapKind.out_of_order

-- The tracker, what is written to `out_event` (`none` where nothing is), and the result.
pub record Tracked : Type 0 where
  pub tracker : SequenceTracker
  pub written : Option SequenceGapEvent
  pub reported : Bool

-- `out` is the event that `out_event` points to; no caller passes a null pointer.
unfoldable pub track_sequence : SequenceTracker → Source → ℕ → ℕ → ℕ → SequenceGapEvent → Tracked
unfolding init_sequence_tracker jump fills_gap late_kind close_gap
track_sequence t source session_id seq now_ts out =
    if not t.initialized
    then record { tracker = (init_sequence_tracker t seq).0; written = none; reported = false }
    else if seq == t.expected_seq
    then record {
      tracker = record t { expected_seq = inc64 seq; last_seen_seq = seq };
      written = none;
      reported = false;
    }
    else if ltb t.expected_seq seq
    then record {
      tracker = jump t seq now_ts;
      written = some (record out {
        source = source;
        session_id = session_id;
        expected_seq = t.expected_seq;
        seen_seq = seq;
        kind = GapKind.gap;
        detect_ts = now_ts;
      });
      reported = true;
    }
    else record {
      tracker = if fills_gap t seq then (close_gap t).0 else t;
      written = some (record {
        source = source;
        session_id = session_id;
        expected_seq = t.expected_seq;
        seen_seq = seq;
        kind = late_kind t seq;
        detect_ts = now_ts;
        gap_closed_by_fill = fills_gap t seq;
      });
      reported = true;
    }
