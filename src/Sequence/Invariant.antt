-- ===== src/Sequence/Invariant.antt =====
-- The well-formedness of a tracker of src/core/sequence_tracker.hpp.
use fx_dropcopy_primary_reco.Prelude.{ℕ, ◌+◌, ◌<◌, ◌≡◌, ◌≢◌, true, false, arith, u64, u32}
use fx_dropcopy_primary_reco.Event.{Source}
use fx_dropcopy_primary_reco.Sequence.{
  SequenceTracker, SequenceGapEvent, track_sequence, close_gap, empty_tracker,
}

-- The last number is the one before the expected; an open gap is a nonempty range that ends below
-- it, under a nonzero epoch; without one, no trace of a gap but the epoch is left.
pub record IsValid (t : SequenceTracker) : Type 0 where
  pub epoch_fits : t.gap_epoch < u32
  pub closed_start : t.gap_open ≡ false → t.gap_start_seq ≡ 0
  pub closed_end : t.gap_open ≡ false → t.gap_end_seq ≡ 0
  pub closed_last : t.gap_open ≡ false → t.gap_last_missing_seq ≡ 0
  pub closed_opened : t.gap_open ≡ false → t.gap_opened_tsc ≡ 0
  pub closed_detected : t.gap_open ≡ false → t.gap_detected_tsc ≡ 0
  pub closed_count : t.gap_open ≡ false → t.orders_in_gap_count ≡ 0
  pub last_seen : t.initialized ≡ true → t.last_seen_seq + 1 ≡ t.expected_seq
  pub bounded : t.expected_seq < u64
  pub open_initialized : t.gap_open ≡ true → t.initialized ≡ true
  pub open_start : t.gap_open ≡ true → t.gap_start_seq < t.gap_end_seq
  pub open_last : t.gap_open ≡ true → t.gap_last_missing_seq + 1 ≡ t.gap_end_seq
  pub open_end : t.gap_open ≡ true → t.gap_end_seq < t.expected_seq
  pub open_epoch : t.gap_open ≡ true → t.gap_epoch ≢ 0

pub empty-IsValid : IsValid empty_tracker
empty-IsValid = ground arith

-- Any sequence number but the last of 64 bits keeps a tracker well formed, whatever it reports.
pub track_sequence-IsValid :
    (t : SequenceTracker) (source : Source) (session seq now : ℕ) (out : SequenceGapEvent)
    → IsValid t
    → seq + 1 < u64
    → IsValid (track_sequence t source session seq now out).tracker
unfolding track_sequence
track_sequence-IsValid t source session seq now out v h = ground arith

pub close_gap-IsValid : (t : SequenceTracker) → IsValid t → IsValid (close_gap t).0
unfolding close_gap
close_gap-IsValid t v = ground arith
