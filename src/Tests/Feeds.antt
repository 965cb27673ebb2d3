-- ===== src/Tests/Feeds.antt =====
-- Sequence numbers and gap marks at concrete inputs.
use fx_dropcopy_primary_reco.Prelude.{◌≤◌, ◌≡◌, refl, true, false, arith, [], ◌∷◌, some}
use fx_dropcopy_primary_reco.Event.{Source}
use fx_dropcopy_primary_reco.Mask.{has}
use fx_dropcopy_primary_reco.Order.{fresh_order}
use fx_dropcopy_primary_reco.Sequence.{SequenceTracker, GapKind, track_sequence, empty_gap_event}
use fx_dropcopy_primary_reco.Sequence.Invariant.{IsValid, track_sequence-IsValid}
use fx_dropcopy_primary_reco.Sequence.Reports.{
  Feed, Fits, is_silent, consecutive_from, track_sequence-report, track_sequence_covers,
  is_silent-eq-consecutive,
}
use fx_dropcopy_primary_reco.Gap.{mark_gap_uncertainty, clear_gap_uncertainty, is_suppressed_by_gap}
use fx_dropcopy_primary_reco.Gap.Marks.{clear-mark, mark_both_forgets}
use fx_dropcopy_primary_reco.Tests.Data.{started, gapped}

started-IsValid : IsValid started
started-IsValid = ground arith

gapped-IsValid : IsValid gapped
gapped-IsValid = ground arith

track_sequence-IsValid_example :
    IsValid (track_sequence gapped Source.primary 1 5 200 empty_gap_event).tracker
track_sequence-IsValid_example =
    track_sequence-IsValid gapped Source.primary 1 5 200 empty_gap_event gapped-IsValid
      (omega arith)

track_sequence-report_example :
    (track_sequence gapped Source.primary 1 5 200 empty_gap_event).written
    ≡ some (record {
      source = Source.primary;
      session_id = 1;
      expected_seq = 8;
      seen_seq = 5;
      kind = GapKind.gap_fill;
      detect_ts = 200;
      gap_closed_by_fill = true;
    })
track_sequence-report_example =
    track_sequence-report gapped Source.primary 1 5 200 gapped-IsValid refl refl

track_sequence_covers_example :
    let t = (track_sequence started Source.primary 1 9 200 empty_gap_event).tracker in
    (t.gap_open ≡ true) × (t.gap_start_seq ≤ 7) × (7 ≤ t.gap_last_missing_seq)
track_sequence_covers_example =
    track_sequence_covers started Source.primary 1 9 200 7 started-IsValid refl (omega arith)
      (omega arith) (omega arith)

abbrev numbers : Feed
numbers = (5, 10) ∷ (6, 11) ∷ (9, 12) ∷ (7, 13) ∷ []

numbers-Fits : Fits numbers
numbers-Fits = (omega arith, (omega arith, (omega arith, (omega arith, record {}))))

is_silent-eq-consecutive_example :
    is_silent started Source.primary 1 numbers ≡ consecutive_from 5 numbers
is_silent-eq-consecutive_example =
    is_silent-eq-consecutive started Source.primary 1 numbers refl numbers-Fits

clear-mark_example :
    let m = mark_gap_uncertainty (fresh_order 7) Source.primary gapped in
    let c = clear_gap_uncertainty m.0 Source.primary m.1 in
    (c.0.gap_uncertainty_flags ≡ 0) × (c.1 ≡ gapped) × (c.2 ≡ true)
clear-mark_example =
    clear-mark (fresh_order 7) Source.primary gapped (omega arith) refl (omega arith) refl

abbrev other_gap : SequenceTracker
other_gap = record gapped { gap_epoch = 4 }

mark_both_forgets_example :
    let m = mark_gap_uncertainty (fresh_order 7) Source.primary gapped in
    let n = mark_gap_uncertainty m.0 Source.drop_copy other_gap in
    (has n.0.gap_uncertainty_flags 1 ≡ true) × (is_suppressed_by_gap n.0 Source.primary m.1 ≡ false)
mark_both_forgets_example =
    mark_both_forgets (fresh_order 7) gapped other_gap (omega arith) refl refl (omega arith)
