-- ===== src/Sequence/Reports.antt =====
-- What a tracker of src/core/sequence_tracker.hpp reports of a feed.
use fx_dropcopy_primary_reco.Prelude.{
  ℕ, ◌+◌, ◌≤◌, ◌<◌, ◌≡◌, refl, Bool, true, false, not, ◌&&◌, arith, u64, List, [], ◌∷◌, All, ◌==◌,
  leb, ltb, if◌then◌else◌, some, Bool-cases, inl, inr,
}
use fx_dropcopy_primary_reco.Event.{Source}
use fx_dropcopy_primary_reco.Sequence.{GapKind, SequenceTracker, track_sequence, empty_gap_event}
use fx_dropcopy_primary_reco.Sequence.Invariant.{IsValid, track_sequence-IsValid}

-- Where a number stands against a tracker: past the expected one, the last one again, in the open
-- gap's inclusive range of missing numbers, or none of these.
abbrev pub kind_of : SequenceTracker → ℕ → GapKind
kind_of t seq =
    if ltb t.expected_seq seq
    then GapKind.gap
    else if seq + 1 == t.expected_seq
    then GapKind.duplicate
    else if t.gap_open && leb t.gap_start_seq seq && leb seq t.gap_last_missing_seq
    then GapKind.gap_fill
    else GapKind.out_of_order

-- An unexpected number in a started session is reported, with the expected and the seen number and
-- the kind that its place gives; the report says that it closed a gap exactly for a gap fill.
pub track_sequence-report :
    (t : SequenceTracker) (source : Source) (session seq now : ℕ)
    → IsValid t
    → t.initialized ≡ true
    → not (seq == t.expected_seq) ≡ true
    → (track_sequence t source session seq now empty_gap_event).written
      ≡ some (record {
        source = source;
        session_id = session;
        expected_seq = t.expected_seq;
        seen_seq = seq;
        kind = kind_of t seq;
        detect_ts = now;
        gap_closed_by_fill = elim (kind_of t seq) [ GapKind.gap_fill ↦ true | _ ↦ false ];
      })
unfolding track_sequence
track_sequence-report t source session seq now v i h = ground arith

-- After a jump past the expected number a gap is open, and every number that was skipped lies in its
-- range of missing numbers.
pub track_sequence_covers :
    (t : SequenceTracker) (source : Source) (session seq now m : ℕ)
    → IsValid t
    → t.initialized ≡ true
    → seq + 1 < u64
    → t.expected_seq ≤ m
    → m < seq
    → let t' = (track_sequence t source session seq now empty_gap_event).tracker in
      (t'.gap_open ≡ true) × (t'.gap_start_seq ≤ m) × (m ≤ t'.gap_last_missing_seq)
unfolding track_sequence
track_sequence_covers t source session seq now m v i h lo hi = ground arith

-- A feed of sequence numbers, each with its time.
abbrev pub Feed : Type 0
Feed = List (ℕ × ℕ)

unfoldable pub feed : SequenceTracker → Source → ℕ → Feed → SequenceTracker
feed t source session [] = t
feed t source session ((seq, now) ∷ rest) =
    feed (track_sequence t source session seq now empty_gap_event).tracker source session rest

-- No number of the feed is reported.
unfoldable pub is_silent : SequenceTracker → Source → ℕ → Feed → Bool
is_silent t source session [] = true
is_silent t source session ((seq, now) ∷ rest) =
    let r = track_sequence t source session seq now empty_gap_event in
    not r.reported && is_silent r.tracker source session rest

unfoldable pub consecutive_from : ℕ → Feed → Bool
consecutive_from n [] = true
consecutive_from n ((seq, now) ∷ rest) = (seq == n) && consecutive_from (n + 1) rest

-- One past the highest number seen.
unfoldable pub high_water : ℕ → Feed → ℕ
high_water n [] = n
high_water n ((seq, now) ∷ rest) = high_water (if leb n seq then seq + 1 else n) rest

abbrev pub Fits : Feed → Type 0
Fits xs = All (λ (x : ℕ × ℕ). x.0 + 1 < u64) xs

-- One step of a started session.
step_expected :
    (t : SequenceTracker) (source : Source) (session seq now : ℕ)
    → t.initialized ≡ true
    → seq + 1 < u64
    → let r = track_sequence t source session seq now empty_gap_event in
      (r.tracker.initialized ≡ true)
      × (r.reported ≡ not (seq == t.expected_seq))
      × (r.tracker.expected_seq ≡ (if leb t.expected_seq seq then seq + 1 else t.expected_seq))
unfolding track_sequence
step_expected t source session seq now i h = ground arith

-- A started session is silent exactly on the feeds that run on from its expected number.
pub is_silent-eq-consecutive :
    (t : SequenceTracker) (source : Source) (session : ℕ) (xs : Feed)
    → t.initialized ≡ true
    → Fits xs
    → is_silent t source session xs ≡ consecutive_from t.expected_seq xs
unfolding is_silent consecutive_from
is_silent-eq-consecutive t source session [] i f = refl
is_silent-eq-consecutive t source session ((seq, now) ∷ rest) i f =
    let (i', r, e) = step_expected t source session seq now i f.0 in
    let t' = (track_sequence t source session seq now empty_gap_event).tracker in
    let ih = is_silent-eq-consecutive t' source session rest i' f.1 in
    elim (Bool-cases (seq == t.expected_seq)) [
      | inl same ↦
          let next : t'.expected_seq ≡ t.expected_seq + 1 = ground arith in rw (r, same, ih, next)
      | inr other ↦ rw (r, other)
    ]

-- Through any feed, whatever is lost, repeated or late, the expected number is one past the highest
-- number seen so far.
feed-high_water :
    (t : SequenceTracker) (source : Source) (session : ℕ) (xs : Feed)
    → t.initialized ≡ true
    → Fits xs
    → (feed t source session xs).expected_seq ≡ high_water t.expected_seq xs
unfolding feed high_water
feed-high_water t source session [] i f = refl
feed-high_water t source session ((seq, now) ∷ rest) i f =
    let (i', r, e) = step_expected t source session seq now i f.0 in
    let t' = (track_sequence t source session seq now empty_gap_event).tracker in
    rw (← e) (feed-high_water t' source session rest i' f.1)

-- A tracker stays well formed through any feed.
pub feed-IsValid :
    (t : SequenceTracker) (source : Source) (session : ℕ) (xs : Feed)
    → IsValid t
    → Fits xs
    → IsValid (feed t source session xs)
unfolding feed
feed-IsValid t source session [] v f = v
feed-IsValid t source session ((seq, now) ∷ rest) v f =
    feed-IsValid (track_sequence t source session seq now empty_gap_event).tracker source session
      rest (track_sequence-IsValid t source session seq now empty_gap_event v f.0) f.1
