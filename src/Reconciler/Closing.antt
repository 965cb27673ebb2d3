-- ===== src/Reconciler/Closing.antt =====
-- The gaps that src/core/reconciler.cpp closes when they time out, and those it suppresses by.
use fx_dropcopy_primary_reco.Prelude.{
  ℕ, ◌≡◌, Bool, true, false, ◌&&◌, ◌||◌, arith, ltb, ◌!=◌, sub64, if◌then◌else◌,
}
use fx_dropcopy_primary_reco.Event.{Source}
use fx_dropcopy_primary_reco.Clock.{TscCalibration, ns_to_cycles}
use fx_dropcopy_primary_reco.Order.{OrderState}
use fx_dropcopy_primary_reco.Sequence.{SequenceTracker, close_gap}
use fx_dropcopy_primary_reco.Gap.{is_suppressed_by_gap}
use fx_dropcopy_primary_reco.Reconciler.{Reconciler, tracker_of}
use fx_dropcopy_primary_reco.Reconciler.Gaps.{
  gap_timed_out, close_timed_out, is_gap_suppressed, close_session_gap, check_gap_timeout,
  check_gap_timeouts,
}

-- A gap that the periodic check finds too old.
abbrev pub is_overdue : SequenceTracker → ℕ → ℕ → Bool
is_overdue t now timeout =
    t.gap_open && (t.gap_opened_tsc != 0 && ltb timeout (sub64 now t.gap_opened_tsc))

-- The periodic check closes the gap of a feed when it is overdue and leaves the feed's tracker as it
-- is otherwise; no gap is overdue after it.
pub check_gap_timeouts-closes :
    (cal : TscCalibration) (r : Reconciler) (source : Source) (now : ℕ)
    → let timeout = ns_to_cycles cal r.config.gap_timeout_ns in
      let r' = check_gap_timeouts cal r now in
      let t = tracker_of r source in
      (tracker_of r' source ≡ (if is_overdue t now timeout then (close_gap t).0 else t))
      × (is_overdue (tracker_of r' source) now timeout ≡ false)
unfolding check_gap_timeouts check_gap_timeout close_session_gap close_gap
check_gap_timeouts-closes cal r source now = ground arith

pub is_gap_suppressed-eq :
    (cal : TscCalibration) (r : Reconciler) (os : OrderState) (source : Source)
    → let (r', suppressed) = is_gap_suppressed cal r os in
      let timeout = ns_to_cycles cal r.config.gap_close_timeout_ns in
      (suppressed ≡ (
        r.config.enable_gap_suppression
        && (is_suppressed_by_gap os Source.primary r.primary_seq_tracker
            || is_suppressed_by_gap os Source.drop_copy r.dropcopy_seq_tracker)))
      × (suppressed ≡ true → r' ≡ r)
      × (r.config.enable_gap_suppression ≡ false → r' ≡ r)
      × (suppressed ≡ false
          → r.config.enable_gap_suppression ≡ true
          → let t = tracker_of r source in
            tracker_of r' source
            ≡ (if gap_timed_out t r.last_poll_tsc timeout then (close_gap t).0 else t))
unfolding is_gap_suppressed close_timed_out close_gap
is_gap_suppressed-eq cal r os source = ground arith
