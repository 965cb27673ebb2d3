-- ===== src/Reconciler/Gaps.antt =====
-- src/core/reconciler.cpp: suppression by open gaps, and the closing of gaps that time out.
use fx_dropcopy_primary_reco.Prelude.{
  ℕ, Bool, true, false, not, ◌&&◌, if◌then◌else◌, ltb, leb, ◌-◌, ◌!=◌, inc64, sub64,
}
use fx_dropcopy_primary_reco.Event.{Source}
use fx_dropcopy_primary_reco.Clock.{TscCalibration, ns_to_cycles}
use fx_dropcopy_primary_reco.Order.{OrderState}
use fx_dropcopy_primary_reco.Sequence.{SequenceTracker, close_gap}
use fx_dropcopy_primary_reco.Gap.{is_suppressed_by_gap}
use fx_dropcopy_primary_reco.Reconciler.{Reconciler, counted, tracker_of, with_tracker}

-- The test of the inline timeout.
abbrev pub gap_timed_out : SequenceTracker → ℕ → ℕ → Bool
gap_timed_out t now timeout_tsc =
    t.gap_open
    && (ltb 0 t.gap_detected_tsc
        && (ltb t.gap_detected_tsc now && leb timeout_tsc (now - t.gap_detected_tsc)))

unfoldable pub close_timed_out : Reconciler → Source → ℕ → Reconciler
close_timed_out r source timeout_tsc =
    let t = tracker_of r source in
    let closed =
      counted (with_tracker r source (close_gap t).0) (record (r.counters) {
        gaps_closed_by_timeout = inc64 r.counters.gaps_closed_by_timeout;
      }) in
    if gap_timed_out t r.last_poll_tsc timeout_tsc then closed else r

unfoldable pub is_gap_suppressed : TscCalibration → Reconciler → OrderState → Reconciler × Bool
unfolding close_timed_out
is_gap_suppressed cal r os =
    let timeout_tsc = ns_to_cycles cal r.config.gap_close_timeout_ns in
    let r' =
      close_timed_out (close_timed_out r Source.primary timeout_tsc) Source.drop_copy timeout_tsc in
    if not r.config.enable_gap_suppression
    then (r, false)
    else if is_suppressed_by_gap os Source.primary r.primary_seq_tracker
    then (r, true)
    else if is_suppressed_by_gap os Source.drop_copy r.dropcopy_seq_tracker
    then (r, true)
    else (r', false)

unfoldable pub close_session_gap : Reconciler → Source → Reconciler
close_session_gap r source =
    let t = tracker_of r source in
    let (t', was_closed) = close_gap t in
    let r' = with_tracker r source t' in
    if not t.gap_open
    then r
    else if was_closed
    then counted r' (record (r.counters) { gaps_closed = inc64 r.counters.gaps_closed })
    else r'

-- One of the two blocks of `check_gap_timeouts`.
unfoldable pub check_gap_timeout : Reconciler → Source → ℕ → ℕ → Reconciler
unfolding close_session_gap
check_gap_timeout r source now_tsc gap_timeout_tsc =
    let t = tracker_of r source in
    let r' = close_session_gap r source in
    if t.gap_open && (t.gap_opened_tsc != 0 && ltb gap_timeout_tsc (sub64 now_tsc t.gap_opened_tsc))
    then counted r' (record (r'.counters) { gap_timeouts = inc64 r'.counters.gap_timeouts })
    else r

unfoldable pub check_gap_timeouts : TscCalibration → Reconciler → ℕ → Reconciler
unfolding check_gap_timeout
check_gap_timeouts cal r now_tsc =
    let gap_timeout_tsc = ns_to_cycles cal r.config.gap_timeout_ns in
    check_gap_timeout (check_gap_timeout r Source.primary now_tsc gap_timeout_tsc) Source.drop_copy
      now_tsc gap_timeout_tsc
