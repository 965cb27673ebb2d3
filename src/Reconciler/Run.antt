-- ===== src/Reconciler/Run.antt =====
-- src/core/reconciler.cpp: the loop of `Reconciler::run`. A round reads the clock once, as `now`; the
-- threads of the two feeds push between the rounds.
use fx_dropcopy_primary_reco.Prelude.{
  ℕ, ◌*◌, ◌%◌, Bool, true, false, ◌||◌, Option, none, some, if◌then◌else◌, ltb, ◌==◌, max, sub64,
  u32,
}
use fx_dropcopy_primary_reco.Event.{ExecEvent, empty_event}
use fx_dropcopy_primary_reco.Clock.{TscCalibration, ns_to_cycles}
use fx_dropcopy_primary_reco.Ring.{SpscRing, try_pop}
use fx_dropcopy_primary_reco.Store.{Layout}
use fx_dropcopy_primary_reco.Reconciler.{Reconciler, ring_bits}
use fx_dropcopy_primary_reco.Reconciler.Gaps.{check_gap_timeouts}
use fx_dropcopy_primary_reco.Reconciler.Deadline.{poll_timers}
use fx_dropcopy_primary_reco.Reconciler.Process.{process_event}

-- The reconciler, the two rings that it reads, and the local variables of `run`.
pub record Loop : Type 0 where
  pub recon : Reconciler
  pub primary : SpscRing ExecEvent
  pub dropcopy : SpscRing ExecEvent
  pub primary_evt : ExecEvent
  pub dropcopy_evt : ExecEvent
  pub backoff : ℕ
  pub last_gap_check_tsc : ℕ

-- Before the loop, with the two readings of the clock.
unfoldable pub enter : Reconciler → SpscRing ExecEvent → SpscRing ExecEvent → ℕ → ℕ → Loop
enter r primary dropcopy tsc tsc' = record {
  recon = record r { last_poll_tsc = tsc };
  primary = primary;
  dropcopy = dropcopy;
  primary_evt = empty_event;
  dropcopy_evt = empty_event;
  backoff = 0;
  last_gap_check_tsc = tsc';
}

unfoldable pub gap_check_interval_ns : ℕ
gap_check_interval_ns = 1_000_000_000

-- `if (primary_.try_pop(primary_evt)) { ... }`, with what `consumed` becomes.
unfoldable pub consume_primary : Layout → TscCalibration → Loop → Loop × Bool
consume_primary l cal s =
    let (ring, ev, popped) = try_pop ring_bits s.primary s.primary_evt in
    if popped
    then (
      record s {
        primary = ring;
        primary_evt = ev;
        recon = record (process_event l cal s.recon ev) { last_poll_tsc = ev.ingest_tsc };
      },
      true,
    )
    else (s, false)

unfoldable pub consume_dropcopy : Layout → TscCalibration → Loop → Loop × Bool
consume_dropcopy l cal s =
    let (ring, ev, popped) = try_pop ring_bits s.dropcopy s.dropcopy_evt in
    let r = process_event l cal s.recon ev in
    if popped
    then (
      record s {
        dropcopy = ring;
        dropcopy_evt = ev;
        recon = record r { last_poll_tsc = max r.last_poll_tsc ev.ingest_tsc };
      },
      true,
    )
    else (s, false)

unfoldable pub check_gaps : TscCalibration → Loop → ℕ → Loop
unfolding gap_check_interval_ns
check_gaps cal s now =
    if ltb (ns_to_cycles cal gap_check_interval_ns) (sub64 now s.last_gap_check_tsc)
    then record s { recon = check_gap_timeouts cal s.recon now; last_gap_check_tsc = now }
    else s

-- The number of pauses in this round.
unfoldable pub back_off : Bool → ℕ → ℕ
back_off true backoff = 0
back_off false backoff =
    if backoff == 0 then 1 else if ltb backoff 256 then (backoff * 2) % u32 else backoff

-- The state when the timers are polled, and whether an event was consumed.
unfoldable pub consume : Layout → TscCalibration → Loop → Loop × Bool
unfolding consume_primary consume_dropcopy
consume l cal s =
    let (s₁, first) = consume_primary l cal s in
    let (s₂, second) = consume_dropcopy l cal s₁ in (s₂, first || second)

unfoldable pub after_poll : TscCalibration → ℕ → Loop → Bool → Option Reconciler → Option Loop
unfolding check_gaps back_off
after_poll cal now s consumed none = none
after_poll cal now s consumed (some r) =
    some (record (check_gaps cal (record s { recon = r }) now) {
      backoff = back_off consumed s.backoff;
    })

-- The body of the loop; `none` when the fuel for the timers runs out.
unfoldable pub round : Layout → TscCalibration → ℕ → ℕ → Loop → ℕ → Option Loop
unfolding consume after_poll
round l cal ticks fuel s now =
    let (s', consumed) = consume l cal s in
    after_poll cal now s' consumed (poll_timers cal ticks fuel s'.recon now)
