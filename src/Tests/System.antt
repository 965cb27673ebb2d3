-- ===== src/Tests/System.antt =====
-- The daemon and the logger at concrete inputs.
use fx_dropcopy_primary_reco.Prelude.{
  ◌-◌, ◌/◌, ◌<◌, ◌≤◌, ◌≡◌, refl, inl, arith, some, List, [], ◌∷◌,
}
use fx_dropcopy_primary_reco.Event.{Source}
use fx_dropcopy_primary_reco.Clock.{initial, ns_to_cycles, set_tsc_freq_hz}
use fx_dropcopy_primary_reco.Ring
use fx_dropcopy_primary_reco.Ring.{size_approx}
use fx_dropcopy_primary_reco.Wheel
use fx_dropcopy_primary_reco.Wheel.{WheelTimer}
use fx_dropcopy_primary_reco.Wheel.Start.{make-Good}
use fx_dropcopy_primary_reco.Store.{reset_epoch}
use fx_dropcopy_primary_reco.Store.Upsert.{reset_epoch-IsValid}
use fx_dropcopy_primary_reco.Reconciler.{Reconciler, ring_bits}
use fx_dropcopy_primary_reco.Reconciler.Deadline.{poll_timers}
use fx_dropcopy_primary_reco.Reconciler.Polling.{IsReady, IsPolled, poll_timers_total}
use fx_dropcopy_primary_reco.Reconciler.Run.{Loop, round}
use fx_dropcopy_primary_reco.Reconciler.Rounds.{Room, Takes, at_most_one, consume-Takes}
use fx_dropcopy_primary_reco.Reconciler.Turns.{round-Takes}
use fx_dropcopy_primary_reco.Aeron.{read_wire, write_wire}
use fx_dropcopy_primary_reco.Daemon.{Daemon, start_daemon, Step, run}
use fx_dropcopy_primary_reco.Daemon.Conserved.{
  IsUp, AllFit, Accounts, waiting, backlog, account, run-Accounts, start_daemon-IsUp,
}
use fx_dropcopy_primary_reco.Tests.Data.{layout, small_store, recon, message}
use fx_dropcopy_primary_reco.Tests.Recon.{recon-IsSound}

abbrev first_wheel : WheelTimer
first_wheel = Wheel.make initial 0

recon-IsReady :
    IsReady initial 9_000_000 recon first_wheel
    × (9_000_000 / first_wheel.tick_tsc - first_wheel.current_tick < 4)
unfolding Wheel.make ns_to_cycles set_tsc_freq_hz initial
recon-IsReady = (
  record {
    its_wheel = refl;
    good = make-Good initial 0;
    behind = omega arith;
    later = omega arith;
  },
  omega arith,
)

poll_timers_total_example :
    (r : Reconciler) × (poll_timers initial 4 1025 recon 9_000_000 ≡ some r)
    × IsPolled 9_000_000 2 recon r first_wheel
poll_timers_total_example =
    poll_timers_total initial 2 9_000_000 4 1025 recon first_wheel recon-IsSound recon-IsReady.0
      (omega arith) recon-IsReady.1 (omega arith)

abbrev new_daemon : Daemon
new_daemon = start_daemon (reset_epoch small_store) 10 11

new_daemon-IsUp : IsUp 2 new_daemon
new_daemon-IsUp =
    start_daemon-IsUp 2 (reset_epoch small_store) 10 11 (reset_epoch-IsValid 2 small_store refl)

nothing_yet : account new_daemon ≡ 0
unfolding start_daemon Ring.size_approx
nothing_yet = refl

new_daemon-Room : Room 2 new_daemon.loop.recon
new_daemon-Room =
    (omega (arith, nothing_yet), omega (arith, nothing_yet), omega (arith, nothing_yet))

round-Takes_example :
    (s : Loop) × (round layout initial 0 0 new_daemon.loop 20 ≡ some s)
    × Takes 2
        (at_most_one (size_approx ring_bits new_daemon.loop.primary))
        (at_most_one (size_approx ring_bits new_daemon.loop.dropcopy))
        new_daemon.loop
        s
round-Takes_example =
    round-Takes layout initial 2 0 0 new_daemon.loop 20 new_daemon-IsUp.running new_daemon-Room (
      inl (
        (consume-Takes layout initial 2 new_daemon.loop new_daemon-IsUp.running
            new_daemon-Room).no_wheel
          new_daemon-IsUp.no_wheel))

-- A message, a fragment that is too short, and a round.
abbrev three_steps : List Step
three_steps =
    Step.fragment Source.primary 15 (write_wire message)
    ∷ Step.fragment Source.drop_copy 16 (1 ∷ 2 ∷ [])
    ∷ Step.polls 20
    ∷ []

three_steps-AllFit : AllFit three_steps
unfolding read_wire write_wire
three_steps-AllFit = (omega arith, (omega arith, tt))

run-Accounts_example :
    (d : Daemon) × (run layout initial 0 0 new_daemon three_steps ≡ some d)
    × IsUp 2 d
    × Accounts 1 1 new_daemon d
    × ((feed : Source) → waiting feed d ≤ backlog feed (waiting feed new_daemon) three_steps)
run-Accounts_example =
    run-Accounts layout initial 2 new_daemon three_steps new_daemon-IsUp three_steps-AllFit
      (omega (arith, nothing_yet))
