-- ===== src/Timer.antt =====
-- src/core/recon_timer.hpp: the deadline of an order. A timer is cancelled by a new generation; its
-- entry stays on the wheel and is skipped when it expires.
use fx_dropcopy_primary_reco.Prelude.{ℕ, ◌<◌, ◌≡◌, Bool, true, false, arith, ◌==◌, inc32}
use fx_dropcopy_primary_reco.Order.{OrderState}
use fx_dropcopy_primary_reco.Wheel.{WheelTimer, schedule}

unfoldable pub schedule_recon_deadline :
    WheelTimer → OrderState → ℕ → WheelTimer × OrderState × Bool
schedule_recon_deadline w os deadline_tsc =
    let generation : ℕ = inc32 os.timer_generation in
    let (w', done) = schedule w os.key generation deadline_tsc in
    (w', record os { timer_generation = generation; recon_deadline_tsc = deadline_tsc }, done)

unfoldable pub cancel_recon_deadline : OrderState → OrderState
cancel_recon_deadline os = record os {
  timer_generation = inc32 os.timer_generation;
  recon_deadline_tsc = 0;
}

unfoldable pub refresh_recon_deadline : WheelTimer → OrderState → ℕ → WheelTimer × OrderState × Bool
unfolding schedule_recon_deadline
refresh_recon_deadline w os new_deadline_tsc = schedule_recon_deadline w os new_deadline_tsc

unfoldable pub is_timer_valid : OrderState → ℕ → Bool
is_timer_valid os scheduled_generation = os.timer_generation == scheduled_generation

-- The timer that an order had before it was cancelled or scheduled again is no longer valid; the one
-- that was scheduled is.
cancel_invalidates :
    (w : WheelTimer) (os : OrderState) (deadline : ℕ)
    → os.timer_generation < 4_294_967_296
    → (is_timer_valid (cancel_recon_deadline os) os.timer_generation ≡ false)
      × (is_timer_valid (schedule_recon_deadline w os deadline).1 os.timer_generation ≡ false)
      × (is_timer_valid (schedule_recon_deadline w os deadline).1 (inc32 os.timer_generation)
          ≡ true)
unfolding is_timer_valid cancel_recon_deadline schedule_recon_deadline
cancel_invalidates w os deadline h = ground arith
