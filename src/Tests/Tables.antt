-- ===== src/Tests/Tables.antt =====
-- The store, the wheel, the rings, the vector and the arena at concrete inputs.
use mathlib.Core.List.{Perm}
use fx_dropcopy_primary_reco.Prelude.{
  ℕ, ◌+◌, ◌/◌, ◌≤◌, ◌≡◌, refl, arith, Option, none, some, inc64, List, [], ◌∷◌,
}
use fx_dropcopy_primary_reco.Clock.{initial, set_tsc_freq_hz, ns_to_cycles}
use fx_dropcopy_primary_reco.Ring
use fx_dropcopy_primary_reco.Ring.{try_push, try_pop}
use fx_dropcopy_primary_reco.Ring.Refine.{make-IsValid, contents}
use fx_dropcopy_primary_reco.Ring.Session.{Op, push, pop, ring_run, queue_run, ring_run_refines}
use fx_dropcopy_primary_reco.FixedVec.{FixedVec, swap_erase, at}
use fx_dropcopy_primary_reco.FixedVec.Live.{live, live-swap_erase}
use fx_dropcopy_primary_reco.Arena.{allocate, align_up}
use fx_dropcopy_primary_reco.Arena.Disjoint.{Block, allocate_disjoint}
use fx_dropcopy_primary_reco.Arena.Disjoint
use fx_dropcopy_primary_reco.Wheel.{WheelTimer, Host, poll_expired}
use fx_dropcopy_primary_reco.Wheel
use fx_dropcopy_primary_reco.Wheel.Timely.{Good}
use fx_dropcopy_primary_reco.Wheel.Poll.{IsTame}
use fx_dropcopy_primary_reco.Wheel.Complete.{Due, poll_expired_total}
use fx_dropcopy_primary_reco.Wheel.Start.{make-Good}
use fx_dropcopy_primary_reco.Store.{
  OrderStateStore, reset_epoch, upsert_key, insert_at, probe, empty_key,
}
use fx_dropcopy_primary_reco.Store.View.{Upserted}
use fx_dropcopy_primary_reco.Store.Upsert.{
  reset_epoch-IsValid, upsert_key-Upserted, upsert_key_refused,
}
use fx_dropcopy_primary_reco.Tests.Data.{layout, small_store, small_arena}

abbrev after_upsert : OrderStateStore × Option ℕ
after_upsert = upsert_key layout (reset_epoch small_store) 6

runs : after_upsert ≡ (after_upsert.0, some 2)
unfolding upsert_key insert_at probe reset_epoch allocate align_up
runs = refl

upsert_key-Upserted_example : Upserted 2 (reset_epoch small_store) after_upsert.0 6 2
upsert_key-Upserted_example =
    upsert_key-Upserted layout 2 (reset_epoch small_store) after_upsert.0 6 2
      (reset_epoch-IsValid 2 small_store refl) runs

refuses :
    upsert_key layout (reset_epoch small_store) empty_key
    ≡ (record (reset_epoch small_store) { overflow_count = 1 }, none)
unfolding upsert_key reset_epoch
refuses = refl

upsert_key_refused_example :
    let st = reset_epoch small_store in
    let st' : OrderStateStore = record st { overflow_count = 1 } in
    (st'.keys ≡ st.keys)
    × (st'.values ≡ st.values)
    × (st'.size ≡ st.size)
    × (st'.overflow_count ≡ inc64 st.overflow_count)
upsert_key_refused_example =
    upsert_key_refused layout (reset_epoch small_store)
      (record (reset_epoch small_store) { overflow_count = 1 }) empty_key refuses

-- A host whose callback schedules nothing.
abbrev quiet : Host WheelTimer
quiet = record { wheel = λ w. w; with_wheel = λ w w'. w'; on_expired = λ w key generation. w }

abbrev Any : WheelTimer → Type 0
Any w = Unit

quiet-IsTame : IsTame quiet 9_000_000 Any
quiet-IsTame = record {
  wheel-with = λ w w'. refl;
  with_wheel-Inv = λ w w' i. i;
  on_expired-Inv = λ w key generation i g h. i;
  callback = λ w key generation i g h. record {
    good = g;
    same_tick = refl;
    same_time = refl;
    same_bucket = refl;
  };
}

abbrev wheel₀ : WheelTimer
wheel₀ = Wheel.make initial 0

wheel₀-behind : (wheel₀.current_tick ≡ 0) × (9_000_000 / wheel₀.tick_tsc ≡ 3)
unfolding Wheel.make ns_to_cycles set_tsc_freq_hz initial
wheel₀-behind = (refl, refl)

poll_expired_total_example :
    (w : WheelTimer) × (poll_expired quiet 9_000_000 4 1025 wheel₀ ≡ some w)
    × (w.current_tick ≡ 9_000_000 / wheel₀.tick_tsc)
    × Any w
    × Good w
    × Due w
poll_expired_total_example =
    poll_expired_total quiet 9_000_000 Any quiet-IsTame (omega arith) 4 1025 wheel₀ tt
      (make-Good initial 0) (let (a, b) = wheel₀-behind in omega arith)
      (let (a, b) = wheel₀-behind in omega arith) (omega arith)

abbrev blank : ℕ
blank = 0

abbrev calls : List (Op ℕ)
calls = push 4 ∷ push 5 ∷ pop ∷ pop ∷ pop ∷ []

ring_run_refines_example :
    ring_run 2 blank (Ring.make 2 blank) calls
    ≡ queue_run 2 blank (contents 2 blank (Ring.make 2 blank)) calls
ring_run_refines_example = ring_run_refines 2 blank calls (Ring.make 2 blank) (make-IsValid 2 blank)

abbrev three : FixedVec ℕ
three = record { cells = 4 ∷ 5 ∷ 6 ∷ 0 ∷ []; size = 3 }

live-swap_erase_example : Perm (live three) (at three 1 0 ∷ live (swap_erase three 1 0))
live-swap_erase_example =
    live-swap_erase 4 three 1 0 (record { array = refl; fits = omega arith }) (omega arith)

small_arena-IsValid : Disjoint.IsValid 8 small_arena
small_arena-IsValid = record { inside = omega arith; addressable = omega arith }

allocates :
    (allocate small_arena 20 8 ≡ (record small_arena { offset = 20 }, some 4096))
    × (allocate (record small_arena { offset = 20 }) 30 8
        ≡ (record small_arena { offset = 54 }, some 4120))
unfolding allocate align_up
allocates = (refl, refl)

allocate_disjoint_example : (4096 + 20 ≤ 4120) × (4120 + 30 ≤ 4096 + 1024)
allocate_disjoint_example =
    allocate_disjoint small_arena (record small_arena { offset = 20 })
      (record small_arena { offset = 54 }) 20 30 8 4096 4120 (omega arith) small_arena-IsValid
      allocates.0 allocates.1
