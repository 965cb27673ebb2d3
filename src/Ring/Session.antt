-- ===== src/Ring/Session.antt =====
-- Any sequence of calls on a ring of src/ingest/spsc_ring.hpp.
use fx_dropcopy_primary_reco.Prelude.{ℕ, ◌-◌, ◌^◌, ◌≡◌, refl, ap, Bool, List, [], ◌∷◌}
use fx_dropcopy_primary_reco.Ring.{SpscRing, try_push, try_pop}
use fx_dropcopy_primary_reco.Ring.Refine.{
  IsValid, try_push-IsValid, try_pop-IsValid, contents, enqueue, dequeue, try_push_refines,
  try_pop_refines,
}

pub data Op {ℓ} (T : Type ℓ) : Type ℓ where
  push : T → Op T
  pop : Op T

-- What a call answers, with what a pop hands out.
pub data Reply {ℓ} (T : Type ℓ) : Type ℓ where
  pushed : Bool → Reply T
  popped : T → Bool → Reply T

module _ {ℓ} {T : Type ℓ} (k : ℕ) (d : T) where
  unfoldable pub ring_run : SpscRing T → List (Op T) → List (Reply T)
  ring_run r [] = []
  ring_run r (push v ∷ ops) = let (r', done) = try_push k r v in pushed done ∷ ring_run r' ops
  ring_run r (pop ∷ ops) = let (r', out, done) = try_pop k r d in popped out done ∷ ring_run r' ops

  unfoldable pub queue_run : List T → List (Op T) → List (Reply T)
  queue_run q [] = []
  queue_run q (push v ∷ ops) =
      let (q', done) = enqueue (2 ^ k - 1) q v in pushed done ∷ queue_run q' ops
  queue_run q (pop ∷ ops) = let (q', out, done) = dequeue q d in popped out done ∷ queue_run q' ops

  -- No sequence of calls tells a well-formed ring of 2 ^ k cells from the queue of its contents that
  -- holds 2 ^ k - 1 entries at most.
  pub ring_run_refines :
      (ops : List (Op T)) (r : SpscRing T)
      → IsValid k r
      → ring_run r ops ≡ queue_run (contents k d r) ops
  unfolding ring_run queue_run
  ring_run_refines [] r w = refl
  ring_run_refines (push v ∷ ops) r w = rw (← try_push_refines k d r v w) (
      ap (◌∷◌ (pushed (try_push k r v).1))
        (ring_run_refines ops (try_push k r v).0 (try_push-IsValid k r v w)))
  ring_run_refines (pop ∷ ops) r w = rw (← try_pop_refines k d r w) (
      ap (◌∷◌ (popped (try_pop k r d).1 (try_pop k r d).2))
        (ring_run_refines ops (try_pop k r d).0 (try_pop-IsValid k r d w)))
