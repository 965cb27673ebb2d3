-- ===== src/Ring.antt =====
-- src/ingest/spsc_ring.hpp: the ring between the thread of a feed and the reconciler. Each operation
-- is taken as one step: the producer alone writes `head`, the consumer alone `tail`.
pub mod Window
pub mod Refine
pub mod Session
use fx_dropcopy_primary_reco.Prelude.{
  ℕ, ◌+◌, ◌-◌, ◌^◌, Bool, true, false, List, if◌then◌else◌, leb, ◌==◌, get_or, set, replicate,
  bit_and,
}

-- The capacity is 2 ^ k: a `static_assert` wants a power of two.
pub record SpscRing {ℓ} (T : Type ℓ) : Type ℓ where
  pub head : ℕ
  pub tail : ℕ
  pub buffer : List T

abbrev pub capacity : ℕ → ℕ
capacity k = 2 ^ k

abbrev pub increment : ℕ → ℕ → ℕ
increment k idx = bit_and (idx + 1) (2 ^ k - 1)

module _ {ℓ} {T : Type ℓ} where
  -- The buffer holds default values.
  unfoldable pub make : ℕ → T → SpscRing T
  make k d = record { head = 0; tail = 0; buffer = replicate (2 ^ k) d }

  unfoldable pub try_push : ℕ → SpscRing T → T → SpscRing T × Bool
  try_push k r v =
      let next_head = increment k r.head in
      if next_head == r.tail
      then (r, false)
      else (record r { head = next_head; buffer = set r.buffer r.head v }, true)

  -- The new ring, what `out` holds then, and the result.
  unfoldable pub try_pop : ℕ → SpscRing T → T → SpscRing T × T × Bool
  try_pop k r out =
      if r.tail == r.head
      then (r, out, false)
      else (record r { tail = increment k r.tail }, get_or r.buffer r.tail out, true)

  unfoldable pub size_approx : ℕ → SpscRing T → ℕ
  size_approx k r = if leb r.tail r.head then r.head - r.tail else capacity k - (r.tail - r.head)
