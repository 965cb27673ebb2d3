-- ===== src/Ring/Refine.antt =====
-- A ring of src/ingest/spsc_ring.hpp is a first-in-first-out queue of one entry less than its cells.
use native.Mathlib.Nat.{mod-eq_of_lt, mod_self}
use fx_dropcopy_primary_reco.Prelude.{
  ℕ, suc, ◌+◌, ◌-◌, ◌%◌, ◌^◌, ◌<◌, ◌≡◌, ◌≢◌, ap, ◌∙◌, Bool, true, false, not, List, [], ◌∷◌, ◌++◌,
  arith, length, set, length-set, length-replicate, bit_and_mask, pow-pos, ltb, leb, ◌==◌,
  if◌then◌else◌, Bool-cases, inl, inr, ltb→lt,
}
use fx_dropcopy_primary_reco.Ring.{SpscRing, make, try_push, try_pop, size_approx, increment}
use fx_dropcopy_primary_reco.Ring.Window.{window, window_pop, window-set, length-window, wrap}

-- A queue of at most `limit` entries, oldest first.
module _ {ℓ} {T : Type ℓ} where
  unfoldable pub enqueue : ℕ → List T → T → List T × Bool
  enqueue limit q v = if ltb (length q) limit then (q ++ v ∷ [], true) else (q, false)

  unfoldable pub dequeue : List T → T → List T × T × Bool
  dequeue [] out = ([], out, false)
  dequeue (x ∷ q) out = (q, x, true)

pub increment-mod : (k i : ℕ) → increment k i ≡ (i + 1) % 2 ^ k
increment-mod k i = bit_and_mask k (i + 1)

pub increment-lt : (k i : ℕ) → increment k i < 2 ^ k
increment-lt k i = let p = pow-pos k in rw increment-mod (grind arith)

module _ {ℓ} {T : Type ℓ} (k : ℕ) where
  pub record IsValid (r : SpscRing T) : Type ℓ where
    pub cells : length r.buffer ≡ 2 ^ k
    pub head_in : r.head < 2 ^ k
    pub tail_in : r.tail < 2 ^ k

  pub make-IsValid : (d : T) → IsValid (make k d)
  unfolding make
  make-IsValid d = record {
    cells = length-replicate (2 ^ k) d;
    head_in = pow-pos k;
    tail_in = pow-pos k;
  }

  pub try_push-IsValid : (r : SpscRing T) (v : T) → IsValid r → IsValid (try_push k r v).0
  unfolding try_push
  try_push-IsValid r v w = ground (arith, length-set r.buffer r.head v, increment-lt k r.head)

  pub try_pop-IsValid : (r : SpscRing T) (out : T) → IsValid r → IsValid (try_pop k r out).0
  unfolding try_pop
  try_pop-IsValid r out w = ground (arith, increment-lt k r.tail)

  module _ (d : T) where
    -- What the ring holds.
    abbrev pub contents : SpscRing T → List T
    contents r = window d (2 ^ k) r.buffer r.tail (size_approx k r)

    pub length-contents : (r : SpscRing T) → length (contents r) ≡ size_approx k r
    length-contents r = length-window d (2 ^ k) r.buffer r.tail (size_approx k r)

    size-lt : (r : SpscRing T) → IsValid r → size_approx k r < 2 ^ k
    unfolding size_approx
    size-lt r w = ground arith

    -- The cell that a push writes is the one behind the contents.
    head-eq : (r : SpscRing T) → IsValid r → r.head ≡ (r.tail + size_approx k r) % 2 ^ k
    unfolding size_approx
    head-eq r w = elim (Bool-cases (leb r.tail r.head)) [
      | inl p ↦
          let e : r.tail + (r.head - r.tail) ≡ r.head = ground arith in
          rw (p, e, mod-eq_of_lt w.head_in)
      | inr p ↦
          let e : r.tail + (2 ^ k - (r.tail - r.head)) ≡ r.head + 2 ^ k = ground arith in
          rw (p, e) (omega (arith, wrap (2 ^ k) (r.head + 2 ^ k) (omega arith) (omega arith)))
    ]

    -- Full, by the code's test, is all but one cell.
    full-eq :
        (r : SpscRing T)
        → IsValid r
        → (increment k r.head == r.tail) ≡ not (ltb (size_approx k r) (2 ^ k - 1))
    unfolding size_approx
    full-eq r w = elim (Bool-cases (ltb (r.head + 1) (2 ^ k))) [
      | inl p ↦
          let lt : r.head + 1 < 2 ^ k = ground arith in
          rw (increment-mod, mod-eq_of_lt lt) (ground arith)
      | inr p ↦
          let e : r.head + 1 ≡ 2 ^ k = ground arith in
          rw (increment-mod, e, mod_self) (ground arith)
    ]

    size-pushed :
        (r : SpscRing T) (buf : List T)
        → IsValid r
        → size_approx k r < 2 ^ k - 1
        → size_approx k (record r { head = increment k r.head; buffer = buf })
          ≡ suc (size_approx k r)
    unfolding size_approx
    size-pushed r buf w h = elim (Bool-cases (ltb (r.head + 1) (2 ^ k))) [
      | inl p ↦
          let lt : r.head + 1 < 2 ^ k = ground arith in
          rw (increment-mod, mod-eq_of_lt lt) (ground arith)
      | inr p ↦
          let e : r.head + 1 ≡ 2 ^ k = ground arith in
          rw (increment-mod, e, mod_self) (ground arith)
    ]

    size-popped :
        (r : SpscRing T)
        → IsValid r
        → r.tail ≢ r.head
        → (size_approx k (record r { tail = increment k r.tail }) ≡ size_approx k r - 1)
          × (size_approx k r ≢ 0)
    unfolding size_approx
    size-popped r w h = elim (Bool-cases (ltb (r.tail + 1) (2 ^ k))) [
      | inl p ↦
          let lt : r.tail + 1 < 2 ^ k = ground arith in
          rw (increment-mod, mod-eq_of_lt lt) (ground arith)
      | inr p ↦
          let e : r.tail + 1 ≡ 2 ^ k = ground arith in
          rw (increment-mod, e, mod_self) (ground arith)
    ]

    contents-pushed :
        (r : SpscRing T) (v : T)
        → IsValid r
        → size_approx k r < 2 ^ k - 1
        → contents (record r { head = increment k r.head; buffer = set r.buffer r.head v })
          ≡ contents r ++ v ∷ []
    contents-pushed r v w h = rw (size-pushed r (set r.buffer r.head v) w h) (
        window-set d (2 ^ k) r.buffer v (size_approx k r) r.tail r.head (omega arith) w.tail_in
          (omega arith) (head-eq r w))

    -- `try_push` does what the queue does: it appends the entry, or refuses it when 2 ^ k - 1 entries
    -- are held, and then holds what it held.
    pub try_push_refines :
        (r : SpscRing T) (v : T)
        → IsValid r
        → let (r', done) = try_push k r v in
          (contents r', done) ≡ enqueue (2 ^ k - 1) (contents r) v
    unfolding try_push enqueue
    try_push_refines r v w = elim (Bool-cases (ltb (size_approx k r) (2 ^ k - 1))) [
      | inl room ↦
          let free : (increment k r.head == r.tail) ≡ false = full-eq r w ∙ ap not room in
          rw (free, length-contents r, room)
            (ap (λ q. (q, true)) (contents-pushed r v w (ltb→lt _ _ room)))
      | inr full ↦
          let shut : (increment k r.head == r.tail) ≡ true = full-eq r w ∙ ap not full in
          rw (shut, length-contents r, full)
    ]

    -- `try_pop` does what the queue does: it takes the oldest entry, or reports an empty ring and
    -- leaves `out` as it was.
    pub try_pop_refines :
        (r : SpscRing T)
        → IsValid r
        → let (r', out, done) = try_pop k r d in (contents r', out, done) ≡ dequeue (contents r) d
    unfolding try_pop window dequeue
    try_pop_refines r w = elim (Bool-cases (r.tail == r.head)) [
      | inl same ↦
          let none_held : size_approx k r ≡ 0 = unfold size_approx in ground arith in
          rw (same, none_held)
      | inr other ↦
          let (shorter, some_held) = size-popped r w (ground arith) in
          rw (
            other,
            shorter,
            increment-mod,
            window_pop d (2 ^ k) r.buffer r.tail (size_approx k r) some_held,
          )
    ]
