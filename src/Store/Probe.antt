-- ===== src/Store/Probe.antt =====
-- The probing of src/core/order_state_store.cpp.
use native.Mathlib.Nat.{mod-lt}
use fx_dropcopy_primary_reco.Prelude.{
  ℕ, zero, suc, ◌+◌, ◌-◌, ◌<◌, ◌≡◌, ◌≢◌, refl, List, arith, Option, none, some, get_or, set, length,
  ◌^◌, bit_and_mask, pow-pos, get_or-set_self, get_or-set_ne, bit_and,
}
use fx_dropcopy_primary_reco.Store.{Slot, found, vacant, exhausted, probe, find_loop, empty_key}

-- The bucket that a probe finds.
abbrev pub hit : Slot → Option ℕ
hit (found idx) = some idx
hit (vacant idx) = none
hit exhausted = none

module _ (m key : ℕ) where
  -- The loops of `find` and of `upsert` look at the same buckets.
  pub find_loop-probe :
      (keys : List ℕ) (n idx : ℕ) → find_loop keys m key n idx ≡ hit (probe keys m key n idx)
  unfolding find_loop probe
  find_loop-probe keys zero idx = refl
  find_loop-probe keys (suc n) idx = ground (arith, find_loop-probe keys n (bit_and (idx + 1) m))

  pub found-key :
      (keys : List ℕ) (n idx i : ℕ)
      → probe keys m key n idx ≡ found i
      → (get_or keys i empty_key ≡ key) × (key ≢ empty_key)
  unfolding probe
  found-key keys zero idx i e = cc
  found-key keys (suc n) idx i e = ground (arith, found-key keys n (bit_and (idx + 1) m) i)

  pub vacant-key :
      (keys : List ℕ) (n idx i : ℕ)
      → probe keys m key n idx ≡ vacant i
      → get_or keys i empty_key ≡ empty_key
  unfolding probe
  vacant-key keys zero idx i e = cc
  vacant-key keys (suc n) idx i e = ground (arith, vacant-key keys n (bit_and (idx + 1) m) i)

  -- A key written to the empty bucket where its probing ended is found there.
  pub probe-set_self :
      (keys : List ℕ) (n idx i : ℕ)
      → key ≢ empty_key
      → i < length keys
      → probe keys m key n idx ≡ vacant i
      → probe (set keys i key) m key n idx ≡ found i
  unfolding probe
  probe-set_self keys zero idx i h k e = cc
  probe-set_self keys (suc n) idx i h k e = ground (
    arith,
    probe-set_self keys n (bit_and (idx + 1) m) i h k,
    vacant-key keys n (bit_and (idx + 1) m) i,
    get_or-set_self keys i key empty_key k,
    get_or-set_ne keys i idx key empty_key,
  )

  -- A write to an empty bucket does not lose a key that was found.
  pub probe-set_other :
      (keys : List ℕ) (n idx i j x : ℕ)
      → get_or keys i empty_key ≡ empty_key
      → probe keys m key n idx ≡ found j
      → probe (set keys i x) m key n idx ≡ found j
  unfolding probe
  probe-set_other keys zero idx i j x h e = cc
  probe-set_other keys (suc n) idx i j x h e = ground (
    arith,
    probe-set_other keys n (bit_and (idx + 1) m) i j x h,
    get_or-set_ne keys i idx x empty_key,
  )

pub masked-lt : (k a : ℕ) → bit_and a (2 ^ k - 1) < 2 ^ k
masked-lt k a = rw (bit_and_mask k a) (mod-lt a (pow-pos k))

-- Probing stays in a table of 2 ^ k buckets.
pub vacant-lt :
    (k key : ℕ) (keys : List ℕ) (n idx i : ℕ)
    → idx < 2 ^ k
    → probe keys (2 ^ k - 1) key n idx ≡ vacant i
    → i < 2 ^ k
unfolding probe
vacant-lt k key keys zero idx i h e = cc
vacant-lt k key keys (suc n) idx i h e =
    ground (arith, vacant-lt k key keys n (bit_and (idx + 1) (2 ^ k - 1)) i (masked-lt k (idx + 1)))
