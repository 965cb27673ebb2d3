-- ===== src/Store.antt =====
-- src/core/order_state_store.hpp and src/core/order_state_store.cpp: the open-addressed table of the
-- orders. An `OrderState *` is the bucket that holds the state; each state is held by one bucket.
pub mod Probe
pub mod View
pub mod Upsert
use fx_dropcopy_primary_reco.Prelude.{
  ℕ, zero, suc, ◌+◌, ◌-◌, ◌*◌, ◌/◌, Bool, true, false, ◌&&◌, List, if◌then◌else◌, ltb, ◌==◌, Option,
  none, some, get_or, set, replicate, bit_and, inc64, u64, min,
}
use fx_dropcopy_primary_reco.Event.{ExecEvent}
use fx_dropcopy_primary_reco.Order.{OrderState, fresh_order, make_order_key}
use fx_dropcopy_primary_reco.Arena.{Arena, allocate}
use fx_dropcopy_primary_reco.Arena

-- `sizeof(OrderState)` and `alignof(OrderState)`, which the compiler chooses.
pub record Layout : Type 0 where
  pub size_of : ℕ
  pub align_of : ℕ

-- 2 ^ 64 - 1
abbrev pub empty_key : ℕ
empty_key = 18_446_744_073_709_551_615

abbrev pub default_probe_limit : ℕ
default_probe_limit = 64

pub record OrderStateStore : Type 0 where
  pub arena : Arena
  pub keys : List ℕ
  pub values : List (Option OrderState)
  pub bucket_count : ℕ
  pub size : ℕ
  pub overflow_count : ℕ
  pub max_probe : ℕ

-- The loop of `next_power_of_two`, which doubles at most 63 times; `none` when the fuel runs out.
unfoldable pub doubling : ℕ → ℕ → ℕ → Option ℕ
doubling zero v n = none
doubling (suc fuel) v n =
    let rest = doubling fuel v (n * 2) in
    if ltb n v && ltb n 9_223_372_036_854_775_807 then rest else some n

-- What the constructor throws.
pub data StoreError : Type 0 where
  invalid_argument runtime_error : StoreError

pub data Built {ℓ} (A : Type ℓ) : Type ℓ where
  built : A → Built A
  throws : StoreError → Built A

unfoldable pub next_power_of_two : ℕ → Built ℕ
unfolding doubling
next_power_of_two v =
    if v == 0 then built 1 else if bit_and v (v - 1) == 0 then built v else elim (doubling 65 v 1) [
      | none ↦ throws StoreError.runtime_error
      | some n ↦ if ltb n v then throws StoreError.runtime_error else built n
    ]

unfoldable pub reset_epoch : OrderStateStore → OrderStateStore
unfolding Arena.reset
reset_epoch st = record st {
  arena = Arena.reset st.arena;
  keys = replicate st.bucket_count empty_key;
  values = replicate st.bucket_count none;
  size = 0;
  overflow_count = 0;
}

abbrev pub desired_buckets : ℕ → ℕ
desired_buckets capacity_hint =
    if ltb 9_223_372_036_854_775_807 capacity_hint
    then 18_446_744_073_709_551_615
    else capacity_hint * 2

-- The constructor.
unfoldable pub make : Arena → ℕ → Built OrderStateStore
unfolding next_power_of_two reset_epoch
make arena capacity_hint =
    if capacity_hint == 0
    then throws StoreError.invalid_argument
    else elim (next_power_of_two (desired_buckets capacity_hint)) [
      | throws e ↦ throws e
      | built n ↦
          if ltb n 2
          then throws StoreError.runtime_error
          else built (
              reset_epoch (record {
                arena = arena;
                keys = replicate n 0;
                values = replicate n none;
                bucket_count = n;
                size = 0;
                overflow_count = 0;
                max_probe = min n default_probe_limit;
              }))
    ]

abbrev pub mask : OrderStateStore → ℕ
mask st = st.bucket_count - 1

-- Where the probing of `upsert` ends: at the key, at an empty bucket, or after `max_probe` buckets.
pub data Slot : Type 0 where
  found vacant : ℕ → Slot
  exhausted : Slot

unfoldable pub probe : List ℕ → ℕ → ℕ → ℕ → ℕ → Slot
probe keys m key zero idx = exhausted
probe keys m key (suc n) idx =
    let bucket_key = get_or keys idx empty_key in
    let rest = probe keys m key n (bit_and (idx + 1) m) in
    if bucket_key == empty_key then vacant idx else if bucket_key == key then found idx else rest

abbrev pub overflowed : OrderStateStore → OrderStateStore
overflowed st = record st { overflow_count = inc64 st.overflow_count }

-- A new state in the empty bucket `idx`, if the arena has room for it.
unfoldable pub insert_at : Layout → OrderStateStore → ℕ → ℕ → OrderStateStore × Option ℕ
insert_at l st key idx =
    let (arena, ptr) = allocate st.arena l.size_of l.align_of in
    elim ptr [
      | none ↦ (overflowed (record st { arena = arena }), none)
      | some addr ↦ (
        record st {
          arena = arena;
          keys = set st.keys idx key;
          values = set st.values idx (some (fresh_order key));
          size = inc64 st.size;
        },
        some idx,
      )
    ]

unfoldable pub upsert_key : Layout → OrderStateStore → ℕ → OrderStateStore × Option ℕ
unfolding insert_at
upsert_key l st key =
    if key == empty_key
    then (overflowed st, none)
    else elim (probe st.keys (mask st) key st.max_probe (bit_and key (mask st))) [
      | found idx ↦ (st, some idx)
      | vacant idx ↦ insert_at l st key idx
      | exhausted ↦ (overflowed st, none)
    ]

-- The bucket of the event's order, or a null pointer.
unfoldable pub upsert : Layout → OrderStateStore → ExecEvent → OrderStateStore × Option ℕ
unfolding upsert_key make_order_key
upsert l st ev = upsert_key l st (make_order_key ev)

unfoldable pub find_loop : List ℕ → ℕ → ℕ → ℕ → ℕ → Option ℕ
find_loop keys m key zero idx = none
find_loop keys m key (suc n) idx =
    let bucket_key = get_or keys idx empty_key in
    let rest = find_loop keys m key n (bit_and (idx + 1) m) in
    if bucket_key == empty_key then none else if bucket_key == key then some idx else rest

unfoldable pub find : OrderStateStore → ℕ → Option ℕ
unfolding find_loop
find st key =
    if key == empty_key
    then none
    else find_loop st.keys (mask st) key st.max_probe (bit_and key (mask st))

-- Reading and writing through a pointer.
abbrev pub deref : OrderStateStore → ℕ → Option OrderState
deref st idx = get_or st.values idx none

unfoldable pub write : OrderStateStore → ℕ → OrderState → OrderStateStore
write st idx os = record st { values = set st.values idx (some os) }
