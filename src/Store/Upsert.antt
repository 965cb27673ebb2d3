-- ===== src/Store/Upsert.antt =====
-- The operations of src/core/order_state_store.cpp on the table as a map.
use fx_dropcopy_primary_reco.Prelude.{
  ℕ, zero, suc, ◌^◌, ◌<◌, ◌≡◌, ◌≢◌, refl, sym, ap, ◌∙◌, subst, List, [], ◌∷◌, arith, ◌==◌, Option,
  none, some, get_or, set, length, length-set, get_or-set_self, get_or-set_ne, bit_and, Bool-cases,
  inl, inr, get_or-replicate, length-replicate, inc64,
}
use fx_dropcopy_primary_reco.Order.{OrderState, fresh_order}
use fx_dropcopy_primary_reco.Arena.{Arena, allocate}
use fx_dropcopy_primary_reco.Store.{
  OrderStateStore, Layout, Slot, found, vacant, exhausted, upsert_key, insert_at, deref, mask,
  empty_key, write, reset_epoch,
}
use fx_dropcopy_primary_reco.Store.Probe.{found-key}
use fx_dropcopy_primary_reco.Store.View.{
  slot_of, find-slot, IsValid, Upserted, inserted-IsValid, find-inserted, value-at,
}

found_here :
    (k : ℕ) (st : OrderStateStore) (key i : ℕ)
    → IsValid k st
    → key ≢ empty_key
    → slot_of st key ≡ found i
    → Upserted k st st key i
found_here k st key i v real e =
    let (q, _) = found-key (mask st) key st.keys st.max_probe (bit_and key (mask st)) i e in
    let (os, d, o) = v.held i (rw q real) in
    record {
      valid = v;
      finds = λ j. ground (arith, find-slot st key real);
      others = λ j h. refl;
      holds = (os, d, o ∙ q);
    }

insert_with :
    (l : Layout) (k : ℕ) (st st' : OrderStateStore) (key i x : ℕ) (arena : Arena) (ptr : Option ℕ)
    → IsValid k st
    → key ≢ empty_key
    → slot_of st key ≡ vacant x
    → allocate st.arena l.size_of l.align_of ≡ (arena, ptr)
    → insert_at l st key x ≡ (st', some i)
    → Upserted k st st' key i
unfolding insert_at
insert_with l k st st' key i x arena none v real e a r = cc (rw (insert_at, a) at r)
insert_with l k st st' key i x arena (some addr) v real e a r =
    let r' = rw (insert_at, a) at r in
    let same : i ≡ x = cc r' in
    let e' : slot_of st key ≡ vacant i = rw same e in
    let q_keys : st'.keys ≡ set st.keys i key = rw same (sym (ap (λ u. u.0.keys) r')) in
    let q_values : st'.values ≡ set st.values i (some (fresh_order key)) =
      rw same (sym (ap (λ u. u.0.values) r')) in
    let q_count : st'.bucket_count ≡ st.bucket_count = sym (ap (λ u. u.0.bucket_count) r') in
    let q_probe : st'.max_probe ≡ st.max_probe = sym (ap (λ u. u.0.max_probe) r') in
    record {
      valid = inserted-IsValid k st st' key i v real e' q_keys q_values q_count q_probe;
      finds = find-inserted k st st' key i v real e' q_keys q_values q_count q_probe;
      others = λ j h.
          ground (arith, value-at k st st' key i v real e' q_keys q_values q_count q_probe j);
      holds = (
        fresh_order key,
        ground (arith, value-at k st st' key i v real e' q_keys q_values q_count q_probe i),
        refl,
      );
    }

upsert_cases :
    (l : Layout) (k : ℕ) (st st' : OrderStateStore) (key i : ℕ) (s : Slot)
    → IsValid k st
    → key ≢ empty_key
    → slot_of st key ≡ s
    → upsert_key l st key ≡ (st', some i)
    → Upserted k st st' key i
unfolding upsert_key
upsert_cases l k st st' key i (found x) v real e r =
    let same : st' ≡ st = ground arith in
    let at_x : i ≡ x = ground arith in rw (same, at_x) (found_here k st key x v real e)
upsert_cases l k st st' key i (vacant x) v real e r =
    insert_with l k st st' key i x _ _ v real e refl (ground arith)
upsert_cases l k st st' key i exhausted v real e r = ground arith

-- When `upsert` returns a bucket, that bucket holds an order of the key; every other key is found
-- where it was, and every other bucket holds the order that it held.
pub upsert_key-Upserted :
    (l : Layout) (k : ℕ) (st st' : OrderStateStore) (key i : ℕ)
    → IsValid k st
    → upsert_key l st key ≡ (st', some i)
    → Upserted k st st' key i
unfolding upsert_key
upsert_key-Upserted l k st st' key i v r = elim (Bool-cases (key == empty_key)) [
  | inl hole ↦ cc (rw hole at r)
  | inr real ↦ upsert_cases l k st st' key i (slot_of st key) v (ground arith) refl r
]

-- An `upsert` that fails leaves the keys, the orders and the size as they were, and is counted as an
-- overflow.
pub upsert_key_refused :
    (l : Layout) (st st' : OrderStateStore) (key : ℕ)
    → upsert_key l st key ≡ (st', none)
    → (st'.keys ≡ st.keys)
      × (st'.values ≡ st.values)
      × (st'.size ≡ st.size)
      × (st'.overflow_count ≡ inc64 st.overflow_count)
unfolding upsert_key insert_at
upsert_key_refused l st st' key r = ground arith

same_shape :
    (l : Layout) (st st' : OrderStateStore) (key : ℕ)
    → upsert_key l st key ≡ (st', none)
    → (st'.bucket_count ≡ st.bucket_count) × (st'.max_probe ≡ st.max_probe)
unfolding upsert_key insert_at
same_shape l st st' key r = ground arith

pub refused-IsValid :
    (l : Layout) (k : ℕ) (st st' : OrderStateStore) (key : ℕ)
    → IsValid k st
    → upsert_key l st key ≡ (st', none)
    → IsValid k st'
refused-IsValid l k st st' key v r =
    let (keys, values, size, overflow) = upsert_key_refused l st st' key r in
    let (count, limit) = same_shape l st st' key r in
    record {
      count = count ∙ v.count;
      wide = ap length keys ∙ v.wide;
      values_wide = ap length values ∙ v.values_wide;
      findable = λ i. rw (keys, count, limit) (v.findable i);
      held = λ i. rw (keys, values) (v.held i);
    }

-- A table that `reset_epoch` emptied is well formed and finds nothing.
pub reset_epoch-IsValid :
    (k : ℕ) (st : OrderStateStore) → st.bucket_count ≡ 2 ^ k → IsValid k (reset_epoch st)
unfolding reset_epoch
reset_epoch-IsValid k st e = record {
  count = e;
  wide = length-replicate st.bucket_count empty_key ∙ e;
  values_wide = length-replicate st.bucket_count none ∙ e;
  findable = λ i h. absurd (h (get_or-replicate st.bucket_count i empty_key));
  held = λ i h. absurd (h (get_or-replicate st.bucket_count i empty_key));
}

inside :
    (values : List (Option OrderState)) (i : ℕ) (os : OrderState)
    → get_or values i none ≡ some os
    → i < length values
inside [] i os e = cc e
inside (v ∷ vs) zero os e = omega arith
inside (v ∷ vs) (suc i) os e = let ih = inside vs i os e in omega arith

same_key : (os os' : OrderState) → some os ≡ some os' → os.key ≡ os'.key
same_key os os' e = let q : os ≡ os' = cc e in ap (λ o. o.key) q

-- Writing an order back through its pointer keeps the table when the order keeps its key.
pub write-IsValid :
    (k : ℕ) (st : OrderStateStore) (i : ℕ) (os os' : OrderState)
    → IsValid k st
    → deref st i ≡ some os
    → os'.key ≡ os.key
    → IsValid k (write st i os')
unfolding write
write-IsValid k st i os os' v d e = record {
  count = v.count;
  wide = v.wide;
  values_wide = length-set st.values i (some os') ∙ v.values_wide;
  findable = v.findable;
  held = λ j h.
      let (o, q, r) = v.held j h in
      elim (Bool-cases (j == i)) [
        | inl same ↦
            let at_i : j ≡ i = ground arith in
            (
              os',
              rw at_i (get_or-set_self st.values i (some os') none (inside st.values i os d)),
              e ∙ same_key os o (sym d ∙ subst (λ u. deref st u ≡ some o) at_i q) ∙ r,
            )
        | inr other ↦ (o, get_or-set_ne st.values i j (some os') none (ground arith) ∙ q, r)
      ];
}
