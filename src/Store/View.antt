-- ===== src/Store/View.antt =====
-- The table of src/core/order_state_store.cpp as a map from keys to orders.
use fx_dropcopy_primary_reco.Prelude.{
  ℕ, ◌-◌, ◌^◌, ◌<◌, ◌≡◌, ◌≢◌, refl, sym, ap, ◌∙◌, subst, arith, ◌==◌, if◌then◌else◌, none, some,
  get_or, set, length, length-set, get_or-set_self, get_or-set_ne, bit_and, Bool-cases, inl, inr,
}
use fx_dropcopy_primary_reco.Order.{OrderState, fresh_order}
use fx_dropcopy_primary_reco.Store.{
  OrderStateStore, Slot, found, vacant, exhausted, probe, find, deref, mask, empty_key,
}
use fx_dropcopy_primary_reco.Store.Probe.{
  hit, find_loop-probe, found-key, vacant-key, probe-set_self, probe-set_other, masked-lt,
  vacant-lt,
}

-- The probing for a key, by `upsert` and by `find`.
abbrev pub slot_of : OrderStateStore → ℕ → Slot
slot_of st key = probe st.keys (mask st) key st.max_probe (bit_and key (mask st))

pub find-slot :
    (st : OrderStateStore) (key : ℕ) → key ≢ empty_key → find st key ≡ hit (slot_of st key)
unfolding find
find-slot st key h =
    ground (arith, find_loop-probe (mask st) key st.keys st.max_probe (bit_and key (mask st)))

-- A table of 2 ^ k buckets in which every key that is held is found, where it is held, with an order
-- of that key.
pub record IsValid (k : ℕ) (st : OrderStateStore) : Type 0 where
  pub count : st.bucket_count ≡ 2 ^ k
  pub wide : length st.keys ≡ 2 ^ k
  pub values_wide : length st.values ≡ 2 ^ k
  pub findable :
      (i : ℕ)
      → get_or st.keys i empty_key ≢ empty_key
      → slot_of st (get_or st.keys i empty_key) ≡ found i
  pub held :
      (i : ℕ)
      → get_or st.keys i empty_key ≢ empty_key
      → (os : OrderState) × (deref st i ≡ some os) × (os.key ≡ get_or st.keys i empty_key)

-- The table after `insert_at` found room, for any state of the arena.
module _ (k : ℕ) (st st' : OrderStateStore) (key i : ℕ) (valid : IsValid k st)
    (real : key ≢ empty_key) (free : slot_of st key ≡ vacant i)
    (keys_set : st'.keys ≡ set st.keys i key)
    (values_set : st'.values ≡ set st.values i (some (fresh_order key)))
    (same_count : st'.bucket_count ≡ st.bucket_count)
    (same_probe : st'.max_probe ≡ st.max_probe) where
  in_table : i < 2 ^ k
  in_table = vacant-lt k key st.keys st.max_probe (bit_and key (2 ^ k - 1)) i (masked-lt k key) (
      subst (λ c. probe st.keys (c - 1) key st.max_probe (bit_and key (c - 1)) ≡ vacant i)
        valid.count free)

  was_empty : get_or st.keys i empty_key ≡ empty_key
  was_empty = vacant-key (mask st) key st.keys st.max_probe (bit_and key (mask st)) i free

  slot-new : slot_of st' key ≡ found i
  slot-new =
      rw (keys_set, same_count, same_probe)
        (probe-set_self (mask st) key st.keys st.max_probe (bit_and key (mask st)) i real
          (rw valid.wide in_table) free)

  slot-old : (j x : ℕ) → slot_of st j ≡ found x → slot_of st' j ≡ found x
  slot-old j x e =
      rw (keys_set, same_count, same_probe)
        (probe-set_other (mask st) j st.keys st.max_probe (bit_and j (mask st)) i x key was_empty e)

  key-at :
      (j : ℕ) → get_or st'.keys j empty_key ≡ (if j == i then key else get_or st.keys j empty_key)
  key-at j = rw keys_set (
      ground (
        arith,
        get_or-set_self st.keys i key empty_key (rw valid.wide in_table),
        get_or-set_ne st.keys i j key empty_key,
      ))

  pub value-at : (j : ℕ) → deref st' j ≡ (if j == i then some (fresh_order key) else deref st j)
  value-at j = rw values_set (
      ground (
        arith,
        get_or-set_self st.values i (some (fresh_order key)) none (rw valid.values_wide in_table),
        get_or-set_ne st.values i j (some (fresh_order key)) none,
      ))

  inserted-findable :
      (j : ℕ)
      → get_or st'.keys j empty_key ≢ empty_key
      → slot_of st' (get_or st'.keys j empty_key) ≡ found j
  inserted-findable j h = elim (Bool-cases (j == i)) [
    | inl same ↦
        let q : j ≡ i = ground arith in
        let e : get_or st'.keys j empty_key ≡ key = ground (arith, key-at j) in rw (e, q) slot-new
    | inr other ↦
        let e : get_or st'.keys j empty_key ≡ get_or st.keys j empty_key =
          ground (arith, key-at j) in
        rw e (slot-old (get_or st.keys j empty_key) j (valid.findable j (rw e at h)))
  ]

  inserted-held :
      (j : ℕ)
      → get_or st'.keys j empty_key ≢ empty_key
      → (os : OrderState) × (deref st' j ≡ some os) × (os.key ≡ get_or st'.keys j empty_key)
  inserted-held j h = elim (Bool-cases (j == i)) [
    | inl same ↦ (fresh_order key, ground (arith, value-at j), ground (arith, key-at j))
    | inr other ↦
        let e : get_or st'.keys j empty_key ≡ get_or st.keys j empty_key =
          ground (arith, key-at j) in
        let (os, d, q) = valid.held j (rw e at h) in (os, ground (arith, value-at j), q ∙ sym e)
  ]

  pub inserted-IsValid : IsValid k st'
  inserted-IsValid = record {
    count = same_count ∙ valid.count;
    wide = ap length keys_set ∙ length-set st.keys i key ∙ valid.wide;
    values_wide =
        ap length values_set ∙ length-set st.values i (some (fresh_order key)) ∙ valid.values_wide;
    findable = inserted-findable;
    held = inserted-held;
  }

  -- A key that was not found is still not found, unless it is the new one.
  still_absent :
      (j : ℕ) (s s' : Slot) → j ≢ key → slot_of st j ≡ s → slot_of st' j ≡ s' → hit s' ≡ hit s
  still_absent j (found x) s' h e e' = ground (arith, slot-old j x e)
  still_absent j (vacant x) (found y) h e e' =
      let (at_y, real_y) =
        found-key (mask st') j st'.keys st'.max_probe (bit_and j (mask st')) y e' in
      let q : get_or st.keys y empty_key ≡ j = ground (arith, key-at y) in
      let f = valid.findable y (rw q real_y) in cc (subst (λ u. slot_of st u ≡ found y) q f)
  still_absent j exhausted (found y) h e e' =
      let (at_y, real_y) =
        found-key (mask st') j st'.keys st'.max_probe (bit_and j (mask st')) y e' in
      let q : get_or st.keys y empty_key ≡ j = ground (arith, key-at y) in
      let f = valid.findable y (rw q real_y) in cc (subst (λ u. slot_of st u ≡ found y) q f)
  still_absent j _ _ h e e' = refl

  pub find-inserted : (j : ℕ) → find st' j ≡ (if j == key then some i else find st j)
  find-inserted j = elim (Bool-cases (j == empty_key)) [
    | inl hole ↦ let q : j ≡ empty_key = ground arith in rw q (unfold find in ground arith)
    | inr other ↦
        let h : j ≢ empty_key = ground arith in
        elim (Bool-cases (j == key)) [
          | inl same ↦ let q : j ≡ key = ground arith in rw (same, find-slot st' j h, q, slot-new)
          | inr apart ↦
              rw (apart, find-slot st' j h, find-slot st j h)
                (still_absent j _ _ (ground arith) refl refl)
        ]
  ]

-- `upsert` in one statement: the key's bucket, which holds an order of the key; every other key is
-- found where it was, and every other bucket holds the order that it held.
pub record Upserted (k : ℕ) (st st' : OrderStateStore) (key i : ℕ) : Type 0 where
  pub valid : IsValid k st'
  pub finds : (j : ℕ) → find st' j ≡ (if j == key then some i else find st j)
  pub others : (j : ℕ) → j ≢ i → deref st' j ≡ deref st j
  pub holds : (os : OrderState) × (deref st' i ≡ some os) × (os.key ≡ key)
