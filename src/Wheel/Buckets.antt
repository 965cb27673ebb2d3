-- ===== src/Wheel/Buckets.antt =====
-- The entries in each bucket of the wheel of src/util/wheel_timer.hpp, and where an entry goes.
use mathlib.Core.List.{Mem}
use mathlib.Core.Logic.Or
use mathlib.Core.Logic.{◌∨₁◌, ∨₁_prop}
use fx_dropcopy_primary_reco.Prelude.{
  ℕ, ◌+◌, ◌-◌, ◌/◌, ◌%◌, ◌≤◌, ◌<◌, ◌≡◌, ◌≢◌, sym, ap, ◌∙◌, subst, List, arith, length, length-set,
  get_or-set_self, get_or-set_ne, bit_and_mask, Bool-cases, inl, inr, ◌==◌,
}
use fx_dropcopy_primary_reco.FixedVec.{FixedVec, try_push_back, swap_erase, at}
use fx_dropcopy_primary_reco.FixedVec
use fx_dropcopy_primary_reco.FixedVec.Live.{
  live, make-IsValid, push-IsValid, erase-IsValid, mem-push, mem-erase,
}
use fx_dropcopy_primary_reco.Wheel.{
  WheelTimer, Entry, empty_entry, empty_bucket, bucket_at, bucket_capacity, delta_ticks,
  target_bucket, place, erase_first,
}

pub record IsValid (w : WheelTimer) : Type 0 where
  pub wide : length w.buckets ≡ 256
  pub ticks : 0 < w.tick_tsc
  pub sound : (i : ℕ) → FixedVec.Live.IsValid bucket_capacity (bucket_at w i)

abbrev pub entries : WheelTimer → ℕ → List Entry
entries w i = live (bucket_at w i)

pub delta-le :
    (w : WheelTimer) (deadline : ℕ)
    → (delta_ticks w deadline ≤ deadline / w.tick_tsc - w.current_tick)
      × (delta_ticks w deadline < 256)
unfolding delta_ticks
delta-le w deadline = ground arith

pub target-eq :
    (w : WheelTimer) (deadline : ℕ)
    → target_bucket w deadline ≡ (w.current_tick + delta_ticks w deadline) % 256
unfolding target_bucket
target-eq w deadline = bit_and_mask 8 _ ∙ omega arith

pub target-lt : (w : WheelTimer) (deadline : ℕ) → target_bucket w deadline < 256
target-lt w deadline = omega (arith, target-eq w deadline)

pub place-other :
    (w : WheelTimer) (e : Entry) (i : ℕ)
    → i ≢ target_bucket w e.deadline_tsc
    → bucket_at (place w e).0 i ≡ bucket_at w i
unfolding place
place-other w e i h =
    get_or-set_ne w.buckets (target_bucket w e.deadline_tsc) i _ empty_bucket (λ q. h (sym q))

pub place-target :
    (w : WheelTimer) (e : Entry)
    → IsValid w
    → let idx = target_bucket w e.deadline_tsc in
      bucket_at (place w e).0 idx ≡ (try_push_back bucket_capacity (bucket_at w idx) e).0
unfolding place
place-target w e v =
    get_or-set_self w.buckets (target_bucket w e.deadline_tsc) _ empty_bucket
      (omega (arith, target-lt w e.deadline_tsc, v.wide))

pub place-IsValid : (w : WheelTimer) (e : Entry) → IsValid w → IsValid (place w e).0
unfolding place
place-IsValid w e v = record {
  wide = length-set w.buckets _ _ ∙ v.wide;
  ticks = v.ticks;
  sound = λ i. elim (Bool-cases (i == target_bucket w e.deadline_tsc)) [
    | inl same ↦
        let q : i ≡ target_bucket w e.deadline_tsc = ground arith in
        subst (FixedVec.Live.IsValid bucket_capacity)
          (sym (ap (bucket_at (place w e).0) q ∙ place-target w e v))
          (push-IsValid bucket_capacity _ e (v.sound _))
    | inr other ↦
        let q : i ≢ target_bucket w e.deadline_tsc = ground arith in
        subst (FixedVec.Live.IsValid bucket_capacity) (sym (place-other w e i q)) (v.sound i)
  ];
}

-- What a bucket holds after an entry was placed: what it held, and in its target the entry.
pub mem-place :
    (w : WheelTimer) (e : Entry) (i : ℕ) (x : Entry)
    → IsValid w
    → Mem x (entries (place w e).0 i)
    → Mem x (entries w i) ∨₁ ((x ≡ e) × (i ≡ target_bucket w e.deadline_tsc))
mem-place w e i x v m = elim (Bool-cases (i == target_bucket w e.deadline_tsc)) [
  | inl same ↦
      let q : i ≡ target_bucket w e.deadline_tsc = ground arith in
      let here =
        subst (λ b. Mem x (live b)) (ap (bucket_at (place w e).0) q ∙ place-target w e v) m in
      Or.elim ∨₁_prop (mem-push bucket_capacity _ e x (v.sound _) here)
        (λ old. Or.inl (subst (λ j. Mem x (entries w j)) (sym q) old)) (λ new. Or.inr (new, q))
  | inr other ↦
      let q : i ≢ target_bucket w e.deadline_tsc = ground arith in
      Or.inl (subst (λ b. Mem x (live b)) (place-other w e i q) m)
]

pub erased-other :
    (w : WheelTimer) (idx i : ℕ) → i ≢ idx → bucket_at (erase_first w idx) i ≡ bucket_at w i
unfolding erase_first
erased-other w idx i h = get_or-set_ne w.buckets idx i _ empty_bucket (λ q. h (sym q))

pub erased-here :
    (w : WheelTimer) (idx : ℕ)
    → IsValid w
    → idx < 256
    → bucket_at (erase_first w idx) idx ≡ swap_erase (bucket_at w idx) 0 empty_entry
unfolding erase_first
erased-here w idx v h = get_or-set_self w.buckets idx _ empty_bucket (omega (arith, v.wide))

pub erase_first-IsValid :
    (w : WheelTimer) (idx : ℕ) → IsValid w → idx < 256 → IsValid (erase_first w idx)
unfolding erase_first
erase_first-IsValid w idx v h = record {
  wide = length-set w.buckets _ _ ∙ v.wide;
  ticks = v.ticks;
  sound = λ i. elim (Bool-cases (i == idx)) [
    | inl same ↦
        let q : i ≡ idx = ground arith in
        subst (FixedVec.Live.IsValid bucket_capacity)
          (sym (ap (bucket_at (erase_first w idx)) q ∙ erased-here w idx v h))
          (erase-IsValid bucket_capacity _ 0 empty_entry (v.sound idx))
    | inr other ↦
        let q : i ≢ idx = ground arith in
        subst (FixedVec.Live.IsValid bucket_capacity) (sym (erased-other w idx i q)) (v.sound i)
  ];
}

-- Erasing the first entry of a bucket brings no entry anywhere.
pub mem-erase_first :
    (w : WheelTimer) (idx i : ℕ) (x : Entry)
    → IsValid w
    → idx < 256
    → 0 < (bucket_at w idx).size
    → Mem x (entries (erase_first w idx) i)
    → Mem x (entries w i)
mem-erase_first w idx i x v h p m = elim (Bool-cases (i == idx)) [
  | inl same ↦
      let q : i ≡ idx = ground arith in
      let here =
        subst (λ b. Mem x (live b)) (ap (bucket_at (erase_first w idx)) q ∙ erased-here w idx v h)
          m in
      subst (λ j. Mem x (entries w j)) (sym q)
        (mem-erase bucket_capacity _ 0 empty_entry x (v.sound idx) p here)
  | inr other ↦
      let q : i ≢ idx = ground arith in subst (λ b. Mem x (live b)) (erased-other w idx i q) m
]
