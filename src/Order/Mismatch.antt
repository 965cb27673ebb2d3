-- ===== src/Order/Mismatch.antt =====
-- What the masks of src/core/order_state.hpp mean.
use fx_dropcopy_primary_reco.Prelude.{
  ℕ, zero, suc, ◌≤◌, ◌<◌, ◌≡◌, ◌≢◌, refl, ap, sym, subst, List, [], ◌∷◌, length, take, mem_eq,
  length-take, ◌==◌, ◌!=◌, Bool-cases, inl, inr, Bool, true, false, not, ◌&&◌, ◌||◌, arith, ltb,
  if◌then◌else◌, ap₂, u64,
}
use fx_dropcopy_primary_reco.Prelude.Int.{ℤ, pos, negsuc, IsInt64, distance, ◌==ℤ◌}
use native.Mathlib.Nat.{mod-eq_of_lt}
use fx_dropcopy_primary_reco.Event.{◌==ˢ◌}
use fx_dropcopy_primary_reco.Mask.{has}
use fx_dropcopy_primary_reco.Mask
use fx_dropcopy_primary_reco.Order.{
  OrderState, safe_abs_diff, compute_mismatch, compute_mismatch_exact, mismatch_by, exec_ids_differ,
  set_if,
}

-- On all pairs of `int64_t`, the extremes included, the unsigned difference is the true distance.
pub safe_abs_diff-distance : (a b : ℤ) → IsInt64 a → IsInt64 b → safe_abs_diff a b ≡ distance a b
unfolding safe_abs_diff
safe_abs_diff-distance (pos m) (pos n) h k = ground arith
safe_abs_diff-distance (pos m) (negsuc n) h k = ground arith
safe_abs_diff-distance (negsuc m) (pos n) h k = ground arith
safe_abs_diff-distance (negsuc m) (negsuc n) h k = ground arith

-- The quantities and prices of both views are `int64_t`.
pub record InRange (s : OrderState) : Type 0 where
  pub internal_qty : IsInt64 s.internal_cum_qty
  pub dropcopy_qty : IsInt64 s.dropcopy_cum_qty
  pub internal_px : IsInt64 s.internal_avg_px
  pub dropcopy_px : IsInt64 s.dropcopy_avg_px

abs_diff_zero : (a b : ℤ) → IsInt64 a → IsInt64 b → ltb 0 (safe_abs_diff a b) ≡ not (a ==ℤ b)
abs_diff_zero (pos m) (pos n) h k = ground (arith, safe_abs_diff-distance (pos m) (pos n) h k)
abs_diff_zero (pos m) (negsuc n) h k = ground (arith, safe_abs_diff-distance (pos m) (negsuc n) h k)
abs_diff_zero (negsuc m) (pos n) h k = ground (arith, safe_abs_diff-distance (negsuc m) (pos n) h k)
abs_diff_zero (negsuc m) (negsuc n) h k =
    ground (arith, safe_abs_diff-distance (negsuc m) (negsuc n) h k)

-- With zero tolerances the overload with tolerances computes the mask of the exact one.
compute_mismatch_zero :
    (s : OrderState) → InRange s → compute_mismatch s (pos 0) (pos 0) ≡ compute_mismatch_exact s
unfolding compute_mismatch compute_mismatch_exact
compute_mismatch_zero s r =
    ap₂ (mismatch_by s)
      (abs_diff_zero s.internal_cum_qty s.dropcopy_cum_qty r.internal_qty r.dropcopy_qty)
      (abs_diff_zero s.internal_avg_px s.dropcopy_avg_px r.internal_px r.dropcopy_px)

-- The flags of a mask of two orders that both feeds have shown.
pub record Flags (m : ℕ) (status qty px exec_id : Bool) : Type 0 where
  pub status_is : has m Mask.status_bit ≡ status
  pub qty_is : has m Mask.cum_qty_bit ≡ qty
  pub px_is : has m Mask.avg_px_bit ≡ px
  pub exec_id_is : has m Mask.exec_id_bit ≡ exec_id
  pub existence_is : has m Mask.existence_bit ≡ false
  pub leaves_is : has m Mask.leaves_qty_bit ≡ false

abbrev pub step_mask : Bool → Bool → Bool → Bool → ℕ
step_mask d c b a =
    set_if a Mask.exec_id_bit
      (set_if b Mask.avg_px_bit (set_if c Mask.cum_qty_bit (set_if d Mask.status_bit Mask.empty)))

pub step_mask-Flags : (d c b a : Bool) → Flags (step_mask d c b a) d c b a
step_mask-Flags true true true true = ground arith
step_mask-Flags _ _ _ _ = ground arith

-- Two texts that are equal byte by byte.
abbrev pub same_text : List ℕ → List ℕ → Bool
same_text [] [] = true
same_text [] (y ∷ b) = false
same_text (x ∷ a) [] = false
same_text (x ∷ a) (y ∷ b) = (x == y) && same_text a b

same_text-length : (a b : List ℕ) → length a ≢ length b → same_text a b ≡ false
same_text-length [] [] h = absurd (h refl)
same_text-length [] (y ∷ b) h = refl
same_text-length (x ∷ a) [] h = refl
same_text-length (x ∷ a) (y ∷ b) h =
    let e = same_text-length a b (λ q. h (omega arith)) in ground (arith, e)

mem_eq-eq : (a b : List ℕ) (n : ℕ) → mem_eq a b n ≡ same_text (take n a) (take n b)
mem_eq-eq a b zero = refl
mem_eq-eq [] [] (suc n) = refl
mem_eq-eq [] (y ∷ b) (suc n) = refl
mem_eq-eq (x ∷ a) [] (suc n) = refl
mem_eq-eq (x ∷ a) (y ∷ b) (suc n) = ap (λ t. (x == y) && t) (mem_eq-eq a b n)

-- The execution ids that the two feeds showed last.
abbrev pub internal_id : OrderState → List ℕ
internal_id s = take s.last_internal_exec_id_len s.last_internal_exec_id

abbrev pub dropcopy_id : OrderState → List ℕ
dropcopy_id s = take s.last_dropcopy_exec_id_len s.last_dropcopy_exec_id

-- The lengths of the ids are those of bytes that are there.
pub record HasIds (s : OrderState) : Type 0 where
  pub internal_in : s.last_internal_exec_id_len ≤ length s.last_internal_exec_id
  pub dropcopy_in : s.last_dropcopy_exec_id_len ≤ length s.last_dropcopy_exec_id

by_length :
    (s : OrderState) (m n : ℕ)
    → m ≤ length s.last_internal_exec_id
    → n ≤ length s.last_dropcopy_exec_id
    → (if m != n
        then true
        else if ltb 0 m && ltb 0 n
        then not (mem_eq s.last_internal_exec_id s.last_dropcopy_exec_id m)
        else false)
      ≡ not (same_text (take m s.last_internal_exec_id) (take n s.last_dropcopy_exec_id))
by_length s m n h h' =
    let a = s.last_internal_exec_id in
    let b = s.last_dropcopy_exec_id in
    elim (Bool-cases (m != n)) [
      | inl other ↦
          let lengths : length (take m a) ≢ length (take n b) =
            λ q. let x = length-take m a in let y = length-take n b in ground arith in
          rw (other, same_text-length _ _ lengths) refl
      | inr same ↦
          let e : n ≡ m = ground arith in
          subst
            (λ j.
              (if m != j then true else if ltb 0 m && ltb 0 j then not (mem_eq a b m) else false)
              ≡ not (same_text (take m a) (take j b)))
            (sym e) (equal_lengths m a b)
    ]
  where
    equal_lengths :
        (m : ℕ) (a b : List ℕ)
        → (if m != m then true else if ltb 0 m && ltb 0 m then not (mem_eq a b m) else false)
          ≡ not (same_text (take m a) (take m b))
    equal_lengths zero a b = ground arith
    equal_lengths (suc m) a b = let e = mem_eq-eq a b (suc m) in ground arith

exec_ids_differ-eq :
    (s : OrderState)
    → HasIds s
    → exec_ids_differ s ≡ not (same_text (internal_id s) (dropcopy_id s))
unfolding exec_ids_differ
exec_ids_differ-eq s h =
    by_length s s.last_internal_exec_id_len s.last_dropcopy_exec_id_len h.internal_in h.dropcopy_in

-- Each bit of the mask with tolerances, for an order that both feeds have shown: the statuses differ;
-- the quantities, and the prices, are further apart than the tolerance; the execution ids
-- differ, as texts of their lengths. Existence and leaves quantity are not flagged.
pub compute_mismatch-Flags :
    (s : OrderState) (q p : ℕ)
    → InRange s
    → HasIds s
    → q < 9_223_372_036_854_775_808
    → p < 9_223_372_036_854_775_808
    → s.seen_internal ≡ true
    → s.seen_dropcopy ≡ true
    → Flags
        (compute_mismatch s (pos q) (pos p))
        (not (s.internal_status ==ˢ s.dropcopy_status))
        (ltb q (distance s.internal_cum_qty s.dropcopy_cum_qty))
        (ltb p (distance s.internal_avg_px s.dropcopy_avg_px))
        (not (same_text (internal_id s) (dropcopy_id s)))
unfolding compute_mismatch mismatch_by
compute_mismatch-Flags s q p r ids hq hp i d =
    rw
      (
        i,
        d,
        safe_abs_diff-distance s.internal_cum_qty s.dropcopy_cum_qty r.internal_qty r.dropcopy_qty,
        safe_abs_diff-distance s.internal_avg_px s.dropcopy_avg_px r.internal_px r.dropcopy_px,
        mod-eq_of_lt {n = q} {m = u64} (omega arith),
        mod-eq_of_lt {n = p} {m = u64} (omega arith),
        exec_ids_differ-eq s ids,
      )
      (step_mask-Flags _ _ _ _)

-- The mask of an order that one feed alone has shown is existence, and of an unseen one empty; the
-- tolerances do not matter.
pub compute_mismatch_one_sided :
    (s : OrderState) (q p : ℤ)
    → not (s.seen_internal && s.seen_dropcopy) ≡ true
    → compute_mismatch s q p
      ≡ (if s.seen_internal || s.seen_dropcopy then Mask.existence_bit else Mask.empty)
unfolding compute_mismatch mismatch_by
compute_mismatch_one_sided s q p h = ground arith
