-- ===== src/FixedVec/Live.antt =====
-- The elements in use of a vector of src/util/fixed_vec.hpp, as a list.
use mathlib.Core.List.{Perm, perm_append_singleton, Mem, mem-append, mem-cons, not-mem-nil}
use mathlib.Core.Logic.Or
use mathlib.Core.Logic.{◌∨₁◌, ∨₁_prop}
use mathlib.Core.List.Perm
use fx_dropcopy_primary_reco.Prelude.{
  ℕ, zero, suc, ◌+◌, ◌-◌, ◌≤◌, ◌<◌, ◌≡◌, refl, ap, Bool, true, false, List, [], ◌∷◌, ◌++◌, arith,
  length, get_or, set, take, length-set, length-take, if◌then◌else◌, ltb, leb, Bool-cases, inl, inr,
  subst, length-replicate,
}
use fx_dropcopy_primary_reco.FixedVec.{FixedVec, make, try_push_back, swap_erase, at}

module _ {ℓ} {T : Type ℓ} where
  take-set :
      (xs : List T) (n : ℕ) (x : T)
      → n < length xs
      → take (suc n) (set xs n x) ≡ take n xs ++ x ∷ []
  take-set [] n x h = absurd (omega arith)
  take-set (y ∷ ys) zero x h = refl
  take-set (y ∷ ys) (suc n) x h = ap (◌∷◌ y) (take-set ys n x (omega arith))

  take_last :
      (xs : List T) (n : ℕ) (d : T)
      → n < length xs
      → take (suc n) xs ≡ take n xs ++ get_or xs n d ∷ []
  take_last [] n d h = absurd (omega arith)
  take_last (y ∷ ys) zero d h = refl
  take_last (y ∷ ys) (suc n) d h = ap (◌∷◌ y) (take_last ys n d (omega arith))

  take-set_lt : (xs : List T) (n i : ℕ) (x : T) → i < n → take n (set xs i x) ≡ set (take n xs) i x
  take-set_lt xs zero i x h = elim h [ ]
  take-set_lt [] (suc n) i x h = refl
  take-set_lt (y ∷ ys) (suc n) zero x h = refl
  take-set_lt (y ∷ ys) (suc n) (suc i) x h = ap (◌∷◌ y) (take-set_lt ys n i x (omega arith))

  get_or-take : (xs : List T) (n i : ℕ) (d : T) → i < n → get_or (take n xs) i d ≡ get_or xs i d
  get_or-take xs zero i d h = elim h [ ]
  get_or-take [] (suc n) i d h = refl
  get_or-take (y ∷ ys) (suc n) zero d h = refl
  get_or-take (y ∷ ys) (suc n) (suc i) d h = get_or-take ys n i d (omega arith)

  -- Writing `x` over the entry `i` exchanges the two.
  perm-set :
      (x : T) (xs : List T) (i : ℕ) (d : T)
      → i < length xs
      → Perm (x ∷ xs) (get_or xs i d ∷ set xs i x)
  perm-set x [] i d h = absurd (omega arith)
  perm-set x (y ∷ ys) zero d h = Perm.swap y x ys
  perm-set x (y ∷ ys) (suc i) d h = Perm.trans (Perm.swap y x ys) (
      Perm.trans (Perm.cons y (perm-set x ys i d (omega arith)))
        (Perm.swap (get_or ys i d) y (set ys i x)))

module _ {ℓ} {T : Type ℓ} where
  -- The elements in use.
  unfoldable pub live : FixedVec T → List T
  live v = take v.size v.cells

module _ {ℓ} {T : Type ℓ} (cap : ℕ) where
  pub record IsValid (v : FixedVec T) : Type ℓ where
    pub array : length v.cells ≡ cap
    pub fits : v.size ≤ cap

  pub make-IsValid : (d : T) → IsValid (make cap d)
  unfolding make
  make-IsValid d = record { array = length-replicate cap d; fits = omega arith }

  pub push-IsValid : (v : FixedVec T) (x : T) → IsValid v → IsValid (try_push_back cap v x).0
  unfolding try_push_back
  push-IsValid v x w = ground (arith, length-set v.cells v.size x)

  pub erase-IsValid : (v : FixedVec T) (idx : ℕ) (d : T) → IsValid v → IsValid (swap_erase v idx d)
  unfolding swap_erase
  erase-IsValid v idx d w = ground (arith, length-set v.cells idx (get_or v.cells (v.size - 1) d))

  pub length-live : (v : FixedVec T) → IsValid v → length (live v) ≡ v.size
  unfolding live
  length-live v w = omega (arith, length-take v.size v.cells, w.array, w.fits)

  -- A push appends the element, or is refused by a full vector, which it leaves as it was.
  pub live-push :
      (v : FixedVec T) (x : T)
      → IsValid v
      → let (v', done) = try_push_back cap v x in
        (done ≡ ltb (length (live v)) cap) × (live v' ≡ (if done then live v ++ x ∷ [] else live v))
  unfolding try_push_back live
  live-push v x w = elim (Bool-cases (leb cap v.size)) [
    | inl full ↦ rw full (ground (arith, length-take v.size v.cells), refl)
    | inr room ↦
        let h : v.size < cap = ground arith in
        let one_more : v.size + 1 ≡ suc v.size = omega arith in
        rw (room, one_more)
          (
            ground (arith, length-take v.size v.cells),
            take-set v.cells v.size x (omega (arith, w.array)),
          )
  ]

  -- Erasing an element in use removes it and keeps all the others, in some order.
  pub live-swap_erase :
      (v : FixedVec T) (idx : ℕ) (d : T)
      → IsValid v
      → idx < v.size
      → Perm (live v) (at v idx d ∷ live (swap_erase v idx d))
  unfolding swap_erase live
  live-swap_erase v idx d w h =
      let n = v.size - 1 in
      let last = get_or v.cells n d in
      let one_more : suc n ≡ v.size = omega arith in
      let all : take v.size v.cells ≡ take n v.cells ++ last ∷ [] =
        subst (λ m. take m v.cells ≡ take n v.cells ++ last ∷ []) one_more
          (take_last v.cells n d (omega (arith, w.array, w.fits))) in
      elim (Bool-cases (ltb idx n)) [
        | inl inner ↦
            let lt : idx < n = ground arith in
            let moved =
              perm-set last (take n v.cells) idx d
                (omega (arith, length-take n v.cells, w.array, w.fits)) in
            rw (all, inner, take-set_lt v.cells n idx last lt, ← get_or-take v.cells n idx d lt)
              (Perm.trans (perm_append_singleton last (take n v.cells)) moved)
        | inr end ↦
            let e : idx ≡ n = ground arith in
            rw (all, end, e) (perm_append_singleton last (take n v.cells))
      ]

  pub mem-push :
      (v : FixedVec T) (x y : T)
      → IsValid v
      → Mem y (live (try_push_back cap v x).0)
      → Mem y (live v) ∨₁ (y ≡ x)
  mem-push v x y w m =
      let (_, after) = live-push v x w in split (try_push_back cap v x).1 (subst (Mem y) after m)
    where
      split :
          (done : Bool)
          → Mem y (if done then live v ++ x ∷ [] else live v)
          → Mem y (live v) ∨₁ (y ≡ x)
      split true n =
          Or.elim ∨₁_prop (mem-append.0 n) (λ old. Or.inl old)
            (λ new. Or.elim ∨₁_prop (mem-cons.0 new) (λ e. Or.inr e) (λ z. absurd (not-mem-nil z)))
      split false n = Or.inl n

  pub mem-erase :
      (v : FixedVec T) (idx : ℕ) (d y : T)
      → IsValid v
      → idx < v.size
      → Mem y (live (swap_erase v idx d))
      → Mem y (live v)
  mem-erase v idx d y w h m = (Perm.mem_iff (live-swap_erase v idx d w h)).1 (mem-cons.1 (Or.inr m))

  pub mem-at :
      (v : FixedVec T) (idx : ℕ) (d : T) → IsValid v → idx < v.size → Mem (at v idx d) (live v)
  mem-at v idx d w h = (Perm.mem_iff (live-swap_erase v idx d w h)).1 (mem-cons.1 (Or.inl refl))
