-- ===== src/Ring/Window.antt =====
-- The cells of a ring of src/ingest/spsc_ring.hpp between its two indices.
use native.Mathlib.Nat.{mod-eq_of_lt, mod-eq-sub-mod, mod-add-mod, add-zero}
use fx_dropcopy_primary_reco.Prelude.{
  ℕ, zero, suc, ◌+◌, ◌-◌, ◌%◌, ◌≤◌, ◌<◌, ◌≡◌, ◌≢◌, refl, ap, ap₂, ◌∙◌, List, [], ◌∷◌, ◌++◌, arith,
  length, get_or, set, get_or-set_self, get_or-set_ne, Bool-cases, ltb, inl, inr,
}

-- A step of n ≤ cap round the ring.
pub wrap : (cap i : ℕ) → i < cap + cap → cap ≤ i → i % cap ≡ i - cap
wrap cap i h k =
    mod-eq-sub-mod {n = i} {m = cap} k ∙ mod-eq_of_lt {n = i - cap} {m = cap} (omega arith)

module _ {ℓ} {T : Type ℓ} (d : T) (cap : ℕ) where
  -- The `n` cells from index `i` on.
  unfoldable pub window : List T → ℕ → ℕ → List T
  window buf i zero = []
  window buf i (suc n) = get_or buf i d ∷ window buf ((i + 1) % cap) n

  pub length-window : (buf : List T) (i n : ℕ) → length (window buf i n) ≡ n
  unfolding window
  length-window buf i zero = refl
  length-window buf i (suc n) = ap suc (length-window buf ((i + 1) % cap) n)

  pub window_pop :
      (buf : List T) (i n : ℕ)
      → n ≢ 0
      → window buf i n ≡ get_or buf i d ∷ window buf ((i + 1) % cap) (n - 1)
  unfolding window
  window_pop buf i zero h = absurd (h refl)
  window_pop buf i (suc n) h = ap (λ m. window buf i (suc m)) (omega arith)

  far : (i n : ℕ) → i < cap → suc n < cap → (i + suc n) % cap ≢ i
  far i n h k = elim (Bool-cases (ltb (i + suc n) cap)) [
    | inl p ↦ let lt : i + suc n < cap = ground arith in omega (arith, mod-eq_of_lt lt)
    | inr p ↦
        let ge : cap ≤ i + suc n = ground arith in
        omega (arith, wrap cap (i + suc n) (omega arith) ge)
  ]

  -- A write to the cell behind a window that is not full extends the window.
  pub window-set :
      (buf : List T) (v : T) (n i j : ℕ)
      → cap ≤ length buf
      → i < cap
      → n < cap
      → j ≡ (i + n) % cap
      → window (set buf j v) i (suc n) ≡ window buf i n ++ v ∷ []
  unfolding window
  window-set buf v zero i j hb hi hn e =
      rw (e, add-zero, mod-eq_of_lt hi, get_or-set_self buf i v d (omega arith))
  window-set buf v (suc n) i j hb hi hn e =
      ap₂ ◌∷◌ (get_or-set_ne buf j i v d (rw e (far i n hi hn)))
        (window-set buf v n ((i + 1) % cap) j hb (omega arith) (omega arith) (e ∙ shift))
    where
      shift : (i + suc n) % cap ≡ ((i + 1) % cap + n) % cap
      shift = rw mod-add-mod (ap (λ k. k % cap) (omega arith))
