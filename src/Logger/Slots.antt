-- ===== src/Logger/Slots.antt =====
-- Lemmas on the slots and the lists of the ring in src/util/async_log.cpp.
use fx_dropcopy_primary_reco.Prelude.{
  ℕ, zero, suc, ◌+◌, ◌%◌, ◌≤◌, ◌<◌, ◌≡◌, ◌≢◌, refl, ap, List, [], ◌∷◌, ◌++◌, arith, length, take,
  get_or, Option, none, some, All,
}
use fx_dropcopy_primary_reco.Logger.{pick}

-- Two positions less than m apart have different slots.
pub mod-ne : (m p q : ℕ) → 0 < m → p < q → q < p + m → p % m ≢ q % m
mod-ne m p q h a b e = grind arith

-- A position has the slot of the position one round before.
pub round-mod : (m t : ℕ) → 0 < m → (t + m) % m ≡ t % m
round-mod m t h = grind arith

-- What is so of the entry that `pick` takes and of the others.
module _ {A : Type 0} where
  abbrev pub OnPick : (A → List A → Type 0) → Option (A × List A) → Type 0
  OnPick Q none = Unit
  OnPick Q (some p) = Q p.0 p.1

  -- A relation of the entry, the others and the list that holds where the entry is the head, and goes on
  -- to longer lists, holds of what is picked.
  pub pick-OnPick :
      (Q : A → List A → List A → Type 0)
      → ((x : A) (xs : List A) → Q x xs (x ∷ xs))
      → ((y x : A) (rest xs : List A) → Q x rest xs → Q x (y ∷ rest) (y ∷ xs))
      → (i : ℕ) (xs : List A) → OnPick (λ x rest. Q x rest xs) (pick i xs)
  pick-OnPick Q here there i [] = tt
  pick-OnPick Q here there zero (x ∷ xs) = here x xs
  pick-OnPick Q here there (suc i) (x ∷ xs) =
      later Q there x xs (pick i xs) (pick-OnPick Q here there i xs)
    where
      later :
          (Q : A → List A → List A → Type 0)
          → ((y x : A) (rest xs : List A) → Q x rest xs → Q x (y ∷ rest) (y ∷ xs))
          → (y : A) (xs : List A) (o : Option (A × List A)) → OnPick (λ x rest. Q x rest xs) o
          → OnPick
              (λ x rest. Q x rest (y ∷ xs))
              (elim o [ none ↦ none | some p ↦ some (p.0, y ∷ p.1) ])
      later Q there y xs none h = tt
      later Q there y xs (some p) h = there y p.0 p.1 xs h

  pub All-pick :
      (P : A → Type 0) (i : ℕ) (xs : List A)
      → OnPick (λ x rest. All P xs → P x × All P rest) (pick i xs)
  All-pick P i xs =
      pick-OnPick (λ x rest ys. All P ys → P x × All P rest) (λ x ys h. h)
        (λ y x rest ys q h. ((q h.1).0, (h.0, (q h.1).1))) i xs

module _ {ℓ} {A : Type ℓ} where
  pub take-append_le : (n : ℕ) (xs ys : List A) → n ≤ length xs → take n (xs ++ ys) ≡ take n xs
  take-append_le zero xs ys h = refl
  take-append_le (suc n) [] ys h = absurd (omega arith)
  take-append_le (suc n) (x ∷ xs) ys h = ap (λ t. x ∷ t) (take-append_le n xs ys (omega arith))

  pub take_next :
      (n : ℕ) (xs : List A) (d : A)
      → n < length xs
      → take (suc n) xs ≡ take n xs ++ get_or xs n d ∷ []
  take_next n [] d h = absurd (omega arith)
  take_next zero (x ∷ xs) d h = refl
  take_next (suc n) (x ∷ xs) d h = ap (λ t. x ∷ t) (take_next n xs d (omega arith))

  pub take_all : (xs : List A) → take (length xs) xs ≡ xs
  take_all [] = refl
  take_all (x ∷ xs) = ap (λ t. x ∷ t) (take_all xs)

  pub get_or-append_lt :
      (xs ys : List A) (i : ℕ) (d : A) → i < length xs → get_or (xs ++ ys) i d ≡ get_or xs i d
  get_or-append_lt [] ys i d h = absurd (omega arith)
  get_or-append_lt (x ∷ xs) ys zero d h = refl
  get_or-append_lt (x ∷ xs) ys (suc i) d h = get_or-append_lt xs ys i d (omega arith)

  pub get_or-append_end : (xs : List A) (y d : A) → get_or (xs ++ y ∷ []) (length xs) d ≡ y
  get_or-append_end [] y d = refl
  get_or-append_end (x ∷ xs) y d = get_or-append_end xs y d
