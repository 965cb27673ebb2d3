-- ===== src/FixedVec.antt =====
-- src/util/fixed_vec.hpp: a vector in an array of fixed capacity.
pub mod Live
use fx_dropcopy_primary_reco.Prelude.{
  ℕ, ◌+◌, ◌-◌, Bool, true, false, List, if◌then◌else◌, ltb, leb, ◌==◌, get_or, set, replicate,
}

-- The array has `MaxCapacity` cells, of which the first `size` are in use.
pub record FixedVec {ℓ} (T : Type ℓ) : Type ℓ where
  pub cells : List T
  pub size : ℕ

module _ {ℓ} {T : Type ℓ} where
  unfoldable pub make : ℕ → T → FixedVec T
  make cap d = record { cells = replicate cap d; size = 0 }

  -- Also `try_emplace_back`, which builds the value in the call.
  unfoldable pub try_push_back : ℕ → FixedVec T → T → FixedVec T × Bool
  try_push_back cap v x =
      if leb cap v.size
      then (v, false)
      else (record { cells = set v.cells v.size x; size = v.size + 1 }, true)

  -- The debug assertions that the vector is not empty, and that the index is in use, are left out.
  unfoldable pub pop_back : FixedVec T → FixedVec T
  pop_back v = record v { size = v.size - 1 }

  unfoldable pub clear : FixedVec T → FixedVec T
  clear v = record v { size = 0 }

  -- An unchecked read: `d` stands for what lies outside of the array.
  unfoldable pub at : FixedVec T → ℕ → T → T
  at v idx d = get_or v.cells idx d

  unfoldable pub is_full : ℕ → FixedVec T → Bool
  is_full cap v = leb cap v.size

  unfoldable pub swap_erase : FixedVec T → ℕ → T → FixedVec T
  unfolding at
  swap_erase v idx d = record {
    cells = if ltb idx (v.size - 1) then set v.cells idx (at v (v.size - 1) d) else v.cells;
    size = v.size - 1;
  }
