-- ===== src/Arena.antt =====
-- src/util/arena.hpp: the bump allocator of the order states.
pub mod Disjoint
use fx_dropcopy_primary_reco.Prelude.{
  ℕ, ◌+◌, ◌-◌, ◌%◌, Bool, true, false, ◌||◌, not, if◌then◌else◌, ltb, ◌==◌, Option, none, some,
  add64, sub64,
}

-- `base` is the address of the buffer, which exists unless the capacity is 0. (Its allocation is the
-- standard library's.)
pub record Arena : Type 0 where
  pub capacity_bytes : ℕ
  pub base : ℕ
  pub offset : ℕ

unfoldable pub make : ℕ → ℕ → Arena
make capacity_bytes base = record { capacity_bytes = capacity_bytes; base = base; offset = 0 }

unfoldable pub align_up : ℕ → ℕ → ℕ
align_up value alignment =
    let remainder : ℕ = value % alignment in
    if remainder == 0 then value else add64 value (alignment - remainder)

-- The address, or a null pointer.
unfoldable pub allocate : Arena → ℕ → ℕ → Arena × Option ℕ
unfolding align_up
allocate a size alignment =
    let aligned_addr = align_up (add64 a.base a.offset) alignment in
    let aligned_offset = sub64 aligned_addr a.base in
    if alignment == 0 || a.capacity_bytes == 0
    then (a, none)
    else if ltb a.capacity_bytes aligned_offset
    then (a, none)
    else if ltb (a.capacity_bytes - aligned_offset) size
    then (a, none)
    else (record a { offset = aligned_offset + size }, some (add64 a.base aligned_offset))

unfoldable pub reset : Arena → Arena
reset a = record a { offset = 0 }
