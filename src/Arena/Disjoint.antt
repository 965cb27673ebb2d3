-- ===== src/Arena/Disjoint.antt =====
-- The memory that src/util/arena.hpp hands out.
use native.Mathlib.Nat.{mod-lt}
use fx_dropcopy_primary_reco.Prelude.{ℕ, ◌+◌, ◌-◌, ◌%◌, ◌≤◌, ◌<◌, ◌≡◌, arith, u64, none, some}
use fx_dropcopy_primary_reco.Arena.{Arena, align_up, allocate}

-- The buffer lies below the end of the address space, with room for one alignment.
pub record IsValid (alignment : ℕ) (a : Arena) : Type 0 where
  pub inside : a.offset ≤ a.capacity_bytes
  pub addressable : a.base + a.capacity_bytes + alignment < u64

round_up : (v al : ℕ) → 0 < al → (v + (al - v % al)) % al ≡ 0
round_up v al h = grind arith

align_up_lem :
    (v al : ℕ)
    → 0 < al
    → v + al < u64
    → (v ≤ align_up v al) × (align_up v al < v + al) × (align_up v al % al ≡ 0)
unfolding align_up
align_up_lem v al h k = ground (arith, round_up v al h, mod-lt v {m = al} h)

-- A block that was handed out: aligned, behind all that was handed out before, inside of the buffer.
pub record Block (a a' : Arena) (size al p : ℕ) : Type 0 where
  pub aligned : p % al ≡ 0
  pub behind : a.base + a.offset ≤ p
  pub inside : p + size ≤ a.base + a.capacity_bytes
  pub next : a'.base + a'.offset ≡ p + size
  pub same_base : a'.base ≡ a.base
  pub same_capacity : a'.capacity_bytes ≡ a.capacity_bytes

-- An allocation that succeeds hands out a fresh block and keeps the arena well formed.
allocate-Block :
    (a a' : Arena) (size al p : ℕ)
    → 0 < al
    → IsValid al a
    → allocate a size al ≡ (a', some p)
    → Block a a' size al p × IsValid al a'
unfolding allocate
allocate-Block a a' size al p h v e = ground (arith, align_up_lem (a.base + a.offset) al h)

-- One that fails changes nothing, and the request did not fit behind what was handed out.
pub allocate_refused :
    (a a' : Arena) (size al : ℕ)
    → 0 < al
    → IsValid al a
    → allocate a size al ≡ (a', none)
    → (a' ≡ a) × (a.capacity_bytes < a.offset + size + al)
unfolding allocate
allocate_refused a a' size al h v e = ground (arith, align_up_lem (a.base + a.offset) al h)

-- Two allocations in a row never overlap.
pub allocate_disjoint :
    (a b c : Arena) (size size' al p q : ℕ)
    → 0 < al
    → IsValid al a
    → allocate a size al ≡ (b, some p)
    → allocate b size' al ≡ (c, some q)
    → (p + size ≤ q) × (q + size' ≤ a.base + a.capacity_bytes)
allocate_disjoint a b c size size' al p q h v e f =
    let (x, w) = allocate-Block a b size al p h v e in
    let (y, _) = allocate-Block b c size' al q h w f in (omega arith, omega arith)
