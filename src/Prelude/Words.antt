-- ===== src/Prelude/Words.antt =====
-- Unsigned machine words: a w-bit value is a number, and its arithmetic wraps at 2 ^ w.
use Prim.Native.Nat.{ℕ, zero, suc, ◌+◌, ◌-◌, ◌%◌, ◌<◌, ◌≤◌}
use mathlib.Core.Path.{◌≡◌}
use mathlib.Core.Bool.{Bool, true, false}
use mathlib.Core.Logic.{inl, inr}
use native.Mathlib.Omega.{arith}
use fx_dropcopy_primary_reco.Prelude.Tests.{if◌then◌else◌, ◌==◌, Bool-cases}

abbrev pub u8 : ℕ
u8 = 256

abbrev pub u16 : ℕ
u16 = 65_536

abbrev pub u32 : ℕ
u32 = 4_294_967_296

abbrev pub u64 : ℕ
u64 = 18_446_744_073_709_551_616

abbrev pub add64 : ℕ → ℕ → ℕ
add64 a b = (a + b) % u64

abbrev pub sub64 : ℕ → ℕ → ℕ
sub64 a b = (a + u64 - b) % u64

abbrev pub inc64 : ℕ → ℕ
inc64 a = (a + 1) % u64

abbrev pub inc32 : ℕ → ℕ
inc32 a = (a + 1) % u32

-- A test on `count` numbers from `first` on.
unfoldable pub holds_from : (ℕ → Bool) → ℕ → ℕ → Bool
holds_from test first zero = true
holds_from test first (suc count) =
    let others = holds_from test (first + 1) count in if test first then others else false

pub holds_from-at :
    (test : ℕ → Bool) (first count v : ℕ)
    → holds_from test first count ≡ true
    → first ≤ v
    → v < first + count
    → test v ≡ true
unfolding holds_from
holds_from-at test first zero v h low high = absurd (omega arith)
holds_from-at test first (suc count) v h low high = elim (Bool-cases (v == first)) [
  | inl here ↦ let q : v ≡ first = ground arith in rw q (ground arith)
  | inr later ↦ holds_from-at test (first + 1) count v (ground arith) (ground arith) (omega arith)
]
