-- ===== src/Mask.antt =====
-- src/core/recon_state.hpp: the reconciliation state of an order, and the one-byte mask of the
-- fields in which its two views differ.
pub mod Bits
use fx_dropcopy_primary_reco.Prelude.{
  ℕ, Bool, true, false, ◌||◌, bit_and, bit_or, bit_xor, ◌==◌, ◌!=◌,
}

pub data ReconState : Type 0 where
  unknown awaiting_primary awaiting_drop_copy in_grace matched diverged_confirmed : ReconState
  suppressed_by_gap : ReconState

abbrev pub state_byte : ReconState → ℕ
state_byte ReconState.unknown = 0
state_byte ReconState.awaiting_primary = 1
state_byte ReconState.awaiting_drop_copy = 2
state_byte ReconState.in_grace = 3
state_byte ReconState.matched = 4
state_byte ReconState.diverged_confirmed = 5
state_byte ReconState.suppressed_by_gap = 6

infix 50 ◌==ʳ◌
abbrev pub ◌==ʳ◌ : ReconState → ReconState → Bool
a ==ʳ b = state_byte a == state_byte b

unfoldable pub is_terminal_recon_state : ReconState → Bool
is_terminal_recon_state s = s ==ʳ ReconState.matched || s ==ʳ ReconState.diverged_confirmed

-- The byte `v`.
abbrev pub MismatchMask : Type 0
MismatchMask = ℕ

abbrev pub empty : MismatchMask
empty = 0

abbrev pub status_bit : ℕ
status_bit = 1

abbrev pub cum_qty_bit : ℕ
cum_qty_bit = 2

abbrev pub leaves_qty_bit : ℕ
leaves_qty_bit = 4

abbrev pub avg_px_bit : ℕ
avg_px_bit = 8

abbrev pub existence_bit : ℕ
existence_bit = 16

abbrev pub exec_id_bit : ℕ
exec_id_bit = 32

abbrev pub any : MismatchMask → Bool
any m = m != 0

abbrev pub is_none : MismatchMask → Bool
is_none m = m == 0

abbrev pub has : MismatchMask → ℕ → Bool
has m flag = bit_and m flag != 0

-- `set` of the source, and `clear`, with the complement of the flag in a byte.
abbrev pub set_flag : MismatchMask → ℕ → MismatchMask
set_flag m flag = bit_or m flag

abbrev pub clear_flag : MismatchMask → ℕ → MismatchMask
clear_flag m flag = bit_and m (bit_xor 255 flag)
