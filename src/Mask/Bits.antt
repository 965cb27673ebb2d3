-- ===== src/Mask/Bits.antt =====
-- Flags in a byte, for the masks of src/core/recon_state.hpp and the gap flags of
-- src/core/order_state.hpp.
use fx_dropcopy_primary_reco.Prelude.{
  ℕ, ◌<◌, ◌≡◌, refl, Bool, true, false, not, ◌&&◌, ◌||◌, arith, bit_and, ◌==◌, ltb, u8, holds_from,
  holds_from-at,
}
use fx_dropcopy_primary_reco.Mask.{has, set_flag, clear_flag}

-- What setting and clearing the flag `f` does to itself and to another flag `g`.
flag_law : ℕ → ℕ → ℕ → Bool
flag_law f g v =
    has (set_flag v f) f
    && not (has (clear_flag v f) f)
    && (bit_and (set_flag v f) g == bit_and v g)
    && (bit_and (clear_flag v f) g == bit_and v g)
    && ltb (set_flag v f) u8
    && ltb (clear_flag v f) u8
    && (has v f || (clear_flag (set_flag v f) f == v))
    && (not (has v f) || (set_flag v f == v))

-- The two gap flags, in either order.
gap_table : holds_from (λ v. flag_law 1 2 v && flag_law 2 1 v) 0 256 ≡ true
unfolding holds_from flag_law
gap_table = refl

pub record FlagLaws (f g v : ℕ) : Type 0 where
  pub has_set : has (set_flag v f) f ≡ true
  pub not-has_clear : has (clear_flag v f) f ≡ false
  pub set-other : bit_and (set_flag v f) g ≡ bit_and v g
  pub clear-other : bit_and (clear_flag v f) g ≡ bit_and v g
  pub set-lt : set_flag v f < u8
  pub clear-lt : clear_flag v f < u8
  pub clear-set : has v f ≡ false → clear_flag (set_flag v f) f ≡ v
  pub set_known : has v f ≡ true → set_flag v f ≡ v

flag_laws : (f g v : ℕ) → flag_law f g v ≡ true → FlagLaws f g v
unfolding flag_law
flag_laws f g v h = ground arith

pub primary_laws : (v : ℕ) → v < u8 → FlagLaws 1 2 v
primary_laws v h =
    let both : (flag_law 1 2 v && flag_law 2 1 v) ≡ true =
      holds_from-at _ 0 256 v gap_table (omega arith) h in
    flag_laws 1 2 v (ground arith)

pub drop_copy_laws : (v : ℕ) → v < u8 → FlagLaws 2 1 v
drop_copy_laws v h =
    let both : (flag_law 1 2 v && flag_law 2 1 v) ≡ true =
      holds_from-at _ 0 256 v gap_table (omega arith) h in
    flag_laws 2 1 v (ground arith)
