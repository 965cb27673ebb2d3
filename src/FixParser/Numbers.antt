-- ===== src/FixParser/Numbers.antt =====
-- `parse_int64` and `parse_uint64` of src/ingest/fix_parser.cpp: `std::from_chars` in base ten on the
-- whole of a range of bytes. It reads no sign but a '-' before a signed number, wants a digit, and
-- refuses a number that does not fit.
use fx_dropcopy_primary_reco.Prelude.{
  ℕ, zero, suc, ◌+◌, ◌-◌, ◌*◌, Bool, ◌&&◌, Option, none, some, List, [], ◌∷◌, ltb, leb, ◌==◌,
  if◌then◌else◌, u64,
}
use fx_dropcopy_primary_reco.Prelude.Int.{ℤ, pos, negsuc}

unfoldable pub is_digit : ℕ → Bool
is_digit c = leb 48 c && leb c 57

-- The number that `acc` and then the digits write.
unfoldable pub scan_digits : ℕ → List ℕ → Option ℕ
scan_digits acc [] = some acc
scan_digits acc (c ∷ cs) =
    let rest = scan_digits (acc * 10 + (c - 48)) cs in if is_digit c then rest else none

abbrev pub fits : ℕ → Option ℕ → Option ℕ
fits limit none = none
fits limit (some n) = if ltb n limit then some n else none

unfoldable pub digits_below : ℕ → List ℕ → Option ℕ
digits_below limit [] = none
digits_below limit (c ∷ cs) = fits limit (scan_digits 0 (c ∷ cs))

unfoldable pub parse_uint64 : List ℕ → Option ℕ
parse_uint64 bytes = digits_below u64 bytes

abbrev pub positive : Option ℕ → Option ℤ
positive none = none
positive (some n) = some (pos n)

abbrev pub negative : Option ℕ → Option ℤ
negative none = none
negative (some zero) = some (pos 0)
negative (some (suc n)) = some (negsuc n)

-- The byte of '-' is 45.
unfoldable pub parse_int64 : List ℕ → Option ℤ
parse_int64 [] = none
parse_int64 (c ∷ cs) =
    if c == 45
    then negative (digits_below 9_223_372_036_854_775_809 cs)
    else positive (digits_below 9_223_372_036_854_775_808 (c ∷ cs))
