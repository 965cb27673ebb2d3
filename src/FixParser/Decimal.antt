-- ===== src/FixParser/Decimal.antt =====
-- Numbers as the messages that src/ingest/fix_parser.cpp reads write them, in decimal, and their
-- reading by `parse_int64` and `parse_uint64`.
use fx_dropcopy_primary_reco.Prelude.{
  ℕ, zero, suc, ◌+◌, ◌/◌, ◌%◌, ◌≤◌, ◌<◌, ◌≡◌, refl, ap, ◌∙◌, some, List, [], ◌∷◌, arith, ltb,
  if◌then◌else◌, All, length, inl, inr, Bool-cases, ==_false, u64,
}
use fx_dropcopy_primary_reco.Prelude.Int.{ℤ, pos, negsuc, IsInt64}
use fx_dropcopy_primary_reco.FixParser.Numbers.{
  is_digit, scan_digits, fits, digits_below, parse_uint64, positive, negative, parse_int64,
}

unfoldable pub print_below : ℕ → ℕ → List ℕ → List ℕ
print_below zero n acc = acc
print_below (suc fuel) n acc =
    let rest = print_below fuel (n / 10) ((48 + n % 10) ∷ acc) in
    if ltb n 10 then (48 + n) ∷ acc else rest

-- A number has no more digits than its successor has units.
unfoldable pub print_nat : ℕ → List ℕ
print_nat n = print_below (suc n) n []

unfoldable pub print_int : ℤ → List ℕ
print_int (pos n) = print_nat n
print_int (negsuc n) = 45 ∷ print_nat (suc n)

abbrev pub IsDigit : ℕ → Type 0
IsDigit c = (48 ≤ c) × (c ≤ 57)

scan_digits-print_below :
    (fuel n : ℕ) (acc : List ℕ)
    → n < fuel
    → scan_digits 0 (print_below fuel n acc) ≡ scan_digits n acc
unfolding scan_digits print_below is_digit
scan_digits-print_below zero n acc h = absurd (omega arith)
scan_digits-print_below (suc fuel) n acc h = elim (Bool-cases (ltb n 10)) [
  | inl small ↦ ground arith
  | inr large ↦
      ground (arith, scan_digits-print_below fuel (n / 10) ((48 + n % 10) ∷ acc) (ground arith))
]

All-IsDigit-print_below :
    (fuel n : ℕ) (acc : List ℕ) → All IsDigit acc → All IsDigit (print_below fuel n acc)
unfolding print_below
All-IsDigit-print_below zero n acc h = h
All-IsDigit-print_below (suc fuel) n acc h = elim (Bool-cases (ltb n 10)) [
  | inl small ↦ rw small ((ground arith, ground arith), h)
  | inr large ↦ rw large (
      All-IsDigit-print_below fuel (n / 10) ((48 + n % 10) ∷ acc) ((ground arith, ground arith), h))
]

-- What is printed starts with some byte.
abbrev IsNonempty : List ℕ → Type 0
IsNonempty xs = (c : ℕ) × (cs : List ℕ) × (xs ≡ c ∷ cs)

print_below-IsNonempty :
    (fuel n : ℕ) (acc : List ℕ) → IsNonempty acc → IsNonempty (print_below fuel n acc)
unfolding print_below
print_below-IsNonempty zero n acc h = h
print_below-IsNonempty (suc fuel) n acc h = elim (Bool-cases (ltb n 10)) [
  | inl small ↦ rw small (48 + n, acc, refl)
  | inr large ↦
      rw large (print_below-IsNonempty fuel (n / 10) ((48 + n % 10) ∷ acc) (48 + n % 10, acc, refl))
]

print_nat-IsNonempty : (n : ℕ) → IsNonempty (print_nat n)
unfolding print_nat print_below
print_nat-IsNonempty n = elim (Bool-cases (ltb n 10)) [
  | inl small ↦ rw small (48 + n, [], refl)
  | inr large ↦
      rw large (print_below-IsNonempty n (n / 10) ((48 + n % 10) ∷ []) (48 + n % 10, [], refl))
]

scan_digits-print_nat : (n : ℕ) → scan_digits 0 (print_nat n) ≡ some n
unfolding print_nat scan_digits
scan_digits-print_nat n = scan_digits-print_below (suc n) n [] (omega arith)

pub All-IsDigit-print_nat : (n : ℕ) → All IsDigit (print_nat n)
unfolding print_nat
All-IsDigit-print_nat n = All-IsDigit-print_below (suc n) n [] tt

fits_some : (limit n : ℕ) → n < limit → fits limit (some n) ≡ some n
fits_some limit n h = ground arith

digits_below-scan :
    (limit n : ℕ) (bytes : List ℕ)
    → IsNonempty bytes
    → scan_digits 0 bytes ≡ some n
    → n < limit
    → digits_below limit bytes ≡ some n
unfolding digits_below
digits_below-scan limit n [] full scan h = absurd (omega (arith, ap length full.2))
digits_below-scan limit n (c ∷ cs) full scan h = ap (fits limit) scan ∙ fits_some limit n h

digits_below-print_nat : (limit n : ℕ) → n < limit → digits_below limit (print_nat n) ≡ some n
digits_below-print_nat limit n h =
    digits_below-scan limit n (print_nat n) (print_nat-IsNonempty n) (scan_digits-print_nat n) h

pub parse_uint64-print_nat : (n : ℕ) → n < u64 → parse_uint64 (print_nat n) ≡ some n
unfolding parse_uint64
parse_uint64-print_nat n h = digits_below-print_nat u64 n h

-- A number that starts with a digit is read without a sign.
parse_int64_digits :
    (bytes : List ℕ)
    → IsNonempty bytes
    → All IsDigit bytes
    → parse_int64 bytes ≡ positive (digits_below 9_223_372_036_854_775_808 bytes)
unfolding parse_int64
parse_int64_digits [] full h = absurd (omega (arith, ap length full.2))
parse_int64_digits (c ∷ cs) full h = rw (==_false c 45 (λ e. omega (arith, h.0.0))) refl

-- Every value of `int64_t` is read back from its decimal form.
pub parse_int64-print_int : (a : ℤ) → IsInt64 a → parse_int64 (print_int a) ≡ some a
unfolding print_int parse_int64
parse_int64-print_int (pos n) h =
    parse_int64_digits (print_nat n) (print_nat-IsNonempty n) (All-IsDigit-print_nat n)
    ∙ ap positive (digits_below-print_nat 9_223_372_036_854_775_808 n h.0)
parse_int64-print_int (negsuc n) h =
    ap negative (digits_below-print_nat 9_223_372_036_854_775_809 (suc n) (omega (arith, h.1)))
