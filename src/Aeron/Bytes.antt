-- ===== src/Aeron/Bytes.antt =====
-- The bytes of numbers in the messages of src/api/aeron_publisher.cpp and
-- src/ingest/aeron_subscriber.cpp: little-endian words, as on the machines that the daemon runs on,
-- and `std::to_string` of a `std::size_t`.
use fx_dropcopy_primary_reco.Prelude.{
  ℕ, zero, suc, ◌+◌, ◌-◌, ◌*◌, ◌/◌, ◌%◌, ◌^◌, ◌<◌, ◌≡◌, refl, ap, List, [], ◌∷◌, ◌++◌, arith,
  length, ltb, if◌then◌else◌,
}
use fx_dropcopy_primary_reco.Prelude.Int.{ℤ, pos, negsuc, to_u64, IsInt64}

-- The number that the first n bytes hold.
unfoldable pub read_le : ℕ → List ℕ → ℕ
read_le zero bytes = 0
read_le (suc n) [] = 0
read_le (suc n) (b ∷ bytes) = b + 256 * read_le n bytes

unfoldable pub write_le : ℕ → ℕ → List ℕ
write_le zero v = []
write_le (suc n) v = (v % 256) ∷ write_le n (v / 256)

-- The bits of a 64-bit word as a signed number, and back.
unfoldable pub to_int64 : ℕ → ℤ
to_int64 n =
    if ltb n 9_223_372_036_854_775_808 then pos n else negsuc (18_446_744_073_709_551_615 - n)

abbrev pub of_int64 : ℤ → ℕ
of_int64 a = to_u64 a

unfoldable pub print_digits : ℕ → ℕ → List ℕ → List ℕ
print_digits zero n acc = acc
print_digits (suc fuel) n acc =
    let rest = print_digits fuel (n / 10) ((48 + n % 10) ∷ acc) in
    if ltb n 10 then (48 + n) ∷ acc else rest

-- A 64-bit number has at most twenty digits.
unfoldable pub print_size : ℕ → List ℕ
unfolding print_digits
print_size n = print_digits 20 n []

pub length-write_le : (n v : ℕ) → length (write_le n v) ≡ n
unfolding write_le
length-write_le zero v = refl
length-write_le (suc n) v = ap suc (length-write_le n (v / 256))

pub read_le-write_le :
    (n v : ℕ) (rest : List ℕ) → v < 256 ^ n → read_le n (write_le n v ++ rest) ≡ v
unfolding read_le write_le
read_le-write_le zero v rest h = ground arith
read_le-write_le (suc n) v rest h =
    let q = read_le-write_le n (v / 256) rest (grind arith) in omega (arith, q)

pub to_int64-of_int64 : (a : ℤ) → IsInt64 a → to_int64 (of_int64 a) ≡ a
unfolding to_int64
to_int64-of_int64 (pos n) h = ground arith
to_int64-of_int64 (negsuc n) h = ground arith
