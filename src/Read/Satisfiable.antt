-- ===== src/Read/Satisfiable.antt =====
-- The bytes that a Range header asks for (RFC 9110, 14.1.2), and those served.
use lakewing.Prelude.{
  ℕ, ◌-◌, ◌^◌, ◌<◌, ◌≡◌, min, Option, none, some, ◌&&◌, ltb, leb, ◌==◌, arith, if◌then◌else◌,
}
use lakewing.Prelude.Int.{ℤ, pos, as_i64_small}
use lakewing.Read.Request.{Range, int, suffix, range_params, eff_range, unsatisfiable}

-- First and last byte of the range, `none` if no byte of the object is in it.
abbrev pub requested : ℕ → Option Range → Option (ℕ × ℕ)
requested size none = some (0, size - 1)
requested size (some (int first none)) = if ltb first size then some (first, size - 1) else none
requested size (some (int first (some last))) =
    if ltb first size && leb first last then some (first, min last (size - 1)) else none
requested size (some (suffix n)) = if n == 0 then none else some (size - n, size - 1)

-- The numbers of the header are i64 values.
abbrev pub FitsI64 : Option Range → Type 0
FitsI64 none = Unit
FitsI64 (some (int first none)) = first < 2 ^ 63
FitsI64 (some (int first (some last))) = (first < 2 ^ 63) × (last < 2 ^ 63)
FitsI64 (some (suffix n)) = n < 2 ^ 63

-- What a GET serves: `none` is InvalidRange.
abbrev pub served : ℕ → Option Range → Option (ℤ × ℤ)
served size r =
    let e = eff_range size (range_params r) in if unsatisfiable size e then none else some e

abbrev pub as_offsets : Option (ℕ × ℕ) → Option (ℤ × ℤ)
as_offsets none = none
as_offsets (some r) = some (pos r.0, pos r.1)

-- For an object that is not empty and a Range header whose numbers are below 2^63, a GET serves
-- exactly the bytes that the header asks for, and answers InvalidRange if there are none.
pub eff_range-range_params :
    (size : ℕ) (r : Option Range)
    → 0 < size
    → FitsI64 r
    → served size r ≡ as_offsets (requested size r)
unfolding range_params eff_range unsatisfiable
eff_range-range_params size none some_bytes fits = ground arith
eff_range-range_params size (some (int first none)) some_bytes fits =
    rw (as_i64_small first fits) (ground arith)
eff_range-range_params size (some (int first (some last))) some_bytes fits =
    rw (as_i64_small first fits.0, as_i64_small last fits.1) (ground arith)
eff_range-range_params size (some (suffix n)) some_bytes fits =
    rw (as_i64_small n fits) (ground arith)
