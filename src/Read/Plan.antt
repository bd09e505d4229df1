-- ===== src/Read/Plan.antt =====
-- `plan`, `part_ranges` and `row_slice` of crates/pgvs3/src/db.rs: which rows a byte range needs.
-- Offsets are non-negative here, as `get_body` calls `stream_span` only with `0 <= start <= end`.
use lakewing.Prelude.{
  ℕ, zero, suc, ◌+◌, ◌-◌, ◌*◌, ◌/◌, min, max, Option, none, some, Bool, ◌||◌, List, [], ◌∷◌, ◌++◌,
  map, length, slice, ltb, leb, ◌==◌, if◌then◌else◌,
}
use lakewing.Prelude.Int.{pos, pos_part, ◌-ℤ◌, leb_ℤ, min_ℤ}
use lakewing.Layout.{row_bytes, as_i32, i32_max}
use lakewing.Cache.Meta.{Meta, Segment, segments}

-- `Piece`: rows `[lo, hi]` of file `file_id`, which starts at object byte `base`.
pub record Piece : Type 0 where
  pub file_id : ℕ
  pub base : ℕ
  pub lo : ℕ
  pub hi : ℕ

-- `lo.saturating_add(k)` on i32
abbrev saturating_add : ℕ → ℕ → ℕ
saturating_add lo k = min (lo + k) i32_max

-- `(lo..=last).step_by(step).map(...)`; the fuel bounds the number of ranges.
unfoldable pub part_ranges_from : ℕ → ℕ → ℕ → ℕ → List (ℕ × ℕ)
part_ranges_from zero lo last step = []
part_ranges_from (suc fuel) lo last step =
    let rest = part_ranges_from fuel (lo + step) last step in
    if leb lo last then (lo, min (saturating_add lo (step - 1)) last) ∷ rest else []

-- `part_ranges`. The step is at least 1, so there are at most `last - first + 1` ranges.
unfoldable pub part_ranges : ℕ → ℕ → ℕ → List (ℕ × ℕ)
part_ranges first last step =
    part_ranges_from (last + 1 - first) first last (min (max step 1) i32_max)

-- The guard of the loop in `plan`.
unfoldable pub outside : Segment → ℕ → ℕ → Bool
outside g start end = g.len == 0 || ltb (g.base + g.len - 1) start || ltb end g.base

unfoldable pub piece : Segment → ℕ × ℕ → Piece
piece g r = record { file_id = g.file_id; base = g.base; lo = r.0; hi = r.1 }

-- One iteration of the loop in `plan`.
unfoldable pub plan_segment : Segment → ℕ → ℕ → ℕ → List Piece
unfolding outside piece
plan_segment g start end step =
    if outside g start end
    then []
    else map (piece g) (
        part_ranges (as_i32 ((max start g.base - g.base) / row_bytes))
          (as_i32 ((min end (g.base + g.len - 1) - g.base) / row_bytes)) step)

unfoldable pub plan_segments : List Segment → ℕ → ℕ → ℕ → List Piece
plan_segments [] start end step = []
plan_segments (g ∷ gs) start end step =
    plan_segment g start end step ++ plan_segments gs start end step

unfoldable pub plan : Meta → ℕ → ℕ → ℕ → List Piece
plan m start end step = plan_segments (segments m) start end step

-- `row_slice`. `hi` may be negative, so it is an integer.
unfoldable pub row_slice : ℕ → ℕ → List ℕ → ℕ → ℕ → Option (List ℕ)
row_slice base row_no bytes start end =
    let row_start = base + row_no * row_bytes in
    let lo = max start row_start - row_start in
    let hi = min_ℤ (pos end) (pos (row_start + length bytes) -ℤ pos 1) -ℤ pos row_start in
    if leb_ℤ (pos lo) hi then some (slice bytes lo (pos_part hi + 1)) else none
