-- ===== src/Read/Request.antt =====
-- The Range header: `range_params` of crates/pgvs3/src/server.rs, `eff_range` and `SliceMeta` of
-- crates/pgvs3/src/db.rs. The header's numbers are u64 and the offsets are i64.
use lakewing.Prelude.{ℕ, Option, none, some, Bool, ◌&&◌, ◌||◌, List, ltb, if◌then◌else◌}
use lakewing.Prelude.Int.{ℤ, pos, negsuc, pos_part, ◌-ℤ◌, ◌+ℤ◌, leb_ℤ, ltb_ℤ, min_ℤ, max_ℤ, as_i64}

-- `s3s::dto::Range`
pub data Range : Type 0 where
  int : ℕ → Option ℕ → Range
  suffix : ℕ → Range

-- The parameters of `get_body`: `first`, `last` and `suffix`.
pub record RangeParams : Type 0 where
  pub first : ℤ
  pub last : ℤ
  pub suffix_len : ℤ

abbrev pub minus_one : ℤ
minus_one = negsuc 0

unfoldable pub range_params : Option Range → RangeParams
range_params none = record { first = pos 0; last = minus_one; suffix_len = minus_one }
range_params (some (int first last)) = record {
  first = as_i64 first;
  last = elim last [ none ↦ minus_one | some v ↦ as_i64 v ];
  suffix_len = minus_one;
}
range_params (some (suffix n)) = record { first = pos 0; last = minus_one; suffix_len = as_i64 n }

unfoldable pub eff_range : ℕ → RangeParams → ℤ × ℤ
eff_range size p =
    if leb_ℤ (pos 0) p.suffix_len
    then (max_ℤ (pos size -ℤ p.suffix_len) (pos 0), pos size -ℤ pos 1)
    else (
      max_ℤ p.first (pos 0),
      if leb_ℤ (pos 0) p.last then min_ℤ p.last (pos size -ℤ pos 1) else pos size -ℤ pos 1,
    )

-- `SliceMeta`
pub record SliceMeta : Type 0 where
  pub size : ℕ
  pub etag : List ℕ
  pub created_at : ℕ
  pub file_id : ℕ
  pub start : ℤ
  pub end : ℤ

-- `SliceMeta::len`, which is never negative.
unfoldable pub slice_len : ℤ → ℤ → ℕ
slice_len start end = pos_part (max_ℤ ((end -ℤ start) +ℤ pos 1) (pos 0))

-- The guard of `get_body` and of `get_object`: `size > 0 && (start > end || start >= size)`.
unfoldable pub unsatisfiable : ℕ → ℤ × ℤ → Bool
unsatisfiable size r = ltb 0 size && (ltb_ℤ r.1 r.0 || leb_ℤ (pos size) r.0)
