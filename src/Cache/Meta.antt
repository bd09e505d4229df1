-- ===== src/Cache/Meta.antt =====
-- `Meta` and `Meta::segments` of crates/pgvs3/src/cache.rs.
use lakewing.Prelude.{ℕ, ◌-◌, Option, some, List, [], ◌∷◌, length, ◌==◌, if◌then◌else◌}

-- `Meta`. Sizes, file ids and offsets are `int8` columns that are never negative.
pub record Meta : Type 0 where
  pub size : ℕ
  pub etag : List ℕ
  pub created_at : ℕ
  pub file_id : ℕ
  pub parts : Option (List ℕ)
  pub part_ends : Option (List ℕ)

-- `(file_id, object byte offset, length)` of a stored segment.
pub record Segment : Type 0 where
  pub file_id : ℕ
  pub base : ℕ
  pub len : ℕ

-- The `map` of `Meta::segments`, with `prev` its captured variable. Where `end < prev` the source
-- has a negative length and here it is 0: `plan`, the only reader, skips both.
unfoldable pub segments_from : ℕ → List ℕ → List ℕ → List Segment
segments_from prev [] ends = []
segments_from prev (id ∷ ids) [] = []
segments_from prev (id ∷ ids) (end ∷ ends) =
    record { file_id = id; base = prev; len = end - prev } ∷ segments_from end ids ends

unfoldable pub segments_of : Option (List ℕ) → Option (List ℕ) → ℕ → ℕ → List Segment
segments_of (some ids) (some ends) file_id size =
    if length ids == length ends
    then segments_from 0 ids ends
    else record { file_id = file_id; base = 0; len = size } ∷ []
segments_of _ _ file_id size = record { file_id = file_id; base = 0; len = size } ∷ []

-- `Meta::segments`
unfoldable pub segments : Meta → List Segment
segments m = segments_of m.parts m.part_ends m.file_id m.size
