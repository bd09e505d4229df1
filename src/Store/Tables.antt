-- ===== src/Store/Tables.antt =====
-- The tables of crates/pgvs3/schema.sql as lists of rows, and the statements that db.rs runs on
-- them. A statement without ORDER BY may return its rows in any order: the list's order stands
-- for the order that PostgreSQL happens to choose.
use lakewing.Prelude.{
  ℕ, Option, none, some, Bool, false, ◌&&◌, ◌||◌, List, [], ◌∷◌, leb, ◌==◌, if◌then◌else◌,
}
use lakewing.Prelude.Text.{Text, text_eq}
use lakewing.Cache.Meta.{Meta}
use lakewing.Ingest.Format.{CopyRow}
use lakewing.Read.Plan.{Piece}
use lakewing.Read.Span.{Row}

pub record Bucket : Type 0 where
  pub name : Text
  pub created_at : ℕ

-- `s3p.objects`: the columns besides the primary key are those of `Meta`.
pub record Object : Type 0 where
  pub bucket : Text
  pub key : Text
  pub meta : Meta

pub record Upload : Type 0 where
  pub upload_id : Text
  pub bucket : Text
  pub key : Text
  pub created_at : ℕ

pub record UploadPart : Type 0 where
  pub upload_id : Text
  pub part_no : ℕ
  pub file_id : ℕ
  pub size : ℕ
  pub sha256 : List ℕ

pub record Db : Type 0 where
  pub buckets : List Bucket
  pub objects : List Object
  pub chunks : List CopyRow
  pub uploads : List Upload
  pub upload_parts : List UploadPart
  -- The sequence behind `file_id`; `nextval` is never undone.
  pub next_file : ℕ

-- `SELECT 1 FROM s3p.buckets WHERE name = $1`
unfoldable pub has_bucket : Text → List Bucket → Bool
has_bucket name [] = false
has_bucket name (b ∷ bs) = text_eq b.name name || has_bucket name bs

abbrev pub is_at : Text → Text → Object → Bool
is_at bucket key o = text_eq o.bucket bucket && text_eq o.key key

-- `SELECT ... FROM s3p.objects WHERE bucket = $1 AND key = $2`
unfoldable pub find_object : Text → Text → List Object → Option Meta
find_object bucket key [] = none
find_object bucket key (o ∷ os) =
    if is_at bucket key o then some o.meta else find_object bucket key os

-- `INSERT INTO s3p.objects ... ON CONFLICT (bucket, key) DO UPDATE`
unfoldable pub upsert_object : Text → Text → Meta → List Object → List Object
upsert_object bucket key m [] = record { bucket = bucket; key = key; meta = m } ∷ []
upsert_object bucket key m (o ∷ os) =
    if is_at bucket key o then record o { meta = m } ∷ os else o ∷ upsert_object bucket key m os

-- `DELETE FROM s3p.objects WHERE bucket = $1 AND key = $2`, on the primary key
unfoldable pub delete_object_row : Text → Text → List Object → List Object
delete_object_row bucket key [] = []
delete_object_row bucket key (o ∷ os) =
    if is_at bucket key o then os else o ∷ delete_object_row bucket key os

unfoldable pub mem_id : ℕ → List ℕ → Bool
mem_id n [] = false
mem_id n (k ∷ ks) = k == n || mem_id n ks

-- `DELETE FROM s3p.chunks WHERE file_id = ANY($1)`
unfoldable pub delete_chunks : List ℕ → List CopyRow → List CopyRow
delete_chunks dead [] = []
delete_chunks dead (c ∷ cs) =
    let rest = delete_chunks dead cs in if mem_id c.file_id dead then rest else c ∷ rest

-- `GET_RANGE_SQL`
unfoldable pub select_rows : Piece → List CopyRow → List Row
select_rows p [] = []
select_rows p (c ∷ cs) =
    let rest = select_rows p cs in
    if c.file_id == p.file_id && (leb p.lo c.row_no && leb c.row_no p.hi)
    then record { row_no = c.row_no; bytes = c.bytes } ∷ rest
    else rest
