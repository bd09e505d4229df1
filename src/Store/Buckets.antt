-- ===== src/Store/Buckets.antt =====
-- The bucket operations of crates/pgvs3/src/db.rs. `FOR UPDATE` on the bucket's row makes a
-- deletion wait for the writers that refer to it, so each operation runs whole here.
use lakewing.Prelude.{ℕ, Bool, false, ◌||◌, List, [], ◌∷◌, ◌++◌, if◌then◌else◌}
use lakewing.Prelude.Text.{Text, text_eq, text_lt}
use lakewing.Store.Tables.{Bucket, Object, Upload, Db, has_bucket}

-- `INSERT INTO s3p.buckets (name) VALUES ($1) ON CONFLICT (name) DO NOTHING`
unfoldable pub create_bucket : Text → ℕ → Db → Db
create_bucket name now db =
    if has_bucket name db.buckets
    then db
    else record db { buckets = db.buckets ++ (record { name = name; created_at = now } ∷ []) }

unfoldable pub bucket_exists : Text → Db → Bool
bucket_exists name db = has_bucket name db.buckets

pub data BucketDeletion : Type 0 where
  deleted : BucketDeletion
  not_empty : BucketDeletion
  not_found : BucketDeletion

-- `SELECT 1 FROM s3p.objects WHERE bucket = $1`
unfoldable pub has_objects : Text → List Object → Bool
has_objects name [] = false
has_objects name (o ∷ os) = text_eq o.bucket name || has_objects name os

-- `SELECT 1 FROM s3p.uploads WHERE bucket = $1`
unfoldable pub has_uploads : Text → List Upload → Bool
has_uploads name [] = false
has_uploads name (u ∷ us) = text_eq u.bucket name || has_uploads name us

-- `DELETE FROM s3p.buckets WHERE name = $1`, on the primary key
unfoldable pub delete_bucket_row : Text → List Bucket → List Bucket
delete_bucket_row name [] = []
delete_bucket_row name (b ∷ bs) = if text_eq b.name name then bs else b ∷ delete_bucket_row name bs

unfoldable pub delete_bucket : Text → Db → BucketDeletion × Db
delete_bucket name db =
    if has_bucket name db.buckets
    then (if has_objects name db.objects || has_uploads name db.uploads
        then (not_empty, db)
        else (deleted, record db { buckets = delete_bucket_row name db.buckets }))
    else (not_found, db)

-- `ORDER BY name`, as an insertion into a sorted list. The database's collation is taken to be
-- byte order.
unfoldable pub insert_bucket : Bucket → List Bucket → List Bucket
insert_bucket b [] = b ∷ []
insert_bucket b (c ∷ cs) =
    let rest = insert_bucket b cs in if text_lt c.name b.name then c ∷ rest else b ∷ c ∷ cs

unfoldable pub sort_buckets : List Bucket → List Bucket
sort_buckets [] = []
sort_buckets (b ∷ bs) = insert_bucket b (sort_buckets bs)

unfoldable pub buckets : Db → List Bucket
buckets db = sort_buckets db.buckets
