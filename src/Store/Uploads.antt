-- ===== src/Store/Uploads.antt =====
-- The multipart uploads of crates/pgvs3/src/db.rs. Each operation is one transaction that locks
-- the upload's row first, so it runs whole here.
use lakewing.Prelude.{
  ℕ, ◌+◌, Option, none, some, Bool, true, false, ◌&&◌, ◌||◌, not, List, [], ◌∷◌, ◌++◌, ltb, leb,
  ◌==◌, length, if◌then◌else◌,
}
use lakewing.Prelude.Text.{Text, text_eq}
use lakewing.Ingest.{Digest, digest}
use lakewing.Store.Tables.{Db, Upload, UploadPart, has_bucket, delete_chunks}
use lakewing.Store.Objects.{Tx, commit, rollback, unconditional, ObjectWrite, swap_object, hex}

-- `uploads_bucket_key_unique`
abbrev pub upload_of : Text → Text → Upload → Bool
upload_of bucket key u = text_eq u.bucket bucket && text_eq u.key key

-- `SELECT upload_id ... WHERE bucket = $1 AND key = $2`
unfoldable pub find_upload_of : Text → Text → List Upload → Option Text
find_upload_of bucket key [] = none
find_upload_of bucket key (u ∷ us) =
    if upload_of bucket key u then some u.upload_id else find_upload_of bucket key us

-- `create_upload`. `uuid` is what `gen_random_uuid()` returns. The update on conflict changes
-- nothing but makes the statement return the upload that is there.
unfoldable pub create_upload : Text → Text → Text → ℕ → Db → Option Text × Db
create_upload uuid bucket key now db =
    if has_bucket bucket db.buckets
    then (elim (find_upload_of bucket key db.uploads) [
      | some id ↦ (some id, db)
      | none ↦ (
        some uuid,
        record db {
          uploads =
              db.uploads
              ++ (record { upload_id = uuid; bucket = bucket; key = key; created_at = now } ∷ []);
        },
      )
    ])
    else (none, db)

-- `SELECT bucket, key FROM s3p.uploads WHERE upload_id = $1`
unfoldable pub find_upload : Text → List Upload → Option Upload
find_upload upload_id [] = none
find_upload upload_id (u ∷ us) =
    if text_eq u.upload_id upload_id then some u else find_upload upload_id us

-- The lookup of `upload_exists` and `abort_upload`; `upload_id` is the primary key.
unfoldable pub upload_exists : Text → Text → Text → Db → Bool
upload_exists upload_id bucket key db = elim (find_upload upload_id db.uploads) [
  | none ↦ false
  | some u ↦ upload_of bucket key u
]

-- `WHERE upload_id = $1` on `s3p.upload_parts`
unfoldable pub parts_in : Text → List UploadPart → List UploadPart
parts_in upload_id [] = []
parts_in upload_id (p ∷ ps) =
    let rest = parts_in upload_id ps in if text_eq p.upload_id upload_id then p ∷ rest else rest

-- `ORDER BY part_no`
unfoldable pub insert_part : UploadPart → List UploadPart → List UploadPart
insert_part p [] = p ∷ []
insert_part p (q ∷ qs) =
    let rest = insert_part p qs in if ltb q.part_no p.part_no then q ∷ rest else p ∷ q ∷ qs

unfoldable pub sort_parts : List UploadPart → List UploadPart
sort_parts [] = []
sort_parts (p ∷ ps) = insert_part p (sort_parts ps)

-- `want.sort_by_key(|(no, _)| *no)`, which is stable.
unfoldable pub insert_want : ℕ × Text → List (ℕ × Text) → List (ℕ × Text)
insert_want w [] = w ∷ []
insert_want w (v ∷ vs) = let rest = insert_want w vs in if leb w.0 v.0 then w ∷ v ∷ vs else v ∷ rest

unfoldable pub sort_want : List (ℕ × Text) → List (ℕ × Text)
sort_want [] = []
sort_want (w ∷ ws) = insert_want w (sort_want ws)

unfoldable pub delete_upload : Text → List Upload → List Upload
delete_upload upload_id [] = []
delete_upload upload_id (u ∷ us) =
    if text_eq u.upload_id upload_id then us else u ∷ delete_upload upload_id us

-- `ON DELETE CASCADE` of `s3p.upload_parts`
unfoldable pub delete_parts : Text → List UploadPart → List UploadPart
delete_parts upload_id [] = []
delete_parts upload_id (p ∷ ps) =
    let rest = delete_parts upload_id ps in if text_eq p.upload_id upload_id then rest else p ∷ rest

-- `DELETE FROM s3p.uploads WHERE upload_id = $1`
unfoldable pub drop_upload : Text → Db → Db
drop_upload upload_id db = record db {
  uploads = delete_upload upload_id db.uploads;
  upload_parts = delete_parts upload_id db.upload_parts;
}

-- `hasher`, `size`, `ids`, `ends` of the loop in `complete_upload`; the hasher as the bytes fed to
-- it.
pub record Gathered : Type 0 where
  pub hashed : List ℕ
  pub size : ℕ
  pub ids : List ℕ
  pub ends : List ℕ

unfoldable pub gather_part : Gathered → UploadPart → Gathered
gather_part g r = record {
  hashed = g.hashed ++ r.sha256;
  size = g.size + r.size;
  ids = g.ids ++ (r.file_id ∷ []);
  ends = g.ends ++ ((g.size + r.size) ∷ []);
}

-- `for (p, r) in want.iter().zip(&rows)`; `none` is `InvalidPart`
unfoldable pub gather : Gathered → List (ℕ × Text) → List UploadPart → Option Gathered
gather g [] rows = some g
gather g (p ∷ ps) [] = some g
gather g (p ∷ ps) (r ∷ rs) =
    let rest = gather (gather_part g r) ps rs in
    if not (p.0 == r.part_no) || not (text_eq p.1 (hex r.sha256)) then none else rest

abbrev pub nothing_gathered : Gathered
nothing_gathered = record { hashed = []; size = 0; ids = []; ends = [] }

-- `Completed`
pub data Completed : Type 0 where
  done : Text → Text → List ℕ → ℕ → Completed
  invalid_part : Completed
  no_such_upload : Completed

-- `ids[0]`. The list is not empty where it is used.
abbrev pub first_id : List ℕ → ℕ
first_id [] = 0
first_id (id ∷ ids) = id

module _ (d : Digest) where
  -- The write that publishes what was gathered.
  unfoldable pub completed_write : Gathered → ObjectWrite
  completed_write g = record {
    file_id = first_id g.ids;
    size = g.size;
    etag = digest d g.hashed;
    parts = some (g.ids, g.ends);
    condition = unconditional;
  }

  -- `complete_upload`, at time `now`, with the write that it publishes to the cache afterwards. A
  -- transaction that is dropped without a commit leaves the database as it was.
  unfoldable pub complete_upload :
      Text → Text → Text → List (ℕ × Text) → ℕ → Db → Tx (Completed × Option ObjectWrite)
  complete_upload upload_id bucket key listed now db =
      if upload_exists upload_id bucket key db
      then (let rows = sort_parts (parts_in upload_id db.upload_parts) in
          let want = sort_want listed in
          if length want == 0 || not (length want == length rows)
          then commit (invalid_part, none) db
          else elim (gather nothing_gathered want rows) [
            | none ↦ commit (invalid_part, none) db
            | some g ↦ elim (swap_object bucket key (completed_write g) now db) [
              | rollback e ↦ rollback e
              | commit u db' ↦
                  commit (done bucket key (digest d g.hashed) g.size, some (completed_write g))
                    (drop_upload upload_id db')
            ]
          ])
      else commit (no_such_upload, none) db

-- The file ids of the parts.
unfoldable pub part_ids : List UploadPart → List ℕ
part_ids [] = []
part_ids (p ∷ ps) = p.file_id ∷ part_ids ps

-- `abort_upload`
unfoldable pub abort_upload : Text → Text → Text → Db → Bool × Db
abort_upload upload_id bucket key db =
    if upload_exists upload_id bucket key db
    then (let db' = drop_upload upload_id db in
        (
          true,
          record db' {
            chunks = delete_chunks (part_ids (parts_in upload_id db.upload_parts)) db.chunks;
          },
        ))
    else (false, db)
