-- ===== src/Store/Untouched.antt =====
-- The calls of crates/pgvs3/src/db.rs that leave `s3p.objects` alone: buckets, parts of uploads, and
-- uploads that are created or aborted.
use lakewing.Prelude.{ℕ, ◌≡◌, ◌||◌, refl, Option, List, Bool-cases, Option-cases, inl, inr}
use lakewing.Prelude.Text.{Text}
use lakewing.Ingest.{Digest, new_framer}
use lakewing.Ingest.Format.{CopyRow}
use lakewing.Store.Tables.{Db, has_bucket}
use lakewing.Store.Objects.{Tx, commit, rollback}
use lakewing.Store.Write.{
  IngestMsg, part, has_upload, find_part, commit_part, publish, ingest_finish, ingest_loop,
  target_open, ingest_writer,
}
use lakewing.Store.Buckets.{create_bucket, delete_bucket, has_objects, has_uploads}
use lakewing.Store.Uploads.{find_upload_of, create_upload, upload_exists, abort_upload, drop_upload}
use lakewing.Store.Integrity.{AfterCommit}
use lakewing.Store.Sound.Parts.{tables-reap_part}
use lakewing.Store.Outcomes.{settled}

-- The objects are those of `db`.
abbrev SameObjects : Db → Db → Type 0
SameObjects db db' = db'.objects ≡ db.objects

objects-commit_part :
    (upload_id : Text) (part_no file_id total : ℕ) (sum : List ℕ) (db : Db)
    → AfterCommit (SameObjects db) (commit_part upload_id part_no file_id total sum db)
unfolding commit_part
objects-commit_part upload_id part_no file_id total sum db =
    elim (Bool-cases (has_upload upload_id db.uploads)) [
      | inr gone ↦ rw (gone, commit_part) tt
      | inl there ↦
          rw (there, commit_part)
            (let (objects, parts, next) =
                tables-reap_part (find_part upload_id part_no db.upload_parts) _ in
              objects)
    ]

module _ (d : Digest) (copy_in : List ℕ → Option (List CopyRow)) (upload_id : Text)
    (part_no : ℕ) where
  objects-ingest_finish :
      (file_id now : ℕ) (db : Db) (stream : List ℕ) (done : ℕ × List ℕ)
      → AfterCommit
          (SameObjects db)
          (ingest_finish d copy_in (part upload_id part_no) file_id now db stream done)
  unfolding ingest_finish publish
  objects-ingest_finish file_id now db stream (total, sum) = elim (Option-cases (copy_in stream)) [
    | inl e ↦ rw (e, ingest_finish) tt
    | inr (rows, e) ↦
        rw (e, ingest_finish)
          (passes (commit_part upload_id part_no file_id total sum _)
            (objects-commit_part upload_id part_no file_id total sum _))
  ]
    where
      passes :
          (t : Tx (Unit {0}))
          → AfterCommit (SameObjects db) t
          → AfterCommit {A = ℕ × List ℕ}
              (SameObjects db)
              (elim t [ rollback e ↦ rollback e | commit u db' ↦ commit (total, sum) db' ])
      passes (rollback e) after = after
      passes (commit u db') after = after

  objects-ingest_writer :
      (file_id now : ℕ) (msgs : List IngestMsg) (db : Db)
      → AfterCommit
          (SameObjects db)
          (ingest_writer d copy_in file_id (part upload_id part_no) now msgs db)
  unfolding ingest_writer target_open
  objects-ingest_writer file_id now msgs db =
      elim (Option-cases (ingest_loop d (new_framer d file_id) msgs)) [
        | inl e ↦ rw (e, ingest_writer) tt
        | inr (sent, e) ↦ rw (e, ingest_writer) (objects-ingest_finish file_id now db _ _)
      ]

  objects-settled :
      (db : Db) (t : Tx (ℕ × List ℕ))
      → AfterCommit (SameObjects db) t
      → SameObjects db (settled db t)
  objects-settled db (rollback e) after = refl
  objects-settled db (commit v db') after = after

  -- A part changes no object.
  pub objects-part :
      (file_id now : ℕ) (msgs : List IngestMsg) (db : Db)
      → (settled db (ingest_writer d copy_in file_id (part upload_id part_no) now msgs db)).objects
        ≡ db.objects
  objects-part file_id now msgs db =
      objects-settled db (ingest_writer d copy_in file_id (part upload_id part_no) now msgs db)
        (objects-ingest_writer file_id now msgs db)

pub objects-create_bucket :
    (name : Text) (now : ℕ) (db : Db) → (create_bucket name now db).objects ≡ db.objects
unfolding create_bucket
objects-create_bucket name now db = elim (Bool-cases (has_bucket name db.buckets)) [
  | inl there ↦ rw (there, create_bucket) refl
  | inr new ↦ rw (new, create_bucket) refl
]

pub objects-delete_bucket : (name : Text) (db : Db) → (delete_bucket name db).1.objects ≡ db.objects
unfolding delete_bucket
objects-delete_bucket name db = elim (Bool-cases (has_bucket name db.buckets)) [
  | inr gone ↦ rw (gone, delete_bucket) refl
  | inl there ↦ elim (Bool-cases (has_objects name db.objects || has_uploads name db.uploads)) [
    | inl used ↦ rw (there, delete_bucket, used) refl
    | inr free ↦ rw (there, delete_bucket, free) refl
  ]
]

pub objects-create_upload :
    (uuid bucket key : Text) (now : ℕ) (db : Db)
    → (create_upload uuid bucket key now db).1.objects ≡ db.objects
unfolding create_upload
objects-create_upload uuid bucket key now db = elim (Bool-cases (has_bucket bucket db.buckets)) [
  | inr gone ↦ rw (gone, create_upload) refl
  | inl there ↦ elim (Option-cases (find_upload_of bucket key db.uploads)) [
    | inr (id, e) ↦ rw (there, create_upload, e) refl
    | inl e ↦ rw (there, create_upload, e) refl
  ]
]

pub objects-abort_upload :
    (upload_id bucket key : Text) (db : Db)
    → (abort_upload upload_id bucket key db).1.objects ≡ db.objects
unfolding abort_upload drop_upload
objects-abort_upload upload_id bucket key db =
    elim (Bool-cases (upload_exists upload_id bucket key db)) [
      | inr gone ↦ rw (gone, abort_upload) refl
      | inl there ↦ rw (there, abort_upload) refl
    ]
