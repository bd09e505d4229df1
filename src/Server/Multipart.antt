-- ===== src/Server/Multipart.antt =====
-- The multipart handlers of crates/pgvs3/src/server.rs.
use lakewing.Prelude.{ℕ, Option, none, some, Bool, List, [], ◌∷◌, if◌then◌else◌}
use lakewing.Prelude.Text.{Text}
use lakewing.Cache.Fifo.{MetaCache}
use lakewing.Ingest.{Digest}
use lakewing.Ingest.Format.{CopyRow}
use lakewing.Store.Tables.{Db}
use lakewing.Store.Objects.{Tx, commit, rollback, ObjectWrite}
use lakewing.Store.Write.{part, run_writer, body_messages}
use lakewing.Store.Uploads.{
  create_upload, upload_exists, Completed, done, invalid_part, no_such_upload, complete_upload,
  abort_upload,
}
use lakewing.Store.Cached.{meta_fresh, publish_cache}
use lakewing.Server.Objects.{
  S3Result, ok, err, etag, no_such_bucket, s3_invalid_part, s3_no_such_upload, internal_error,
}

-- `create_multipart_upload`
unfoldable pub create_multipart_upload : Text → Text → Text → ℕ → Db → S3Result Text × Db
create_multipart_upload uuid bucket key now db =
    let (id, db') = create_upload uuid bucket key now db in
    (elim id [ some i ↦ ok i | none ↦ err no_such_bucket ], db')

abbrev part_response : Tx (ℕ × List ℕ) → S3Result Text
part_response (commit (size, sum) db) = ok (etag sum)
part_response (rollback e) = err internal_error

-- `CompletedPart`
pub record CompletedPart : Type 0 where
  pub part_number : Option ℕ
  pub e_tag : Option Text

-- The loop that collects `parts`; `none` is InvalidPart.
unfoldable pub listed_parts : List CompletedPart → Option (List (ℕ × Text))
listed_parts [] = some []
listed_parts (p ∷ ps) =
    let rest = listed_parts ps in
    elim p.part_number [
      | none ↦ none
      | some n ↦ elim rest [
        | none ↦ none
        | some parts ↦ some ((n, (elim p.e_tag [ none ↦ [] | some e ↦ e ])) ∷ parts)
      ]
    ]

-- The answer to a `NoSuchUpload`: the object that is there, as a completion that was retried.
unfoldable pub retried : Text → Text → Db → MetaCache → S3Result Text × MetaCache
retried bucket key db c =
    let (m, c') = meta_fresh bucket key db c in
    (elim m [ none ↦ err s3_no_such_upload | some meta ↦ ok (etag meta.etag) ], c')

-- `publish_cache` at the end of `complete_upload`.
unfoldable pub publish_completed : Text → Text → Option ObjectWrite → ℕ → MetaCache → MetaCache
publish_completed bucket key none now c = c
publish_completed bucket key (some w) now c = publish_cache bucket key w now c

-- The `match` of `complete_multipart_upload`.
unfoldable pub completed_response :
    Text
    → Text
    → ℕ
    → Db
    → MetaCache
    → Tx (Completed × Option ObjectWrite)
    → S3Result Text × Db × MetaCache
completed_response bucket key now db c (rollback e) = (err internal_error, db, c)
completed_response bucket key now db c (commit (done b k sum size, w) db') =
    (ok (etag sum), db', publish_completed b k w now c)
completed_response bucket key now db c (commit (invalid_part, w) db') =
    (err s3_invalid_part, db', c)
completed_response bucket key now db c (commit (no_such_upload, w) db') =
    let (r, c') = retried bucket key db' c in (r, db', c')

module _ (d : Digest) where
  -- `upload_part`
  unfoldable pub upload_part :
      (List ℕ → Option (List CopyRow))
      → Text
      → Text
      → Text
      → ℕ
      → List (List ℕ)
      → Bool
      → ℕ
      → Db
      → S3Result Text × Db
  upload_part copy_in upload_id bucket key part_no chunks cut now db =
      if upload_exists upload_id bucket key db
      then (let (r, db') =
            run_writer d copy_in (part upload_id part_no) now (body_messages chunks cut) db in
          (part_response r, db'))
      else (err s3_no_such_upload, db)

  -- `complete_multipart_upload`
  unfoldable pub complete_multipart_upload :
      Text → Text → Text → List CompletedPart → ℕ → Db → MetaCache → S3Result Text × Db × MetaCache
  complete_multipart_upload upload_id bucket key listed now db c = elim (listed_parts listed) [
    | none ↦ (err s3_invalid_part, db, c)
    | some parts ↦
        completed_response bucket key now db c (complete_upload d upload_id bucket key parts now db)
  ]

-- `abort_multipart_upload`
unfoldable pub abort_multipart_upload : Text → Text → Text → Db → S3Result (Unit {0}) × Db
abort_multipart_upload upload_id bucket key db =
    let (found, db') = abort_upload upload_id bucket key db in
    (if found then ok tt else err s3_no_such_upload, db')
