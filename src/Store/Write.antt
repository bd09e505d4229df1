-- ===== src/Store/Write.antt =====
-- `ChunkWriter`, `ingest_writer`, `ingest_body`, `put` and `commit_part` of
-- crates/pgvs3/src/db.rs.
use lakewing.Prelude.{
  ℕ, suc, Option, none, some, Bool, true, false, ◌&&◌, List, [], ◌∷◌, ◌++◌, ◌==◌, if◌then◌else◌,
}
use lakewing.Prelude.Text.{Text, text_eq}
use lakewing.Ingest.{Digest, RowFramer, new_framer, push, finish, copy_header}
use lakewing.Ingest.Format.{CopyRow}
use lakewing.Store.Tables.{Db, Upload, UploadPart, has_bucket, delete_chunks}
use lakewing.Store.Objects.{
  Tx, commit, rollback, bucket_missing, ingest_aborted, copy_failed, foreign_key, PutCondition,
  swap_object,
}

-- `IngestMsg`; the end of the list is the closed channel.
pub data IngestMsg : Type 0 where
  chunk : List ℕ → IngestMsg
  abort : IngestMsg

pub data WriterTarget : Type 0 where
  object : Text → Text → PutCondition → WriterTarget
  part : Text → ℕ → WriterTarget

abbrev pub is_part : Text → ℕ → UploadPart → Bool
is_part upload_id part_no p = text_eq p.upload_id upload_id && p.part_no == part_no

unfoldable pub find_part : Text → ℕ → List UploadPart → Option UploadPart
find_part upload_id part_no [] = none
find_part upload_id part_no (p ∷ ps) =
    if is_part upload_id part_no p then some p else find_part upload_id part_no ps

unfoldable pub delete_part : Text → ℕ → List UploadPart → List UploadPart
delete_part upload_id part_no [] = []
delete_part upload_id part_no (p ∷ ps) =
    if is_part upload_id part_no p then ps else p ∷ delete_part upload_id part_no ps

unfoldable pub has_upload : Text → List Upload → Bool
has_upload upload_id [] = false
has_upload upload_id (u ∷ us) =
    if text_eq u.upload_id upload_id then true else has_upload upload_id us

-- The chunks that `commit_part` deletes belong to the attempt that it replaces.
unfoldable pub reap_part : Option UploadPart → Db → Db
reap_part none db = db
reap_part (some p) db = record db { chunks = delete_chunks (p.file_id ∷ []) db.chunks }

-- `commit_part`. The INSERT fails if the upload is gone: it is a foreign key.
unfoldable pub commit_part : Text → ℕ → ℕ → ℕ → List ℕ → Db → Tx (Unit {0})
commit_part upload_id part_no file_id total sum db =
    let db' =
      reap_part (find_part upload_id part_no db.upload_parts)
        (record db { upload_parts = delete_part upload_id part_no db.upload_parts }) in
    if has_upload upload_id db.uploads
    then commit tt (record db' {
      upload_parts =
          db'.upload_parts
          ++ (record {
            upload_id = upload_id;
            part_no = part_no;
            file_id = file_id;
            size = total;
            sha256 = sum;
          }
              ∷ []);
    })
    else rollback foreign_key

module _ (d : Digest) where
  -- `while let Some(msg) = rx.recv().await`: the bytes sent and the framer, or an abort.
  unfoldable pub ingest_loop : RowFramer d → List IngestMsg → Option (List ℕ × RowFramer d)
  ingest_loop f [] = some ([], f)
  ingest_loop f (abort ∷ msgs) = none
  ingest_loop f (chunk b ∷ msgs) =
      let (sent, g) = push d f b in
      elim (ingest_loop g msgs) [
        | none ↦ none
        | some (rest, h) ↦ some ((elim sent [ none ↦ [] | some s ↦ s ]) ++ rest, h)
      ]

  -- What `ingest_writer` checks before it opens the COPY.
  unfoldable pub target_open : WriterTarget → Db → Bool
  target_open (object bucket key condition) db = has_bucket bucket db.buckets
  target_open (part upload_id part_no) db = true

  -- The publication at the end of `ingest_writer`.
  unfoldable pub publish : WriterTarget → ℕ → ℕ → List ℕ → ℕ → Db → Tx (Unit {0})
  publish (object bucket key condition) file_id total sum now db =
      swap_object bucket key
        (record {
          file_id = file_id;
          size = total;
          etag = sum;
          parts = none;
          condition = condition;
        })
        now db
  publish (part upload_id part_no) file_id total sum now db =
      commit_part upload_id part_no file_id total sum db

  -- What the finished stream does: COPY adds its rows, then the target is published. `copy_in` is
  -- PostgreSQL's reading of a binary COPY stream, `none` where it refuses one.
  module _ (copy_in : List ℕ → Option (List CopyRow)) where
    unfoldable pub ingest_finish : WriterTarget → ℕ → ℕ → Db → List ℕ → ℕ × List ℕ → Tx (ℕ × List ℕ)
    ingest_finish target file_id now db stream (total, sum) = elim (copy_in stream) [
      | none ↦ rollback copy_failed
      | some rows ↦
          elim (publish target file_id total sum now (record db { chunks = db.chunks ++ rows })) [
            | rollback e ↦ rollback e
            | commit u db' ↦ commit (total, sum) db'
          ]
    ]

    -- `ingest_writer`, run by one transaction at time `now`. The metadata that it publishes to the
    -- cache of its process afterwards is `published_meta` of Store/Cached.
    unfoldable pub ingest_writer : ℕ → WriterTarget → ℕ → List IngestMsg → Db → Tx (ℕ × List ℕ)
    ingest_writer file_id target now msgs db =
        if target_open target db
        then (elim (ingest_loop (new_framer d file_id) msgs) [
          | none ↦ rollback ingest_aborted
          | some (sent, f) ↦
              let (last, done) = finish d f in
              ingest_finish target file_id now db (copy_header ++ (sent ++ last)) done
        ])
        else rollback bucket_missing

    -- `ChunkWriter::begin` takes the file id, outside the transaction; `db` changes by that alone
    -- if the transaction fails.
    unfoldable pub run_writer : WriterTarget → ℕ → List IngestMsg → Db → Tx (ℕ × List ℕ) × Db
    run_writer target now msgs db =
        let db' = record db { next_file = suc db.next_file } in
        let r = ingest_writer db.next_file target now msgs db' in
        (r, elim r [ rollback e ↦ db' | commit v db'' ↦ db'' ])

-- `ingest_body`: a body is its chunks, and whether the last read fails. An error aborts.
unfoldable pub body_messages : List (List ℕ) → Bool → List IngestMsg
body_messages [] failed = if failed then abort ∷ [] else []
body_messages (b ∷ bs) failed = chunk b ∷ body_messages bs failed
