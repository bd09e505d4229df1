-- ===== src/Store/Effects.antt =====
-- The effect of each call of crates/pgvs3/src/db.rs on the map from keys to bytes, by its answer:
-- the specification that the calls implement.
use lakewing.Prelude.{
  ℕ, ◌*◌, ◌^◌, ◌≤◌, ◌≡◌, refl, ap, ◌∙◌, Option, none, some, Bool, true, false, List, [], ◌∷◌,
  concat, length, append-nil, inl, inr,
}
use lakewing.Prelude.Text.{Text}
use lakewing.Layout.{row_bytes}
use lakewing.Ingest.{Digest}
use lakewing.Ingest.Format.{CopyRow, copy_stream, file_rows}
use lakewing.Store.Tables.{Db, find_object}
use lakewing.Store.Objects.{PutCondition, written_meta}
use lakewing.Store.Write.{object, part, body_messages, ingest_writer}
use lakewing.Store.Uploads.{complete_upload, drop_upload}
use lakewing.Store.Multipart.{contents}
use lakewing.Store.Completed.{rows_of, after_complete}
use lakewing.Store.Published.{put_write, after_put, objects-reap_old}
use lakewing.Store.Sound.Completes.{bytes-joined}
use lakewing.Store.Sound.{IsSound}
use lakewing.Store.Outcomes.{
  settled, committed, completed, complete_upload-cases, ingest_writer-cases,
}
use lakewing.Store.Views.{view, look, set, View, look-upsert_object, view-delete}
use lakewing.Store.Calls.{
  Call, creates_bucket, deletes_bucket, writes, deletes, creates_upload, completes, aborts, call,
  calls, AllNew,
}
use lakewing.Store.Kept.{
  IsReadable, IsGiven, AllReadable, AllGiven, call-IsSound, AllNew-IsNew, used_by,
}
use lakewing.Store.Untouched.{
  objects-part, objects-create_bucket, objects-delete_bucket, objects-create_upload,
  objects-abort_upload,
}

-- The map behind a call that may have set a key.
abbrev pub set_if : Bool → Text → Text → Option (List ℕ) → View → View
set_if true bucket key v old = set bucket key v old
set_if false bucket key v old = old

module _ (files : ℕ → List ℕ) (d : Digest) (copy_in : List ℕ → Option (List CopyRow)) where
  -- The effect of a call on the map: a PUT that is answered with a success sets its key to the body,
  -- a deletion clears its key, a completed upload sets its key to the parts, and every other call and
  -- every other answer leaves the map as it was.
  abbrev pub effect : Call → Db → View → View
  effect (creates_bucket name now) db = λ v. v
  effect (deletes_bucket name) db = λ v. v
  effect (writes file_id (object bucket key condition) now chunks failed) db =
      set_if
        (committed (
          ingest_writer d copy_in file_id (object bucket key condition) now
            (body_messages chunks failed) db))
        bucket key (some (concat chunks))
  effect (writes file_id (part upload_id part_no) now chunks failed) db = λ v. v
  effect (deletes bucket key) db = set bucket key none
  effect (creates_upload uuid bucket key now) db = λ v. v
  effect (completes upload_id bucket key listed now) db =
      set_if (completed (complete_upload d upload_id bucket key listed now db)) bucket key
        (some (contents files (rows_of upload_id db)))
  effect (aborts upload_id bucket key) db = λ v. v

  module _ (b k : Text) where
    put_seen :
        (file_id : ℕ) (bucket key : Text) (condition : PutCondition) (now : ℕ)
        (chunks : List (List ℕ)) (failed : Bool) (db : Db)
        → length (concat chunks) ≤ 2 ^ 31 * row_bytes
        → copy_in (copy_stream (file_rows file_id (concat chunks)))
          ≡ some (file_rows file_id (concat chunks))
        → files file_id ≡ concat chunks
        → view files
            (settled db (
              ingest_writer d copy_in file_id
                (object bucket key condition)
                now
                (body_messages chunks failed)
                db))
            b
            k
          ≡ effect
              (writes file_id (object bucket key condition) now chunks failed)
              db
              (view files db)
              b
              k
    unfolding after_put written_meta
    put_seen file_id bucket key condition now chunks failed db small reads same =
        elim (ingest_writer-cases d copy_in file_id bucket key condition now chunks db small reads
          failed) [
            | inr (e, refused) ↦ rw refused refl
            | inl (e, whole) ↦ rw e (
                ap (λ os. look files os b k)
                  (objects-reap_old (find_object bucket key db.objects) _)
                ∙ look-upsert_object files bucket key b k
                    (written_meta (put_write d file_id condition (concat chunks)) now) db.objects
                ∙ ap (λ o. set bucket key (some o) (view files db) b k)
                    (append-nil (files file_id) ∙ same))
          ]

    complete_seen :
        (upload_id bucket key : Text) (listed : List (ℕ × Text)) (now : ℕ) (db : Db)
        → view files (settled db (complete_upload d upload_id bucket key listed now db)) b k
          ≡ effect (completes upload_id bucket key listed now) db (view files db) b k
    unfolding after_complete drop_upload
    complete_seen upload_id bucket key listed now db =
        elim (complete_upload-cases d upload_id bucket key listed now db) [
          | inr (refused, left) ↦ rw (refused, left) refl
          | inl (e, some_rows) ↦ rw e (
              ap (λ os. look files os b k) (objects-reap_old (find_object bucket key db.objects) _)
              ∙ look-upsert_object files bucket key b k _ db.objects
              ∙ ap (λ o. set bucket key (some o) (view files db) b k)
                  (bytes-joined files d (rows_of upload_id db) now))
        ]

  -- Every call changes the map by its effect, if the database is sound, and, where it writes, the
  -- file that it takes is its body, of at most 2^31 rows, that PostgreSQL reads from the COPY stream.
  view-call :
      (used : List ℕ) (c : Call) (db : Db) (b k : Text)
      → IsReadable d copy_in c
      → IsGiven d copy_in files c
      → IsSound files used db
      → view files (call d copy_in c db) b k ≡ effect c db (view files db) b k
  unfolding call
  view-call used (creates_bucket name now) db b k reads given s =
      ap (λ os. look files os b k) (objects-create_bucket name now db)
  view-call used (deletes_bucket name) db b k reads given s =
      ap (λ os. look files os b k) (objects-delete_bucket name db)
  view-call used (writes file_id (object bucket key condition) now chunks failed) db b k reads given
        s =
      put_seen b k file_id bucket key condition now chunks failed db reads.0 reads.1 given
  view-call used (writes file_id (part upload_id part_no) now chunks failed) db b k reads given s =
      ap (λ os. look files os b k)
        (objects-part d copy_in upload_id part_no file_id now (body_messages chunks failed) db)
  view-call used (deletes bucket key) db b k reads given s =
      view-delete files bucket key b k used db s
  view-call used (creates_upload uuid bucket key now) db b k reads given s =
      ap (λ os. look files os b k) (objects-create_upload uuid bucket key now db)
  view-call used (completes upload_id bucket key listed now) db b k reads given s =
      complete_seen b k upload_id bucket key listed now db
  view-call used (aborts upload_id bucket key) db b k reads given s =
      ap (λ os. look files os b k) (objects-abort_upload upload_id bucket key db)

  abbrev pub effects : List Call → Db → View → View
  effects [] db v = v
  effects (c ∷ cs) db v = effects cs (call d copy_in c db) (effect c db v)

  pub view-calls :
      (used : List ℕ) (cs : List Call) (db : Db)
      → AllReadable d copy_in cs
      → AllGiven d copy_in files cs
      → AllNew used cs
      → IsSound files used db
      → view files (calls d copy_in cs db) ≡ effects cs db (view files db)
  unfolding calls
  view-calls used [] db reads given new s = refl
  view-calls used (c ∷ cs) db reads given new s =
      let (here, later) = AllNew-IsNew d copy_in used c cs new in
      view-calls (used_by d copy_in c used) cs (call d copy_in c db) reads.1 given.1 later
        (call-IsSound d copy_in files used c db reads.0 given.0 here s)
      ∙ ap (effects cs (call d copy_in c db)) (λ i b k. view-call used c db b k reads.0 given.0 s i)
