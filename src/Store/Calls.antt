-- ===== src/Store/Calls.antt =====
-- Calls of the operations of crates/pgvs3/src/db.rs, one after the other, as the transactions of
-- the gateways commit them. A writer's call stands where its transaction commits or rolls back; its
-- file id was taken earlier.
use lakewing.Prelude.{ℕ, ◌==◌, Option, List, [], ◌∷◌, Bool, if◌then◌else◌, concat, ◌≡◌, false}
use lakewing.Prelude.Text.{Text}
use lakewing.Ingest.{Digest}
use lakewing.Ingest.Format.{CopyRow}
use lakewing.Store.Tables.{Db, mem_id}
use lakewing.Store.Objects.{delete}
use lakewing.Store.Write.{WriterTarget, body_messages, ingest_writer}
use lakewing.Store.Buckets.{create_bucket, delete_bucket}
use lakewing.Store.Uploads.{create_upload, complete_upload, abort_upload}
use lakewing.Store.Outcomes.{settled}

pub data Call : Type 0 where
  creates_bucket : Text → ℕ → Call
  deletes_bucket : Text → Call
  writes : ℕ → WriterTarget → ℕ → List (List ℕ) → Bool → Call
  deletes : Text → Text → Call
  creates_upload : Text → Text → Text → ℕ → Call
  completes : Text → Text → Text → List (ℕ × Text) → ℕ → Call
  aborts : Text → Text → Text → Call

module _ (d : Digest) (copy_in : List ℕ → Option (List CopyRow)) where
  -- The database behind a call.
  unfoldable pub call : Call → Db → Db
  call (creates_bucket name now) db = create_bucket name now db
  call (deletes_bucket name) db = (delete_bucket name db).1
  call (writes file_id target now chunks failed) db =
      settled db (ingest_writer d copy_in file_id target now (body_messages chunks failed) db)
  call (deletes bucket key) db = (delete bucket key db).1
  call (creates_upload uuid bucket key now) db = (create_upload uuid bucket key now db).1
  call (completes upload_id bucket key listed now) db =
      settled db (complete_upload d upload_id bucket key listed now db)
  call (aborts upload_id bucket key) db = (abort_upload upload_id bucket key db).1

  unfoldable pub calls : List Call → Db → Db
  calls [] db = db
  calls (c ∷ cs) db = calls cs (call c db)

-- The body that file `n` is given: that of the writer with this file id.
unfoldable pub body_of : List Call → ℕ → List ℕ
body_of [] n = []
body_of (writes file_id target now chunks failed ∷ cs) n =
    let rest = body_of cs n in if file_id == n then concat chunks else rest
body_of (c ∷ cs) n = body_of cs n

-- The sequence behind the file ids gives no id twice: no writer has an id of `used`, or that of an
-- earlier writer.
abbrev pub AllNew : List ℕ → List Call → Type 0
AllNew used [] = Unit
AllNew used (writes file_id target now chunks failed ∷ cs) =
    (mem_id file_id used ≡ false) × AllNew (file_id ∷ used) cs
AllNew used (c ∷ cs) = AllNew used cs

-- The database of a new layout.
abbrev pub empty_db : Db
empty_db = record {
  buckets = [];
  objects = [];
  chunks = [];
  uploads = [];
  upload_parts = [];
  next_file = 1;
}
