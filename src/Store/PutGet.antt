-- ===== src/Store/PutGet.antt =====
-- From the body of a PUT to the body of a GET.
use mathlib.Core.List.{Permᴰ}
use lakewing.Prelude.{
  ℕ, ◌+◌, ◌*◌, ◌^◌, ◌≤◌, ◌<◌, ◌≡◌, ap, ◌∙◌, Option, some, Bool, true, false, List, map, length,
  slice, concat, if◌then◌else◌,
}
use lakewing.Prelude.Text.{Text}
use lakewing.Layout.{row_bytes}
use lakewing.Cache.Meta.{Meta}
use lakewing.Ingest.{Digest, digest}
use lakewing.Ingest.Format.{CopyRow, copy_stream, file_rows}
use lakewing.Read.Plan.{Piece}
use lakewing.Read.Span.{Row, next, stream_span}
use lakewing.Store.Tables.{Db, has_bucket, find_object, mem_id, select_rows}
use lakewing.Store.Objects.{
  commit, rollback, precondition_failed, PutCondition, allowed, dead_files,
}
use lakewing.Store.Write.{chunk, object, ingest_writer}
use lakewing.Store.Files.{has_file}
use lakewing.Store.Stored.{stream_span-IsStored}
use lakewing.Store.Published.{after_put, ingest_writer-object, after_put-IsStored}

-- A PUT of at most 2^31 rows, whose bucket exists, whose precondition holds and whose file id is
-- new, commits, if PostgreSQL reads the COPY stream of these rows as these rows. Then the key names
-- the new object, and a GET of any range of it, by a client that takes every message, sends exactly
-- those bytes of the body, however the body was cut into chunks and in whatever order the rows of
-- each query come back.
pub stream_span-ingest_writer :
    (d : Digest) (copy_in : List ℕ → Option (List CopyRow)) (file_id : ℕ) (bucket key : Text)
    (condition : PutCondition) (now : ℕ) (chunks : List (List ℕ)) (db : Db) (start end : ℕ)
    (accepts : ℕ → Bool) (rows : Piece → List Row)
    → length (concat chunks) ≤ 2 ^ 31 * row_bytes
    → copy_in (copy_stream (file_rows file_id (concat chunks)))
      ≡ some (file_rows file_id (concat chunks))
    → has_bucket bucket db.buckets ≡ true
    → allowed condition (find_object bucket key db.objects) ≡ true
    → has_file file_id db.chunks ≡ false
    → ((m : Meta)
        → find_object bucket key db.objects ≡ some m
        → mem_id file_id (dead_files m) ≡ false)
    → start ≤ end
    → end < length (concat chunks)
    → ((n : ℕ) → accepts n ≡ true)
    → ((p : Piece)
        → Permᴰ (rows p) (
            select_rows p (after_put d bucket key condition file_id now (concat chunks) db).chunks))
    → (db' : Db) × (m : Meta) × (out : List (List ℕ)) × (ingest_writer d copy_in file_id
          (object bucket key condition)
          now
          (map chunk chunks)
          db
        ≡ commit (length (concat chunks), digest d (concat chunks)) db')
      × (find_object bucket key db'.objects ≡ some m)
      × (stream_span start end accepts (λ p. map some (rows p)) m ≡ next out)
      × (concat out ≡ slice (concat chunks) start (end + 1))
stream_span-ingest_writer d copy_in file_id bucket key condition now chunks db start end accepts
      rows small reads open_bucket ok fresh kept ordered inside all any_order =
    let db' : Db = after_put d bucket key condition file_id now (concat chunks) db in
    let (m, found, stored) =
      after_put-IsStored d bucket key condition file_id now (concat chunks) db fresh kept in
    let (out, sent, same) =
      stream_span-IsStored db'.chunks m (concat chunks) start end accepts rows stored small ordered
        inside all any_order in
    (
      db',
      m,
      out,
      ingest_writer-object d copy_in file_id bucket key condition now chunks db small reads
            open_bucket
          ∙ ap
              (λ b.
                if b
                then commit (length (concat chunks), digest d (concat chunks)) db'
                else rollback precondition_failed)
              ok,
      found,
      sent,
      same,
    )
