-- ===== src/Store/Sound/Runs.antt =====
-- `ingest_writer` of crates/pgvs3/src/db.rs on a whole body or one that fails, for either target, and
-- the soundness of the database.
use lakewing.Prelude.{
  ℕ, ◌*◌, ◌^◌, ◌≤◌, ◌≡◌, refl, Option, some, Bool, true, false, List, map, length, concat,
  Bool-cases, inl, inr, ◌∷◌,
}
use lakewing.Layout.{row_bytes}
use lakewing.Prelude.Text.{Text}
use lakewing.Ingest.{Digest, digest, new_framer}
use lakewing.Ingest.Format.{CopyRow, copy_stream, file_rows}
use lakewing.Store.Tables.{Db, find_object, has_bucket, mem_id}
use lakewing.Store.Objects.{Tx, commit, rollback, PutCondition, allowed}
use lakewing.Store.Write.{
  WriterTarget, object, part, chunk, target_open, publish, ingest_writer, body_messages,
}
use lakewing.Store.Published.{ingest_writer-object}
use lakewing.Store.Finished.{
  body_messages_whole, written, ingest_loop_failed, ingest_writer_written,
}
use lakewing.Store.Integrity.{AfterCommit}
use lakewing.Store.Outcomes.{settled}
use lakewing.Store.Sound.{IsSound}
use lakewing.Store.Sound.Puts.{used-IsSound, after_put-IsSound}
use lakewing.Store.Sound.Parts.{commit_part-IsSound}

pub settled-IsSound {ℓ} :
    {A : Type ℓ} (files : ℕ → List ℕ) (used : List ℕ) (db : Db) (t : Tx A)
    → IsSound files used db
    → AfterCommit (IsSound files used) t
    → IsSound files used (settled db t)
settled-IsSound files used db (rollback e) s after = s
settled-IsSound files used db (commit v db') s after = after

written-IsSound :
    (files : ℕ → List ℕ) (used : List ℕ) (totals : ℕ × List ℕ) (t : Tx Unit)
    → AfterCommit (IsSound files used) t
    → AfterCommit (IsSound files used) (written totals t)
written-IsSound files used totals (rollback e) after = after
written-IsSound files used totals (commit u db) after = after

module _ (files : ℕ → List ℕ) (d : Digest) (copy_in : List ℕ → Option (List CopyRow)) (now : ℕ)
    (chunks : List (List ℕ)) (used : List ℕ) (f : ℕ) (db : Db) where
  failed-IsSound :
      (target : WriterTarget)
      → AfterCommit
          (IsSound files (f ∷ used))
          (ingest_writer d copy_in f target now (body_messages chunks true) db)
  unfolding ingest_writer
  failed-IsSound target = elim (Bool-cases (target_open d target db)) [
    | inl ready ↦ rw (ready, ingest_writer, ingest_loop_failed d (new_framer d f) chunks) tt
    | inr closed ↦ rw (closed, ingest_writer) tt
  ]

  module _ (new : mem_id f used ≡ false) (s : IsSound files used db)
      (same : files f ≡ concat chunks) (small : length (concat chunks) ≤ 2 ^ 31 * row_bytes)
      (reads : copy_in (copy_stream (file_rows f (concat chunks)))
        ≡ some (file_rows f (concat chunks))) where
    object_written :
        (bucket key : Text) (condition : PutCondition)
        → has_bucket bucket db.buckets ≡ true
        → AfterCommit
            (IsSound files (f ∷ used))
            (ingest_writer d copy_in f (object bucket key condition) now (map chunk chunks) db)
    object_written bucket key condition ready =
        rw (ingest_writer-object d copy_in f bucket key condition now chunks db small reads ready)
          (elim (Bool-cases (allowed condition (find_object bucket key db.objects))) [
            | inl granted ↦ rw granted (
                after_put-IsSound files d bucket key condition now (concat chunks) used f db same
                  new s)
            | inr refused ↦ rw refused tt
          ])

    whole-IsSound :
        (target : WriterTarget)
        → AfterCommit
            (IsSound files (f ∷ used))
            (ingest_writer d copy_in f target now (map chunk chunks) db)
    unfolding ingest_writer target_open publish
    whole-IsSound (object bucket key condition) = elim (Bool-cases (has_bucket bucket db.buckets)) [
      | inl ready ↦ object_written bucket key condition ready
      | inr gone ↦ rw (gone, ingest_writer) tt
    ]
    whole-IsSound (part upload_id part_no) =
        rw
          (ingest_writer_written d copy_in f now (part upload_id part_no) chunks db small reads
            refl)
          (written-IsSound files (f ∷ used) (length (concat chunks), digest d (concat chunks)) _
            (commit_part-IsSound files upload_id part_no (digest d (concat chunks)) (concat chunks)
              used f db same new s))

    -- A writer that runs to its end leaves a sound database.
    pub ingest_writer-IsSound :
        (target : WriterTarget) (failed : Bool)
        → IsSound files
            (f ∷ used)
            (settled db (ingest_writer d copy_in f target now (body_messages chunks failed) db))
    ingest_writer-IsSound target true =
        settled-IsSound files (f ∷ used) db
          (ingest_writer d copy_in f target now (body_messages chunks true) db)
          (used-IsSound files used f db s) (failed-IsSound target)
    ingest_writer-IsSound target false = rw (body_messages_whole chunks) (
        settled-IsSound files (f ∷ used) db
          (ingest_writer d copy_in f target now (map chunk chunks) db)
          (used-IsSound files used f db s) (whole-IsSound target))
