-- ===== src/Store/Outcomes.antt =====
-- The outcomes of a writer and of a completed upload: what a client that is answered knows of the
-- database. `ingest_writer` and `complete_upload` of crates/pgvs3/src/db.rs.
use lakewing.Store.Finished.{body_messages_whole, ingest_loop_failed}
use lakewing.Layout.{row_bytes}
use lakewing.Prelude.{
  ℕ, ◌≡◌, ◌⊎◌, inl, inr, refl, sym, ap, ◌∙◌, Option, some, Bool, true, false, List, length, concat,
  ◌==◌, ◌||◌, not, Bool-cases, Option-cases, arith, ◌*◌, ◌^◌, ◌≤◌,
}
use lakewing.Prelude.Text.{Text}
use lakewing.Ingest.{Digest, digest, new_framer}
use lakewing.Ingest.Format.{CopyRow, copy_stream, file_rows}
use lakewing.Store.Tables.{Db, UploadPart, has_bucket, find_object}
use lakewing.Store.Objects.{
  Tx, commit, TxError, bucket_missing, ingest_aborted, rollback, foreign_key, PutCondition,
  ObjectWrite, allowed, swap_object, precondition_failed,
}
use lakewing.Store.Write.{object, ingest_writer, body_messages, target_open}
use lakewing.Store.Uploads.{
  Completed, done, invalid_part, no_such_upload, Gathered, nothing_gathered, sort_want, gather,
  completed_write, complete_upload, upload_exists,
}
use lakewing.Store.Assembled.{expected, gathered, gather-expected, gather_only}
use lakewing.Store.Completed.{rows_of, after_complete, swap_object-completed}
use lakewing.Store.Published.{after_put, ingest_writer-object, result}
use lakewing.Store.Integrity.{AfterCommit}

-- The database behind a transaction that starts from `db`.
abbrev pub settled {ℓ} : {A : Type ℓ} → Db → Tx A → Db
settled db (rollback e) = db
settled db (commit v db') = db'

pub AfterCommit-settled {ℓ} :
    {A : Type ℓ} (P : Db → Type 0) (db : Db) (t : Tx A) → P (settled db t) → AfterCommit P t
AfterCommit-settled P db (rollback e) after = tt
AfterCommit-settled P db (commit v db') after = after

-- Whether a transaction committed.
abbrev pub committed {ℓ} : {A : Type ℓ} → Tx A → Bool
committed (commit a db) = true
committed (rollback e) = false

-- Whether the upload was completed.
abbrev pub completed : Tx (Completed × Option ObjectWrite) → Bool
completed (commit (done bucket key etag size, w) db) = true
completed (commit (invalid_part, w) db) = false
completed (commit (no_such_upload, w) db) = false
completed (rollback e) = false

module _ (d : Digest) (upload_id bucket key : Text) (listed : List (ℕ × Text)) (now : ℕ)
    (db : Db) where
  abbrev answer : Tx (Completed × Option ObjectWrite)
  answer = complete_upload d upload_id bucket key listed now db

  abbrev all : Gathered
  all = gathered nothing_gathered (rows_of upload_id db)

  abbrev pub IsPublished : Type 0
  IsPublished =
      (answer
        ≡ commit (done bucket key (digest d all.hashed) all.size, some (completed_write d all))
            (after_complete d upload_id bucket key now db))
      × ((length (rows_of upload_id db) == 0) ≡ false)

  swap_object_gone :
      has_bucket bucket db.buckets ≡ false
      → swap_object bucket key (completed_write d all) now db ≡ rollback foreign_key
  unfolding swap_object allowed completed_write
  swap_object_gone closed = rw closed refl

  gathers_all :
      (g : Gathered)
      → (length (sort_want listed) == 0
          || not (length (sort_want listed) == length (rows_of upload_id db)))
        ≡ false
      → gather nothing_gathered (sort_want listed) (rows_of upload_id db) ≡ some g
      → all ≡ g
  gathers_all g right e =
      let rows : List UploadPart = rows_of upload_id db in
      let same : sort_want listed ≡ expected rows =
        gather_only nothing_gathered g (sort_want listed) rows (ground (arith, right)) e in
      let k : some all ≡ some g =
        sym (gather-expected nothing_gathered rows)
        ∙ ap (λ w. gather nothing_gathered w rows) (sym same)
        ∙ e in
      cc

  abbrev pub IsUnchanged : Type 0
  IsUnchanged = (completed answer ≡ false) × (settled db answer ≡ db)

  -- A completion either publishes the object of all parts, of which there is at least one, or is
  -- answered otherwise and changes nothing.
  pub complete_upload-cases : IsPublished ⊎ IsUnchanged
  unfolding complete_upload after_complete
  complete_upload-cases = elim (Bool-cases (upload_exists upload_id bucket key db)) [
    | inr gone ↦ inr (rw (gone, complete_upload) (refl, refl))
    | inl there ↦
        elim (Bool-cases (
          length (sort_want listed) == 0
          || not (length (sort_want listed) == length (rows_of upload_id db)))) [
            | inl wrong ↦ inr (rw (there, complete_upload, wrong) (refl, refl))
            | inr right ↦
                elim (Option-cases
                  (gather nothing_gathered (sort_want listed) (rows_of upload_id db))) [
                    | inl e ↦ inr (rw (there, complete_upload, right) (rw e (refl, refl)))
                    | inr (g, e) ↦
                        (let e' : gather nothing_gathered (sort_want listed) (rows_of upload_id db)
                              ≡ some all =
                            e ∙ ap some (sym (gathers_all g right e)) in
                          elim (Bool-cases (has_bucket bucket db.buckets)) [
                            | inl open_bucket ↦ inl (
                                rw (there, complete_upload, right)
                                  (rw e' (
                                    rw
                                      (swap_object-completed d upload_id bucket key listed now db
                                        open_bucket)
                                      (refl, ground (arith, right)))))
                            | inr closed ↦ inr (
                                rw (there, complete_upload, right)
                                  (rw e' (rw (swap_object_gone closed) (refl, refl))))
                          ])
                  ]
          ]
  ]

module _ (d : Digest) (copy_in : List ℕ → Option (List CopyRow)) (file_id : ℕ) (bucket key : Text)
    (condition : PutCondition) (now : ℕ) (chunks : List (List ℕ)) (failed : Bool) (db : Db) where
  abbrev tx : Tx (ℕ × List ℕ)
  tx =
      ingest_writer d copy_in file_id (object bucket key condition) now
        (body_messages chunks failed) db

  abbrev pub IsPut : Type 0
  IsPut =
      (tx
        ≡ commit (length (concat chunks), digest d (concat chunks))
            (after_put d bucket key condition file_id now (concat chunks) db))
      × (failed ≡ false)

  abbrev pub IsRefused : Type 0
  IsRefused = (e : TxError) × (tx ≡ rollback e)

module _ (d : Digest) (copy_in : List ℕ → Option (List CopyRow)) (file_id : ℕ) (bucket key : Text)
    (condition : PutCondition) (now : ℕ) (chunks : List (List ℕ)) (db : Db)
    (small : length (concat chunks) ≤ 2 ^ 31 * row_bytes)
    (reads : copy_in (copy_stream (file_rows file_id (concat chunks)))
      ≡ some (file_rows file_id (concat chunks))) where
  -- A PUT of a body of at most 2^31 rows, whose COPY stream PostgreSQL reads as its rows, either
  -- publishes the whole body, and then the body did not fail, or rolls back.
  pub ingest_writer-cases :
      (failed : Bool)
      → IsPut d copy_in file_id bucket key condition now chunks failed db
        ⊎ IsRefused d copy_in file_id bucket key condition now chunks failed db
  unfolding ingest_writer target_open
  ingest_writer-cases failed = elim (Bool-cases (has_bucket bucket db.buckets)) [
    | inr gone ↦ inr (bucket_missing, rw (gone, ingest_writer) refl)
    | inl ready ↦ sent failed ready
  ]
    where
      sent :
          (f : Bool)
          → has_bucket bucket db.buckets ≡ true
          → IsPut d copy_in file_id bucket key condition now chunks f db
            ⊎ IsRefused d copy_in file_id bucket key condition now chunks f db
      sent true ready = inr (
        ingest_aborted,
        rw (ready, ingest_writer, ingest_loop_failed d (new_framer d file_id) chunks) refl,
      )
      sent false ready =
          let e : tx d copy_in file_id bucket key condition now chunks false db
              ≡ result d copy_in file_id bucket key condition now chunks db (concat chunks) =
            ap (λ msgs. ingest_writer d copy_in file_id (object bucket key condition) now msgs db)
              (body_messages_whole chunks)
            ∙ ingest_writer-object d copy_in file_id bucket key condition now chunks db small reads
                ready in
          elim (Bool-cases (allowed condition (find_object bucket key db.objects))) [
            | inl granted ↦ inl (rw granted at e, refl)
            | inr refused ↦ inr (precondition_failed, rw refused at e)
          ]
