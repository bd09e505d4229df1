-- ===== src/Store/Kept.antt =====
-- The calls of the operations of crates/pgvs3/src/db.rs, and the soundness of the database.
use lakewing.Prelude.{
  [], ℕ, ◌*◌, ◌^◌, ◌≤◌, ◌≡◌, Option, some, List, [], ◌∷◌, length, concat, Bool-cases, Option-cases,
  inl, inr, ◌||◌, false,
}
use lakewing.Prelude.Text.{Text}
use lakewing.Layout.{row_bytes}
use lakewing.Ingest.{Digest}
use lakewing.Ingest.Format.{CopyRow, copy_stream, file_rows}
use lakewing.Store.Tables.{Db, has_bucket, mem_id}
use lakewing.Store.Buckets.{create_bucket, delete_bucket, has_objects, has_uploads}
use lakewing.Store.Uploads.{find_upload_of, create_upload, complete_upload}
use lakewing.Store.Sound.{IsSound}
use lakewing.Store.Sound.Swaps.{delete-IsSound}
use lakewing.Store.Sound.Parts.{abort_upload-IsSound}
use lakewing.Store.Sound.Completes.{complete_upload-IsSound}
use lakewing.Store.Sound.Runs.{settled-IsSound, ingest_writer-IsSound}
use lakewing.Store.Calls.{
  Call, creates_bucket, deletes_bucket, writes, deletes, creates_upload, completes, aborts, call,
  calls, AllNew,
}

create_bucket-IsSound :
    (files : ℕ → List ℕ) (used : List ℕ) (name : Text) (now : ℕ) (db : Db)
    → IsSound files used db
    → IsSound files used (create_bucket name now db)
unfolding create_bucket
create_bucket-IsSound files used name now db s = elim (Bool-cases (has_bucket name db.buckets)) [
  | inl there ↦ rw (there, create_bucket) s
  | inr new ↦
      rw (new, create_bucket)
        (record {
          once = s.once;
          fresh = s.fresh;
          held = s.held;
          laid = s.laid;
          sized = s.sized;
          distinct = s.distinct;
        })
]

delete_bucket-IsSound :
    (files : ℕ → List ℕ) (used : List ℕ) (name : Text) (db : Db)
    → IsSound files used db
    → IsSound files used (delete_bucket name db).1
unfolding delete_bucket
delete_bucket-IsSound files used name db s = elim (Bool-cases (has_bucket name db.buckets)) [
  | inr gone ↦ rw (gone, delete_bucket) s
  | inl there ↦ elim (Bool-cases (has_objects name db.objects || has_uploads name db.uploads)) [
    | inl used ↦ rw (there, delete_bucket, used) s
    | inr free ↦
        rw (there, delete_bucket, free)
          (record {
            once = s.once;
            fresh = s.fresh;
            held = s.held;
            laid = s.laid;
            sized = s.sized;
            distinct = s.distinct;
          })
  ]
]

create_upload-IsSound :
    (files : ℕ → List ℕ) (used : List ℕ) (uuid bucket key : Text) (now : ℕ) (db : Db)
    → IsSound files used db
    → IsSound files used (create_upload uuid bucket key now db).1
unfolding create_upload
create_upload-IsSound files used uuid bucket key now db s =
    elim (Bool-cases (has_bucket bucket db.buckets)) [
      | inr gone ↦ rw (gone, create_upload) s
      | inl there ↦ elim (Option-cases (find_upload_of bucket key db.uploads)) [
        | inr (id, e) ↦ rw (there, create_upload, e) s
        | inl e ↦
            rw (there, create_upload, e)
              (record {
                once = s.once;
                fresh = s.fresh;
                held = s.held;
                laid = s.laid;
                sized = s.sized;
                distinct = s.distinct;
              })
      ]
    ]

module _ (d : Digest) (copy_in : List ℕ → Option (List CopyRow)) where
  -- A body that a writer is given has at most 2^31 rows, and PostgreSQL reads the COPY stream of
  -- its rows as these rows.
  abbrev pub IsReadable : Call → Type 0
  IsReadable (writes file_id target now chunks failed) =
      (length (concat chunks) ≤ 2 ^ 31 * row_bytes)
      × (copy_in (copy_stream (file_rows file_id (concat chunks)))
          ≡ some (file_rows file_id (concat chunks)))
  IsReadable c = Unit

  abbrev pub AllReadable : List Call → Type 0
  AllReadable [] = Unit
  AllReadable (c ∷ cs) = IsReadable c × AllReadable cs

  -- The files hold what the writers are given.
  abbrev pub IsGiven : (ℕ → List ℕ) → Call → Type 0
  IsGiven files (writes file_id target now chunks failed) = files file_id ≡ concat chunks
  IsGiven files c = Unit

  abbrev pub AllGiven : (ℕ → List ℕ) → List Call → Type 0
  AllGiven files [] = Unit
  AllGiven files (c ∷ cs) = IsGiven files c × AllGiven files cs

  -- The file ids that are used behind a call.
  abbrev pub used_by : Call → List ℕ → List ℕ
  used_by (writes file_id target now chunks failed) used = file_id ∷ used
  used_by c used = used

  abbrev pub IsNew : List ℕ → Call → Type 0
  IsNew used (writes file_id target now chunks failed) = mem_id file_id used ≡ false
  IsNew used c = Unit

  pub call-IsSound :
      (files : ℕ → List ℕ) (used : List ℕ) (c : Call) (db : Db)
      → IsReadable c
      → IsGiven files c
      → IsNew used c
      → IsSound files used db
      → IsSound files (used_by c used) (call d copy_in c db)
  unfolding call
  call-IsSound files used (creates_bucket name now) db reads given new s =
      create_bucket-IsSound files used name now db s
  call-IsSound files used (deletes_bucket name) db reads given new s =
      delete_bucket-IsSound files used name db s
  call-IsSound files used (writes file_id target now chunks failed) db reads given new s =
      ingest_writer-IsSound files d copy_in now chunks used file_id db new s given reads.0 reads.1
        target failed
  call-IsSound files used (deletes bucket key) db reads given new s =
      delete-IsSound files used bucket key db s
  call-IsSound files used (creates_upload uuid bucket key now) db reads given new s =
      create_upload-IsSound files used uuid bucket key now db s
  call-IsSound files used (completes upload_id bucket key listed now) db reads given new s =
      settled-IsSound files used db (complete_upload d upload_id bucket key listed now db) s
        (complete_upload-IsSound files d upload_id bucket key listed now used db s)
  call-IsSound files used (aborts upload_id bucket key) db reads given new s =
      abort_upload-IsSound files used upload_id bucket key db s

  -- The file ids that are used behind a sequence of calls.
  abbrev pub used_by_all : List Call → List ℕ → List ℕ
  used_by_all [] used = used
  used_by_all (c ∷ cs) used = used_by_all cs (used_by c used)

  pub AllNew-IsNew :
      (used : List ℕ) (c : Call) (cs : List Call)
      → AllNew used (c ∷ cs)
      → IsNew used c × AllNew (used_by c used) cs
  AllNew-IsNew used (creates_bucket name now) cs new = (tt, new)
  AllNew-IsNew used (deletes_bucket name) cs new = (tt, new)
  AllNew-IsNew used (writes file_id target now chunks failed) cs new = new
  AllNew-IsNew used (deletes bucket key) cs new = (tt, new)
  AllNew-IsNew used (creates_upload uuid bucket key now) cs new = (tt, new)
  AllNew-IsNew used (completes upload_id bucket key listed now) cs new = (tt, new)
  AllNew-IsNew used (aborts upload_id bucket key) cs new = (tt, new)

  pub calls-IsSound :
      (files : ℕ → List ℕ) (used : List ℕ) (cs : List Call) (db : Db)
      → AllReadable cs
      → AllGiven files cs
      → AllNew used cs
      → IsSound files used db
      → IsSound files (used_by_all cs used) (calls d copy_in cs db)
  unfolding calls
  calls-IsSound files used [] db reads given new s = s
  calls-IsSound files used (c ∷ cs) db reads given new s =
      let (here, later) = AllNew-IsNew used c cs new in
      calls-IsSound files (used_by c used) cs (call d copy_in c db) reads.1 given.1 later
        (call-IsSound files used c db reads.0 given.0 here s)
