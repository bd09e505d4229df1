-- ===== src/Store/Completed.antt =====
-- `complete_upload` of crates/pgvs3/src/db.rs: when it publishes, and what.
use lakewing.Prelude.{
  ℕ, suc, ◌≡◌, refl, ap, ◌∙◌, Option, none, some, true, false, List, [], ◌∷◌, arith, length, ◌==◌,
  Bool-cases, inl, inr, ◌||◌, not,
}
use lakewing.Prelude.Text.{Text}
use lakewing.Cache.Meta.{Meta}
use lakewing.Ingest.{Digest, digest}
use lakewing.Store.Tables.{UploadPart, Db, find_object, upsert_object, mem_id, has_bucket}
use lakewing.Store.Objects.{
  commit, ObjectWrite, written_meta, swap_object, reap_old, allowed, dead_files,
}
use lakewing.Store.Lookups.{find_object-upsert_object_self}
use lakewing.Store.Stored.{IsStored}
use lakewing.Store.Published.{objects-reap_old, reap_old-HoldsFile}
use lakewing.Store.Uploads.{
  Gathered, nothing_gathered, parts_in, sort_parts, sort_want, upload_exists, Completed, done,
  gather, completed_write, complete_upload, drop_upload,
}
use lakewing.Store.Assembled.{expected, gathered, gather-expected, gather_only}
use lakewing.Store.Multipart.{contents, HoldsParts, gathered-IsStored}

length-expected : (rows : List UploadPart) → length (expected rows) ≡ length rows
length-expected [] = refl
length-expected (r ∷ rs) = ap suc (length-expected rs)

-- The rows of the upload, as `complete_upload` reads them.
abbrev pub rows_of : Text → Db → List UploadPart
rows_of upload_id db = sort_parts (parts_in upload_id db.upload_parts)

-- No part is among the files of the object that the upload replaces.
abbrev pub AreFresh : Option Meta → List UploadPart → Type 0
AreFresh old [] = Unit
AreFresh old (r ∷ rs) =
    ((m : Meta) → old ≡ some m → mem_id r.file_id (dead_files m) ≡ false) × AreFresh old rs

reap_old-HoldsParts :
    (old : Option Meta) (db : Db) (files : ℕ → List ℕ) (rows : List UploadPart)
    → AreFresh old rows
    → HoldsParts db.chunks files rows
    → HoldsParts (reap_old old db).chunks files rows
reap_old-HoldsParts old db files [] fresh held = tt
reap_old-HoldsParts old db files (r ∷ rs) (kept, later) (size, file, more) = (
  size,
  reap_old-HoldsFile old db r.file_id (files r.file_id) kept file,
  reap_old-HoldsParts old db files rs later more,
)

-- The database behind an upload that completes.
unfoldable pub after_complete : Digest → Text → Text → Text → ℕ → Db → Db
after_complete d upload_id bucket key now db = drop_upload upload_id (
    reap_old (find_object bucket key db.objects) (record db {
      objects =
          upsert_object bucket key
            (written_meta (completed_write d (gathered nothing_gathered (rows_of upload_id db)))
              now)
            db.objects;
    }))

module _ (d : Digest) (upload_id bucket key : Text) (listed : List (ℕ × Text)) (now : ℕ)
    (db : Db) where
  abbrev pub all_gathered : Gathered
  all_gathered = gathered nothing_gathered (rows_of upload_id db)

  pub swap_object-completed :
      has_bucket bucket db.buckets ≡ true
      → swap_object bucket key (completed_write d all_gathered) now db
        ≡ commit tt (
            reap_old (find_object bucket key db.objects) (record db {
              objects =
                  upsert_object bucket key
                    (written_meta (completed_write d all_gathered) now)
                    db.objects;
            }))
  unfolding swap_object allowed completed_write
  swap_object-completed there = rw there refl

  pub complete_upload-commit :
      upload_exists upload_id bucket key db ≡ true
      → sort_want listed ≡ expected (rows_of upload_id db)
      → (length (rows_of upload_id db) == 0) ≡ false
      → has_bucket bucket db.buckets ≡ true
      → complete_upload d upload_id bucket key listed now db
        ≡ commit
            (
              done bucket key (digest d all_gathered.hashed) all_gathered.size,
              some (completed_write d all_gathered),
            )
            (after_complete d upload_id bucket key now db)
  unfolding complete_upload after_complete
  complete_upload-commit there same some_parts open_bucket =
      let n : length (expected (rows_of upload_id db)) ≡ length (rows_of upload_id db) =
        length-expected (rows_of upload_id db) in
      let guard : ((length (expected (rows_of upload_id db)) == 0)
            || not (length (expected (rows_of upload_id db)) == length (rows_of upload_id db)))
          ≡ false =
        ground (arith, n, some_parts) in
      rw (there, complete_upload, same, guard)
        (rw (gather-expected nothing_gathered (rows_of upload_id db))
          (rw (swap_object-completed open_bucket) refl))

-- An upload whose listed parts, in the order of their numbers, are all of its parts with their
-- ETags completes, if it has a part and its bucket exists. If the chunk table holds the parts and
-- none of their files is one of the object that the key named before, the key then names an object
-- whose bytes are those of the parts, one after the other in the order of their numbers.
pub complete_upload-IsStored :
    (d : Digest) (upload_id bucket key : Text) (listed : List (ℕ × Text)) (now : ℕ) (db : Db)
    (files : ℕ → List ℕ)
    → upload_exists upload_id bucket key db ≡ true
    → sort_want listed ≡ expected (rows_of upload_id db)
    → (length (rows_of upload_id db) == 0) ≡ false
    → has_bucket bucket db.buckets ≡ true
    → HoldsParts db.chunks files (rows_of upload_id db)
    → AreFresh (find_object bucket key db.objects) (rows_of upload_id db)
    → (r : Completed × Option ObjectWrite) × (db' : Db) × (m : Meta) × (complete_upload d upload_id
          bucket key listed now db
        ≡ commit r db')
      × (find_object bucket key db'.objects ≡ some m)
      × IsStored db'.chunks m (contents files (rows_of upload_id db))
unfolding after_complete drop_upload
complete_upload-IsStored d upload_id bucket key listed now db files there same some_parts
      open_bucket held fresh =
    let w : Meta =
      written_meta (completed_write d (gathered nothing_gathered (rows_of upload_id db))) now in
    let old : Option Meta = find_object bucket key db.objects in
    let db1 : Db = record db { objects = upsert_object bucket key w db.objects } in
    (
      _,
      after_complete d upload_id bucket key now db,
      w,
      complete_upload-commit d upload_id bucket key listed now db there same some_parts open_bucket,
      ap (find_object bucket key) (objects-reap_old old db1)
          ∙ find_object-upsert_object_self bucket key w db.objects,
      gathered-IsStored d (reap_old old db1).chunks files (rows_of upload_id db) now
          (reap_old-HoldsParts old db1 files (rows_of upload_id db) fresh held),
    )

-- An upload that completes was asked for with exactly its parts and their ETags, in some order.
pub complete_upload_only :
    (d : Digest) (upload_id bucket key : Text) (listed : List (ℕ × Text)) (now : ℕ) (db db' : Db)
    (b k : Text) (etag : List ℕ) (size : ℕ) (w : Option ObjectWrite)
    → complete_upload d upload_id bucket key listed now db ≡ commit (done b k etag size, w) db'
    → sort_want listed ≡ expected (rows_of upload_id db)
unfolding complete_upload
complete_upload_only d upload_id bucket key listed now db db' b k etag size w h =
    elim (Bool-cases (upload_exists upload_id bucket key db)) [
      | inr gone ↦ absurd (ground (arith, h, gone))
      | inl there ↦
          elim (Bool-cases (
            length (sort_want listed) == 0
            || not (length (sort_want listed) == length (rows_of upload_id db)))) [
              | inl wrong ↦ absurd (ground (arith, h, there, wrong))
              | inr right ↦
                  gathers (gather nothing_gathered (sort_want listed) (rows_of upload_id db)) refl
                    right (ground (arith, h, there, right))
            ]
    ]
  where
    gathers :
        (g : Option Gathered)
        → gather nothing_gathered (sort_want listed) (rows_of upload_id db) ≡ g
        → (length (sort_want listed) == 0
            || not (length (sort_want listed) == length (rows_of upload_id db)))
          ≡ false
        → (g ≡ none → ⊥)
        → sort_want listed ≡ expected (rows_of upload_id db)
    gathers none e right h = absurd (h refl)
    gathers (some g) e right h =
        gather_only nothing_gathered g (sort_want listed) (rows_of upload_id db) (ground arith) e
