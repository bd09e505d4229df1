-- ===== src/Store/Published.antt =====
-- A PUT that commits: what it leaves in the tables, and what a GET then serves.
use lakewing.Prelude.{
  ℕ, ◌+◌, ◌*◌, ◌^◌, ◌≤◌, ◌≡◌, refl, sym, ap, ◌∙◌, Option, none, some, true, false, List, [], ◌∷◌,
  ◌++◌, map, arith, length, slice_all, concat, if◌then◌else◌, Bool-cases, inl, inr,
}
use lakewing.Prelude.Text.{Text}
use lakewing.Layout.{row_bytes}
use lakewing.Cache.Meta.{Meta, segments_of, segments}
use lakewing.Ingest.{Digest, digest, copy_header, RowFramer, new_framer, push, finish, push_all}
use lakewing.Ingest.Format.{CopyRow, copy_stream, file_rows}
use lakewing.Ingest.Whole.{ingest_stream}
use lakewing.Store.Tables.{Db, has_bucket, find_object, upsert_object, mem_id}
use lakewing.Store.Objects.{
  Tx, commit, rollback, precondition_failed, PutCondition, allowed, ObjectWrite, written_meta,
  dead_files, reap_old, swap_object,
}
use lakewing.Store.Write.{
  chunk, object, target_open, ingest_loop, publish, ingest_finish, ingest_writer,
}
use lakewing.Store.Files.{has_file, HoldsFile, HoldsFile-append, HoldsFile-delete_chunks}
use lakewing.Store.Stored.{IsStored}
use lakewing.Store.Lookups.{find_object-upsert_object_self}

module _ (d : Digest) where
  -- Without an abort, the loop of the writer pushes every chunk.
  pub ingest_loop-push_all :
      (f : RowFramer d) (chunks : List (List ℕ))
      → ingest_loop d f (map chunk chunks) ≡ some (push_all d f chunks)
  unfolding ingest_loop push_all
  ingest_loop-push_all f [] = refl
  ingest_loop-push_all f (c ∷ cs) = rw (ingest_loop-push_all (push d f c).1 cs, ingest_loop)

-- The write of a PUT.
abbrev pub put_write : Digest → ℕ → PutCondition → List ℕ → ObjectWrite
put_write d file_id condition obj = record {
  file_id = file_id;
  size = length obj;
  etag = digest d obj;
  parts = none;
  condition = condition;
}

-- The database behind a PUT of `obj` that commits.
unfoldable pub after_put : Digest → Text → Text → PutCondition → ℕ → ℕ → List ℕ → Db → Db
after_put d bucket key condition file_id now obj db =
    reap_old (find_object bucket key db.objects) (record db {
      chunks = db.chunks ++ file_rows file_id obj;
      objects =
          upsert_object bucket key (written_meta (put_write d file_id condition obj) now)
            db.objects;
    })

module _ (d : Digest) (copy_in : List ℕ → Option (List CopyRow)) (file_id : ℕ) (bucket key : Text)
    (condition : PutCondition) (now : ℕ) (chunks : List (List ℕ)) (db : Db) where
  abbrev pub result : List ℕ → Tx (ℕ × List ℕ)
  result obj =
      if allowed condition (find_object bucket key db.objects)
      then commit (length obj, digest d obj) (after_put d bucket key condition file_id now obj db)
      else rollback precondition_failed

  ingest_finish-object :
      (obj stream : List ℕ)
      → copy_in stream ≡ some (file_rows file_id obj)
      → has_bucket bucket db.buckets ≡ true
      → ingest_finish d copy_in
          (object bucket key condition)
          file_id
          now
          db
          stream
          (length obj, digest d obj)
        ≡ result obj
  unfolding ingest_finish publish swap_object after_put
  ingest_finish-object obj stream reads open_bucket =
      elim (Bool-cases (allowed condition (find_object bucket key db.objects))) [
        | inl yes_put ↦ rw (reads, ingest_finish, yes_put, open_bucket)
        | inr no_put ↦ rw (reads, ingest_finish, no_put)
      ]

  -- The writer of a PUT of at most 2^31 rows into a bucket that exists publishes the object if its
  -- precondition holds, and otherwise fails with nothing written, if PostgreSQL reads the COPY
  -- stream of these rows as these rows.
  pub ingest_writer-object :
      length (concat chunks) ≤ 2 ^ 31 * row_bytes
      → copy_in (copy_stream (file_rows file_id (concat chunks)))
        ≡ some (file_rows file_id (concat chunks))
      → has_bucket bucket db.buckets ≡ true
      → ingest_writer d copy_in file_id (object bucket key condition) now (map chunk chunks) db
        ≡ result (concat chunks)
  unfolding ingest_writer target_open
  ingest_writer-object small reads open_bucket =
      let obj : List ℕ = concat chunks in
      let sent : List ℕ = (push_all d (new_framer d file_id) chunks).0 in
      let f : RowFramer d = (push_all d (new_framer d file_id) chunks).1 in
      let (stream, totals) = ingest_stream d file_id chunks small in
      rw (open_bucket, ingest_loop-push_all d (new_framer d file_id) chunks)
        (ap
            (ingest_finish d copy_in (object bucket key condition) file_id now db
              (copy_header ++ (sent ++ (finish d f).0)))
            totals
          ∙ ingest_finish-object obj (copy_header ++ (sent ++ (finish d f).0))
              (ap copy_in stream ∙ reads) open_bucket)

-- The metadata of a PUT lays its bytes out as one file.
pub put_laid :
    (d : Digest) (file_id : ℕ) (condition : PutCondition) (now : ℕ) (obj : List ℕ)
    (cs : List CopyRow)
    → HoldsFile cs file_id obj
    → IsStored cs (written_meta (put_write d file_id condition obj) now) obj
unfolding written_meta segments segments_of
put_laid d file_id condition now obj cs held = record {
  files = λ n. obj;
  laid = (
    refl,
    (let e : 0 + length obj ≤ length obj = omega arith in e),
    sym (slice_all obj (0 + length obj) (omega arith)),
    (let e : 0 + length obj ≡ length obj = omega arith in e),
  );
  held = (held, tt);
  size_ok = refl;
}

-- Reaping the replaced object leaves the new file alone, if the new file is not among the old.
pub reap_old-HoldsFile :
    (old : Option Meta) (db : Db) (file_id : ℕ) (obj : List ℕ)
    → ((m : Meta) → old ≡ some m → mem_id file_id (dead_files m) ≡ false)
    → HoldsFile db.chunks file_id obj
    → HoldsFile (reap_old old db).chunks file_id obj
unfolding reap_old
reap_old-HoldsFile none db file_id obj kept held = held
reap_old-HoldsFile (some m) db file_id obj kept held =
    HoldsFile-delete_chunks (dead_files m) db.chunks file_id obj (kept m refl) held

pub objects-reap_old : (old : Option Meta) (db : Db) → (reap_old old db).objects ≡ db.objects
unfolding reap_old
objects-reap_old none db = refl
objects-reap_old (some m) db = refl

-- After a PUT with a fresh file id, the key names the new object, and its bytes are stored.
pub after_put-IsStored :
    (d : Digest) (bucket key : Text) (condition : PutCondition) (file_id now : ℕ) (obj : List ℕ)
    (db : Db)
    → has_file file_id db.chunks ≡ false
    → ((m : Meta)
        → find_object bucket key db.objects ≡ some m
        → mem_id file_id (dead_files m) ≡ false)
    → (m : Meta) × (find_object bucket key
          (after_put d bucket key condition file_id now obj db).objects
        ≡ some m)
      × IsStored (after_put d bucket key condition file_id now obj db).chunks m obj
unfolding after_put
after_put-IsStored d bucket key condition file_id now obj db fresh kept =
    let w : Meta = written_meta (put_write d file_id condition obj) now in
    let db' : Db = record db {
      chunks = db.chunks ++ file_rows file_id obj;
      objects = upsert_object bucket key w db.objects;
    } in
    let old : Option Meta = find_object bucket key db.objects in
    (
      w,
      ap (find_object bucket key) (objects-reap_old old db')
          ∙ find_object-upsert_object_self bucket key w db.objects,
      put_laid d file_id condition now obj _ (
          reap_old-HoldsFile old db' file_id obj kept
            (HoldsFile-append db.chunks file_id obj fresh)),
    )
