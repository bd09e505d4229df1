-- ===== src/Store/Removed.antt =====
-- What `delete` and `abort_upload` of crates/pgvs3/src/db.rs remove, and what they leave.
use lakewing.Prelude.{
  ℕ, ◌≡◌, refl, sym, ap, subst, ◌∙◌, Option, none, some, Bool, true, false, ◌&&◌, List, [], ◌∷◌,
  arith, if◌then◌else◌, Bool-cases, Option-cases, inl, inr,
}
use lakewing.Prelude.Text.{Text, text_eq, text_eq→eq, text_eq_comm}
use lakewing.Cache.Meta.{Meta}
use lakewing.Ingest.Format.{CopyRow}
use lakewing.Read.Plan.{Piece}
use lakewing.Store.Tables.{
  Db, UploadPart, find_object, delete_object_row, mem_id, delete_chunks, select_rows,
}
use lakewing.Store.Objects.{dead_files, reap_old, delete}
use lakewing.Store.Uploads.{
  parts_in, delete_parts, part_ids, upload_exists, drop_upload, abort_upload,
}
use lakewing.Store.Files.{select_rows-delete_chunks}
use lakewing.Store.Held.{select_rows-delete_chunks_dead}
use lakewing.Store.Lookups.{same_key, find_object-delete_object_row}
use lakewing.Store.Published.{objects-reap_old}
use lakewing.Store.Sound.{AreDistinct, IsSound}
use lakewing.Store.Sound.Rows.{find_object-delete_object_row_self}
use lakewing.Store.Sound.Swaps.{upload_parts-reap_old, delete-IsSound}
use lakewing.Store.Sound.Parts.{abort_upload-IsSound}

-- The files of the object that a key named, if it named one.
abbrev pub files_of : Option Meta → List ℕ
files_of none = []
files_of (some m) = dead_files m

abbrev pub is_found : Option Meta → Bool
is_found none = false
is_found (some m) = true

-- The rows of the dead files are gone and those of every other file are as they were.
abbrev pub AreReaped : List ℕ → List CopyRow → List CopyRow → Type 0
AreReaped dead before after =
    (p : Piece) → select_rows p after ≡ (if mem_id p.file_id dead then [] else select_rows p before)

delete_chunks-AreReaped :
    (dead : List ℕ) (cs : List CopyRow) → AreReaped dead cs (delete_chunks dead cs)
delete_chunks-AreReaped dead cs p = elim (Bool-cases (mem_id p.file_id dead)) [
  | inl gone ↦ rw gone (select_rows-delete_chunks_dead p dead cs gone)
  | inr kept ↦ rw kept (select_rows-delete_chunks p dead cs kept)
]

pub reap_old-AreReaped :
    (old : Option Meta) (db : Db) → AreReaped (files_of old) db.chunks (reap_old old db).chunks
unfolding reap_old mem_id
reap_old-AreReaped none db p = refl
reap_old-AreReaped (some m) db p = delete_chunks-AreReaped (dead_files m) db.chunks p

find_object-deleted :
    (bucket key b k : Text) (db : Db)
    → AreDistinct db.objects
    → find_object b k (delete_object_row bucket key db.objects)
      ≡ (if same_key bucket key b k then none else find_object b k db.objects)
find_object-deleted bucket key b k db d = elim (Bool-cases (same_key bucket key b k)) [
  | inr other ↦ rw other (find_object-delete_object_row bucket key b k db.objects other)
  | inl same ↦ rw same (
      let e : bucket ≡ b = text_eq→eq bucket b (ground (arith, same)) in
      let f : key ≡ k = text_eq→eq key k (ground (arith, same)) in
      ap (λ t. find_object t k (delete_object_row bucket key db.objects)) (sym e)
      ∙ ap (λ t. find_object bucket t (delete_object_row bucket key db.objects)) (sym f)
      ∙ find_object-delete_object_row_self bucket key db.objects d)
]

-- What a deletion answered and left.
pub record IsDeleted (files : ℕ → List ℕ) (used : List ℕ) (bucket key : Text) (db : Db)
    (r : Bool × Db) : Type 0 where
  pub sound : IsSound files used r.1
  pub answer : r.0 ≡ is_found (find_object bucket key db.objects)
  pub keys :
      (b k : Text)
      → find_object b k r.1.objects
        ≡ (if same_key bucket key b k then none else find_object b k db.objects)
  pub rows : AreReaped (files_of (find_object bucket key db.objects)) db.chunks r.1.chunks
  pub parts : r.1.upload_parts ≡ db.upload_parts

answer-delete :
    (bucket key : Text) (db : Db)
    → (delete bucket key db).0 ≡ is_found (find_object bucket key db.objects)
unfolding delete
answer-delete bucket key db = elim (Option-cases (find_object bucket key db.objects)) [
  | inl e ↦ rw (e, delete) refl
  | inr (m, e) ↦ rw (e, delete) refl
]

-- Deleting a key of a sound database answers whether the key named an object and keeps the database
-- sound. The key then names nothing and every other key what it named before; the rows of the files
-- of the object are gone, and those of every other file and the parts of uploads are as they were.
pub delete-IsDeleted :
    (files : ℕ → List ℕ) (used : List ℕ) (bucket key : Text) (db : Db)
    → IsSound files used db
    → IsDeleted files used bucket key db (delete bucket key db)
unfolding delete
delete-IsDeleted files used bucket key db s =
    let old : Option Meta = find_object bucket key db.objects in
    let db' : Db = record db { objects = delete_object_row bucket key db.objects } in
    record {
      sound = delete-IsSound files used bucket key db s;
      answer = answer-delete bucket key db;
      keys = λ b k.
          ap (find_object b k) (objects-reap_old old db')
          ∙ find_object-deleted bucket key b k db s.distinct;
      rows = reap_old-AreReaped old db';
      parts = upload_parts-reap_old old db';
    }

-- The files of the parts that an abort removes: those of the upload, if it is there.
abbrev pub aborted_files : Text → Text → Text → Db → List ℕ
aborted_files upload_id bucket key db =
    if upload_exists upload_id bucket key db
    then part_ids (parts_in upload_id db.upload_parts)
    else []

-- What an abort answered and left.
pub record IsAborted (files : ℕ → List ℕ) (used : List ℕ) (upload_id bucket key : Text) (db : Db)
    (r : Bool × Db) : Type 0 where
  pub sound : IsSound files used r.1
  pub answer : r.0 ≡ upload_exists upload_id bucket key db
  pub rows : AreReaped (aborted_files upload_id bucket key db) db.chunks r.1.chunks
  pub parts :
      (u : Text)
      → parts_in u r.1.upload_parts ≡ (
          if upload_exists upload_id bucket key db && text_eq upload_id u
          then []
          else parts_in u db.upload_parts)
  pub objects : r.1.objects ≡ db.objects

parts_in-delete_parts :
    (upload_id u : Text) (ps : List UploadPart)
    → parts_in u (delete_parts upload_id ps) ≡ (if text_eq upload_id u then [] else parts_in u ps)
unfolding parts_in delete_parts
parts_in-delete_parts upload_id u [] = ground arith
parts_in-delete_parts upload_id u (p ∷ ps) = elim (Bool-cases (text_eq p.upload_id upload_id)) [
  | inl here ↦
      let e : text_eq p.upload_id u ≡ text_eq upload_id u =
        ap (λ t. text_eq t u) (text_eq→eq p.upload_id upload_id here) in
      ground (arith, here, e, parts_in-delete_parts upload_id u ps)
  | inr later ↦ elim (Bool-cases (text_eq p.upload_id u)) [
    | inr not_u ↦ ground (arith, later, not_u, parts_in-delete_parts upload_id u ps)
    | inl is_u ↦
        let e : text_eq upload_id u ≡ false =
          ap (text_eq upload_id) (sym (text_eq→eq p.upload_id u is_u))
          ∙ text_eq_comm upload_id p.upload_id
          ∙ later in
        ground (arith, later, is_u, e, parts_in-delete_parts upload_id u ps)
  ]
]

-- Aborting an upload of a sound database answers whether the upload is there with this bucket and
-- key, and keeps the database sound. If it is there, its parts and the rows of their files are gone;
-- the parts of every other upload, the rows of every other file and the objects are as they were. If
-- it is not there, all of these are as they were.
pub abort_upload-IsAborted :
    (files : ℕ → List ℕ) (used : List ℕ) (upload_id bucket key : Text) (db : Db)
    → IsSound files used db
    → IsAborted files used upload_id bucket key db (abort_upload upload_id bucket key db)
unfolding abort_upload drop_upload mem_id
abort_upload-IsAborted files used upload_id bucket key db s =
    let sound = abort_upload-IsSound files used upload_id bucket key db s in
    elim (Bool-cases (upload_exists upload_id bucket key db)) [
      | inr gone ↦
          rw (gone, abort_upload)
            (record {
              sound = s;
              answer = sym gone;
              rows = λ p. rw gone refl;
              parts = λ u. rw gone refl;
              objects = refl;
            })
      | inl there ↦
          let dead : List ℕ = part_ids (parts_in upload_id db.upload_parts) in
          let after : Db = record (drop_upload upload_id db) {
            chunks = delete_chunks dead db.chunks;
          } in
          let e : abort_upload upload_id bucket key db ≡ (true, after) = rw there refl in
          subst (IsAborted files used upload_id bucket key db) (sym e) (record {
            sound = subst (λ r. IsSound files used r.1) e sound;
            answer = sym there;
            rows = λ p. rw there (delete_chunks-AreReaped dead db.chunks p);
            parts = λ u. rw there (parts_in-delete_parts upload_id u db.upload_parts);
            objects = refl;
          })
    ]
