-- ===== src/Tests/Uploads.antt =====
-- An upload of two parts, listed in the wrong order and completed, and a deletion beside it.
use lakewing.Prelude.{
  ℕ, ◌≡◌, refl, ap, ◌∙◌, subst, some, false, List, [], ◌∷◌, ◌++◌, append-nil, Option,
}
use lakewing.Prelude.Text.{Text, text_eq}
use lakewing.Layout.{row_bytes}
use lakewing.Cache.Meta.{Meta, segments, segments_of}
use lakewing.Ingest.{digest, div_ceil}
use lakewing.Ingest.Format.{CopyRow, file_rows, row_count}
use lakewing.Store.Tables.{
  Db, UploadPart, find_object, select_rows, has_bucket, upsert_object, mem_id,
}
use lakewing.Store.Objects.{
  commit, ObjectWrite, hex, if_absent, written_meta, dead_files, reap_old, delete,
}
use lakewing.Store.Files.{
  has_file, HoldsFile, HoldsFile-append, select_rows-append, select_rows-absent,
}
use lakewing.Store.Stored.{IsStored}
use lakewing.Store.Published.{put_write, put_laid, after_put}
use lakewing.Store.Uploads.{
  Completed, Gathered, sort_want, insert_want, sort_parts, insert_part, parts_in, upload_exists,
  find_upload, completed_write, complete_upload,
}
use lakewing.Store.Assembled.{expected}
use lakewing.Store.Completed.{
  rows_of, all_gathered, after_complete, complete_upload-commit, complete_upload-IsStored,
  complete_upload_only,
}
use lakewing.Store.Isolation.{delete-IsStored}
use lakewing.Tests.Copy.{identity_digest}
use lakewing.Tests.Puts.{lake, one_bucket, put_db, part_files}
use lakewing.Tests.Gets.{put_meta}

abbrev id : Text
id = 117 ∷ []

abbrev part_1 : UploadPart
part_1 = record { upload_id = id; part_no = 1; file_id = 3; size = 2; sha256 = 10 ∷ 20 ∷ [] }

abbrev part_2 : UploadPart
part_2 = record { upload_id = id; part_no = 2; file_id = 4; size = 2; sha256 = 30 ∷ 40 ∷ [] }

abbrev first_rows : List CopyRow
first_rows = file_rows 3 (10 ∷ 20 ∷ [])

abbrev second_rows : List CopyRow
second_rows = file_rows 4 (30 ∷ 40 ∷ [])

abbrev uploaded : Db
uploaded = record one_bucket {
  chunks = first_rows ++ second_rows;
  uploads = record { upload_id = id; bucket = lake; key = 97 ∷ []; created_at = 1 } ∷ [];
  upload_parts = part_2 ∷ part_1 ∷ [];
}

abbrev listed : List (ℕ × Text)
listed = (2, hex (30 ∷ 40 ∷ [])) ∷ (1, hex (10 ∷ 20 ∷ [])) ∷ []

first_held : HoldsFile (first_rows ++ second_rows) 3 (10 ∷ 20 ∷ [])
unfolding has_file file_rows row_count div_ceil row_bytes
first_held p e =
    select_rows-append p first_rows second_rows
    ∙ ap (λ t. select_rows p first_rows ++ t)
        (select_rows-absent p second_rows (ap (λ n. has_file n second_rows) e ∙ refl))
    ∙ append-nil (select_rows p first_rows)

second_held : HoldsFile (first_rows ++ second_rows) 4 (30 ∷ 40 ∷ [])
unfolding has_file file_rows row_count div_ceil row_bytes
second_held = HoldsFile-append first_rows 4 (30 ∷ 40 ∷ []) refl

complete_upload-IsStored_example :
    (r : Completed × Option ObjectWrite) × (db' : Db) × (m : Meta) × (complete_upload
        identity_digest id lake
        (97 ∷ [])
        listed
        9
        uploaded
      ≡ commit r db')
    × (find_object lake (97 ∷ []) db'.objects ≡ some m)
    × IsStored db'.chunks m (10 ∷ 20 ∷ 30 ∷ 40 ∷ [])
unfolding upload_exists find_upload sort_want insert_want sort_parts insert_part parts_in text_eq
    has_bucket find_object
complete_upload-IsStored_example =
    complete_upload-IsStored identity_digest id lake (97 ∷ []) listed 9 uploaded part_files refl
      refl refl refl (refl, first_held, (refl, second_held, tt)) ((λ m h. cc), ((λ m h. cc), tt))

abbrev all_parts : Gathered
all_parts = all_gathered identity_digest id lake (97 ∷ []) listed 9 uploaded

complete_upload_only_example : sort_want listed ≡ expected (rows_of id uploaded)
unfolding upload_exists find_upload sort_want insert_want sort_parts insert_part parts_in text_eq
    has_bucket
complete_upload_only_example =
    complete_upload_only identity_digest id lake (97 ∷ []) listed 9 uploaded
      (after_complete identity_digest id lake (97 ∷ []) 9 uploaded) lake (97 ∷ [])
      (digest identity_digest all_parts.hashed) all_parts.size
      (some (completed_write identity_digest all_parts))
      (complete_upload-commit identity_digest id lake (97 ∷ []) listed 9 uploaded refl refl refl
        refl)

-- A second object beside the one that Puts stores.
abbrev both_db : Db
both_db = after_put identity_digest lake (98 ∷ []) if_absent 8 6 (50 ∷ []) put_db

abbrev other_meta : Meta
other_meta = written_meta (put_write identity_digest 8 if_absent (50 ∷ [])) 6

both_db-IsStored : IsStored both_db.chunks other_meta (50 ∷ [])
unfolding after_put find_object upsert_object has_file reap_old file_rows text_eq row_bytes
    row_count div_ceil
both_db-IsStored =
    put_laid identity_digest 8 if_absent 6 (50 ∷ []) both_db.chunks
      (HoldsFile-append put_db.chunks 8 (50 ∷ []) refl)

delete-IsStored_example :
    (find_object lake (98 ∷ []) (delete lake (97 ∷ []) both_db).1.objects ≡ some other_meta)
    × IsStored (delete lake (97 ∷ []) both_db).1.chunks other_meta (50 ∷ [])
unfolding after_put find_object upsert_object reap_old text_eq dead_files written_meta segments
    segments_of mem_id
delete-IsStored_example =
    delete-IsStored lake (97 ∷ []) lake (98 ∷ []) both_db other_meta (50 ∷ []) refl refl
      (λ r h.
        subst (λ (o : Meta). (mem_id 8 (dead_files o) ≡ false) × Unit {0})
          (let e : put_meta ≡ r = cc in e) (refl, tt))
      both_db-IsStored
