-- ===== src/Store/Retried.antt =====
-- `create_upload` of crates/pgvs3/src/db.rs, asked for again by a client that missed the answer.
use lakewing.Prelude.{
  ℕ, ◌≡◌, refl, sym, ap, ◌∙◌, Option, none, some, List, [], ◌∷◌, ◌++◌, arith, Bool-cases,
  Option-cases, inl, inr,
}
use lakewing.Prelude.Text.{Text, text_eq_refl}
use lakewing.Store.Tables.{Db, Upload, has_bucket}
use lakewing.Store.Uploads.{find_upload_of, create_upload}

find_upload_of-append_new :
    (uuid bucket key : Text) (now : ℕ) (us : List Upload)
    → find_upload_of bucket key us ≡ none
    → find_upload_of bucket key
        (us ++ (record { upload_id = uuid; bucket = bucket; key = key; created_at = now } ∷ []))
      ≡ some uuid
unfolding find_upload_of
find_upload_of-append_new uuid bucket key now [] absent =
    ground (arith, text_eq_refl bucket, text_eq_refl key)
find_upload_of-append_new uuid bucket key now (u ∷ us) absent =
    ground (arith, find_upload_of-append_new uuid bucket key now us)

-- Creating an upload again returns the upload of the first time and changes nothing.
pub create_upload-create_upload :
    (uuid uuid' bucket key : Text) (now now' : ℕ) (db : Db)
    → create_upload uuid' bucket key now' (create_upload uuid bucket key now db).1
      ≡ create_upload uuid bucket key now db
unfolding create_upload
create_upload-create_upload uuid uuid' bucket key now now' db =
    elim (Bool-cases (has_bucket bucket db.buckets)) [
      | inr gone ↦ twice none db (rw (gone, create_upload) refl) (rw (gone, create_upload) refl)
      | inl there ↦ elim (Option-cases (find_upload_of bucket key db.uploads)) [
        | inr (id, old) ↦
            twice (some id) db (rw (there, create_upload, old) refl)
              (rw (there, create_upload, old) refl)
        | inl new ↦
            let db' : Db = record db {
              uploads =
                  db.uploads
                  ++ (record { upload_id = uuid; bucket = bucket; key = key; created_at = now }
                      ∷ []);
            } in
            twice (some uuid) db' (rw (there, create_upload, new) refl) (
              rw
                (there, create_upload, find_upload_of-append_new uuid bucket key now db.uploads new)
                refl)
      ]
    ]
  where
    twice :
        (id : Option Text) (db' : Db)
        → create_upload uuid bucket key now db ≡ (id, db')
        → create_upload uuid' bucket key now' db' ≡ (id, db')
        → create_upload uuid' bucket key now' (create_upload uuid bucket key now db).1
          ≡ create_upload uuid bucket key now db
    twice id db' first second =
        ap (λ r. create_upload uuid' bucket key now' r.1) first ∙ second ∙ sym first
