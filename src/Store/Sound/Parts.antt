-- ===== src/Store/Sound/Parts.antt =====
-- The parts of uploads, and the soundness of the database: `commit_part` and `abort_upload` of
-- crates/pgvs3/src/db.rs.
use lakewing.Prelude.{
  ℕ, ◌+◌, ◌≤◌, ◌≡◌, refl, sym, ap, ap₂, subst, ◌∙◌, Option, none, some, false, List, [], ◌∷◌, ◌++◌,
  arith, length, ◌==◌, if◌then◌else◌, Bool-cases, inl, inr,
}
use lakewing.Prelude.Text.{Text, text_eq}
use lakewing.Ingest.Format.{file_rows}
use lakewing.Store.Tables.{Db, UploadPart, mem_id}
use lakewing.Store.Write.{is_part, find_part, delete_part, has_upload, reap_part, commit_part}
use lakewing.Store.Uploads.{
  parts_in, delete_parts, part_ids, upload_exists, drop_upload, abort_upload,
}
use lakewing.Store.Integrity.{AfterCommit}
use lakewing.Store.Owners.{
  count_objects, count_parts, count_part, owners, count_parts-append, count_parts-delete_part,
  count_parts-delete_parts, count_id-part_ids, mem_id-count_id,
}
use lakewing.Store.Held.{Held, Held-same, Held-delete_chunks, Held-append}
use lakewing.Store.Multipart.{AllSized}
use lakewing.Store.Sound.{AllLaid, AreDistinct, IsSound}
use lakewing.Store.Sound.Puts.{one_more, older, not_new}

module _ (files : ℕ → List ℕ) where
  AllSized-delete_part :
      (upload_id : Text) (part_no : ℕ) (ps : List UploadPart)
      → AllSized files ps
      → AllSized files (delete_part upload_id part_no ps)
  unfolding delete_part
  AllSized-delete_part upload_id part_no [] all = tt
  AllSized-delete_part upload_id part_no (p ∷ ps) all =
      elim (Bool-cases (is_part upload_id part_no p)) [
        | inl here ↦ rw (here, delete_part) all.1
        | inr later ↦
            rw (later, delete_part) (all.0, AllSized-delete_part upload_id part_no ps all.1)
      ]

  AllSized-append :
      (ps qs : List UploadPart) → AllSized files ps → AllSized files qs → AllSized files (ps ++ qs)
  AllSized-append [] qs a b = b
  AllSized-append (p ∷ ps) qs a b = (a.0, AllSized-append ps qs a.1 b)

  pub AllSized-delete_parts :
      (upload_id : Text) (ps : List UploadPart)
      → AllSized files ps
      → AllSized files (delete_parts upload_id ps)
  unfolding delete_parts
  AllSized-delete_parts upload_id [] all = tt
  AllSized-delete_parts upload_id (p ∷ ps) all = elim (Bool-cases (text_eq p.upload_id upload_id)) [
    | inl here ↦ rw (here, delete_parts) (AllSized-delete_parts upload_id ps all.1)
    | inr later ↦ rw (later, delete_parts) (all.0, AllSized-delete_parts upload_id ps all.1)
  ]

  reap_part-Held :
      (old : Option UploadPart) (db : Db) (own own' : ℕ → ℕ)
      → ((n : ℕ) → own n ≤ 1)
      → ((n : ℕ) → own' n + count_part n old ≡ own n)
      → Held files db.chunks own
      → Held files (reap_part old db).chunks own'
  unfolding reap_part mem_id
  reap_part-Held none db own own' once left held =
      Held-same files db.chunks own own' (λ n. omega (arith, left n)) held
  reap_part-Held (some p) db own own' once left held =
      Held-delete_chunks files (p.file_id ∷ []) db.chunks own own'
        (λ n. ground (arith, once n, left n)) held

pub tables-reap_part :
    (old : Option UploadPart) (db : Db)
    → ((reap_part old db).objects ≡ db.objects)
      × ((reap_part old db).upload_parts ≡ db.upload_parts)
      × ((reap_part old db).next_file ≡ db.next_file)
unfolding reap_part
tables-reap_part none db = (refl, refl, refl)
tables-reap_part (some p) db = (refl, refl, refl)

module _ (files : ℕ → List ℕ) (upload_id : Text) (part_no : ℕ) (sum : List ℕ) (obj : List ℕ)
    (used : List ℕ) (f : ℕ) (db : Db) (same : files f ≡ obj) (new : mem_id f used ≡ false)
    (s : IsSound files used db) where
  abbrev copied : Db
  copied = record db { chunks = db.chunks ++ file_rows f obj }

  abbrev new_part : UploadPart
  new_part = record {
    upload_id = upload_id;
    part_no = part_no;
    file_id = f;
    size = length obj;
    sha256 = sum;
  }

  abbrev left : List UploadPart
  left = delete_part upload_id part_no db.upload_parts

  abbrev reaped : Db
  reaped =
      reap_part (find_part upload_id part_no db.upload_parts)
        (record copied { upload_parts = left })

  abbrev recorded : Db
  recorded = record reaped { upload_parts = reaped.upload_parts ++ (new_part ∷ []) }

  abbrev own_copied : ℕ → ℕ
  own_copied n = owners db n + (if f == n then 1 else 0)

  abbrev own_recorded : ℕ → ℕ
  own_recorded n = count_objects n db.objects + count_parts n left + (if f == n then 1 else 0)

  fewer :
      (n : ℕ)
      → own_recorded n + count_part n (find_part upload_id part_no db.upload_parts) ≡ own_copied n
  fewer n = omega (arith, count_parts-delete_part n upload_id part_no db.upload_parts)

  owners-recorded : (n : ℕ) → owners recorded n ≡ own_recorded n
  owners-recorded n =
      let (objects, parts, next) =
        tables-reap_part (find_part upload_id part_no db.upload_parts)
          (record copied { upload_parts = left }) in
      ap₂ (λ os ps. count_objects n os + count_parts n (ps ++ (new_part ∷ []))) objects parts
      ∙ omega (arith, count_parts-append n left (new_part ∷ []))

  recorded-IsSound : IsSound files (f ∷ used) recorded
  recorded-IsSound =
      let (objects, parts, next) =
        tables-reap_part (find_part upload_id part_no db.upload_parts)
          (record copied { upload_parts = left }) in
      record {
        once = λ n. omega (arith, owners-recorded n, fewer n, one_more files used db f n new s);
        fresh = λ n above.
            let e : (f == n) ≡ false = not_new used f n above in
            ground (arith, owners-recorded n, fewer n, s.fresh n (older used f n above), e);
        held = Held-same files reaped.chunks own_recorded (owners recorded) owners-recorded (
            reap_part-Held files (find_part upload_id part_no db.upload_parts)
              (record copied { upload_parts = left }) own_copied own_recorded
              (λ n. one_more files used db f n new s) fewer
              (subst (λ b. Held files (db.chunks ++ file_rows f b) own_copied) same
                (Held-append files db.chunks (owners db) own_copied f (s.fresh f new) (λ n. refl)
                  s.held)));
        laid = subst (AllLaid files) (sym objects) s.laid;
        sized =
            subst (λ ps. AllSized files (ps ++ (new_part ∷ []))) (sym parts)
              (AllSized-append files left (new_part ∷ [])
                (AllSized-delete_part files upload_id part_no db.upload_parts s.sized)
                (sym (ap length same), tt));
        distinct = subst AreDistinct (sym objects) s.distinct;
      }

  -- Recording a part keeps the database sound: the files of an earlier attempt are gone.
  pub commit_part-IsSound :
      AfterCommit
        (IsSound files (f ∷ used))
        (commit_part upload_id part_no f (length obj) sum copied)
  unfolding commit_part
  commit_part-IsSound = elim (Bool-cases (has_upload upload_id db.uploads)) [
    | inl there ↦ rw (there, commit_part) recorded-IsSound
    | inr gone ↦ rw (gone, commit_part) tt
  ]

-- Aborting an upload keeps the database sound: the files of its parts are gone, and no others.
pub abort_upload-IsSound :
    (files : ℕ → List ℕ) (used : List ℕ) (upload_id bucket key : Text) (db : Db)
    → IsSound files used db
    → IsSound files used (abort_upload upload_id bucket key db).1
unfolding abort_upload drop_upload
abort_upload-IsSound files used upload_id bucket key db s =
    elim (Bool-cases (upload_exists upload_id bucket key db)) [
      | inr gone ↦ rw (gone, abort_upload) s
      | inl there ↦
          rw (there, abort_upload)
            (let fewer : (n : ℕ)
                  → count_parts n (delete_parts upload_id db.upload_parts)
                      + count_parts n (parts_in upload_id db.upload_parts)
                    ≡ count_parts n db.upload_parts =
                λ n. count_parts-delete_parts n upload_id db.upload_parts in
              record {
                once = λ n. omega (arith, fewer n, s.once n);
                fresh = λ n above. omega (arith, fewer n, s.fresh n above);
                held =
                    Held-delete_chunks files (part_ids (parts_in upload_id db.upload_parts))
                      db.chunks (owners db)
                      (λ n.
                        count_objects n db.objects
                        + count_parts n (delete_parts upload_id db.upload_parts))
                      (λ n. ground (
                        arith,
                        fewer n,
                        s.once n,
                        mem_id-count_id n (part_ids (parts_in upload_id db.upload_parts)),
                        count_id-part_ids n (parts_in upload_id db.upload_parts),
                      ))
                      s.held;
                laid = s.laid;
                sized = AllSized-delete_parts files upload_id db.upload_parts s.sized;
                distinct = s.distinct;
              })
    ]
