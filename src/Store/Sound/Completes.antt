-- ===== src/Store/Sound/Completes.antt =====
-- `complete_upload` of crates/pgvs3/src/db.rs, and the soundness of the database.
use lakewing.Prelude.{
  ℕ, ◌+◌, ◌≡◌, refl, sym, ap, subst, ◌∙◌, Option, true, false, List, [], ◌∷◌, ◌++◌, arith, length,
  ◌==◌, Bool-cases, inl, inr,
}
use lakewing.Prelude.Text.{Text, text_eq}
use lakewing.Cache.Meta.{Meta, Segment, segments, segments_from}
use lakewing.Ingest.{Digest}
use lakewing.Read.Cover.{IsStoredFrom}
use lakewing.Store.Tables.{Db, UploadPart, find_object, upsert_object, mem_id}
use lakewing.Store.Objects.{written_meta, reap_old}
use lakewing.Store.Published.{objects-reap_old}
use lakewing.Store.Uploads.{
  nothing_gathered, parts_in, insert_part, sort_parts, delete_parts, part_ids, completed_write,
  complete_upload, drop_upload, first_id,
}
use lakewing.Store.Assembled.{gathered, ends_from, gathered-ids, gathered-size}
use lakewing.Store.Multipart.{contents, AllSized, parts_laid, total-contents, segments-gathered}
use lakewing.Store.Completed.{rows_of, after_complete}
use lakewing.Store.Integrity.{AfterCommit}
use lakewing.Store.Outcomes.{AfterCommit-settled, complete_upload-cases}
use lakewing.Store.Owners.{
  count_id, ids_of, count_parts, owners, count_parts-delete_parts, count_parts-sort_parts,
  count_id-part_ids,
}
use lakewing.Store.Held.{Held-same}
use lakewing.Store.Sound.{file_bytes, bytes_of, NamedIn, IsLaid, IsSound}
use lakewing.Store.Sound.Swaps.{IsPending, swapped-IsSound, upload_parts-reap_old}
use lakewing.Store.Sound.Parts.{AllSized-delete_parts}

contents-file_bytes :
    (files : ℕ → List ℕ) (rows : List UploadPart)
    → file_bytes files (part_ids rows) ≡ contents files rows
unfolding part_ids
contents-file_bytes files [] = refl
contents-file_bytes files (r ∷ rs) = ap (λ t. files r.file_id ++ t) (contents-file_bytes files rs)

NamedIn-more : (id : ℕ) (ids : List ℕ) (gs : List Segment) → NamedIn ids gs → NamedIn (id ∷ ids) gs
unfolding mem_id
NamedIn-more id ids [] named = tt
NamedIn-more id ids (g ∷ gs) named = (ground (arith, named.0), NamedIn-more id ids gs named.1)

NamedIn-segments_from : (q : ℕ) (ids ends : List ℕ) → NamedIn ids (segments_from q ids ends)
unfolding segments_from mem_id
NamedIn-segments_from q [] ends = tt
NamedIn-segments_from q (id ∷ ids) [] = tt
NamedIn-segments_from q (id ∷ ids) (end ∷ ends) = (
  ground arith,
  NamedIn-more id ids (segments_from end ids ends) (NamedIn-segments_from end ids ends),
)

head_named :
    (rows : List UploadPart)
    → (length rows == 0) ≡ false
    → mem_id (first_id (part_ids rows)) (part_ids rows) ≡ true
unfolding part_ids mem_id
head_named [] some_rows = absurd (ground (arith, some_rows))
head_named (r ∷ rs) some_rows = ground arith

module _ (files : ℕ → List ℕ) where
  AllSized-insert_part :
      (p : UploadPart) (ps : List UploadPart)
      → p.size ≡ length (files p.file_id)
      → AllSized files ps
      → AllSized files (insert_part p ps)
  unfolding insert_part
  AllSized-insert_part p [] size all = (size, tt)
  AllSized-insert_part p (q ∷ qs) size all = ground (arith, AllSized-insert_part p qs size all.1)

  AllSized-sort_parts : (ps : List UploadPart) → AllSized files ps → AllSized files (sort_parts ps)
  unfolding sort_parts
  AllSized-sort_parts [] all = tt
  AllSized-sort_parts (p ∷ ps) all =
      AllSized-insert_part p (sort_parts ps) all.0 (AllSized-sort_parts ps all.1)

  AllSized-parts_in :
      (upload_id : Text) (ps : List UploadPart)
      → AllSized files ps
      → AllSized files (parts_in upload_id ps)
  unfolding parts_in
  AllSized-parts_in upload_id [] all = tt
  AllSized-parts_in upload_id (p ∷ ps) all = elim (Bool-cases (text_eq p.upload_id upload_id)) [
    | inl here ↦ rw (here, parts_in) (all.0, AllSized-parts_in upload_id ps all.1)
    | inr later ↦ rw (later, parts_in) (AllSized-parts_in upload_id ps all.1)
  ]

  module _ (d : Digest) (rows : List UploadPart) (now : ℕ) where
    abbrev joined : Meta
    joined = written_meta (completed_write d (gathered nothing_gathered rows)) now

    ids-joined : ids_of joined ≡ part_ids rows
    unfolding written_meta completed_write
    ids-joined = gathered-ids nothing_gathered rows

    -- The bytes of a completed upload are those of its parts.
    pub bytes-joined : bytes_of files joined ≡ contents files rows
    bytes-joined = ap (file_bytes files) ids-joined ∙ contents-file_bytes files rows

    -- The metadata of a completed upload lays out its parts.
    pub joined-IsLaid : (length rows == 0) ≡ false → AllSized files rows → IsLaid files joined
    unfolding written_meta completed_write
    joined-IsLaid some_rows sized =
        let s : segments joined ≡ segments_from 0 (part_ids rows) (ends_from 0 rows) =
          segments-gathered d rows now in
        let b : bytes_of files joined ≡ contents files rows = bytes-joined in
        record {
          headed =
              ap (λ ids. mem_id (first_id ids) ids) (gathered-ids nothing_gathered rows)
              ∙ head_named rows some_rows;
          laid =
              subst (λ o. IsStoredFrom o files 0 (segments joined)) (sym b)
                (subst (IsStoredFrom (contents files rows) files 0) (sym s)
                  (parts_laid files (contents files rows) [] rows 0 0 refl refl refl sized));
          named =
              subst (λ ids. NamedIn ids (segments joined)) (sym ids-joined)
                (subst (NamedIn (part_ids rows)) (sym s)
                  (NamedIn-segments_from 0 (part_ids rows) (ends_from 0 rows)));
          size_ok =
              gathered-size nothing_gathered rows
              ∙ ap (λ n. 0 + n) (total-contents files rows sized)
              ∙ (let e : 0 + length (contents files rows) ≡ length (contents files rows) =
                    omega arith in
                  e)
              ∙ sym (ap length b);
        }

module _ (files : ℕ → List ℕ) (d : Digest) (upload_id bucket key : Text) (listed : List (ℕ × Text))
    (now : ℕ) (used : List ℕ) (db : Db) (s : IsSound files used db) where
  abbrev rows : List UploadPart
  rows = rows_of upload_id db

  abbrev rest : List UploadPart
  rest = delete_parts upload_id db.upload_parts

  abbrev m : Meta
  m = joined files d rows now

  moved : (n : ℕ) → count_id n (ids_of m) + count_parts n rest ≡ count_parts n db.upload_parts
  moved n =
      let a : count_id n (ids_of m) ≡ count_parts n (parts_in upload_id db.upload_parts) =
        ap (count_id n) (ids-joined files d rows now)
        ∙ count_id-part_ids n rows
        ∙ count_parts-sort_parts n (parts_in upload_id db.upload_parts) in
      omega (arith, a, count_parts-delete_parts n upload_id db.upload_parts)

  -- Before the swap, the files of the parts are those of the new object.
  complete-IsPending : (length rows == 0) ≡ false → IsPending files db m rest
  complete-IsPending some_rows = record {
    once = λ n. omega (arith, moved n, s.once n);
    held = Held-same files db.chunks (owners db) _ (λ n. omega (arith, moved n)) s.held;
    laid = s.laid;
    new = joined-IsLaid files d rows now some_rows (
        AllSized-sort_parts files (parts_in upload_id db.upload_parts)
          (AllSized-parts_in files upload_id db.upload_parts s.sized));
    distinct = s.distinct;
  }

  abbrev old : Option Meta
  old = find_object bucket key db.objects

  abbrev behind : Db
  behind = record db { objects = upsert_object bucket key m db.objects }

  dropped-IsSound :
      (length rows == 0) ≡ false → IsSound files used (drop_upload upload_id (reap_old old behind))
  unfolding drop_upload
  dropped-IsSound some_rows =
      swapped-IsSound files bucket key db m rest used (drop_upload upload_id (reap_old old behind))
        (complete-IsPending some_rows) (objects-reap_old old behind)
        (ap (delete_parts upload_id) (upload_parts-reap_old old behind)) refl
        (λ n above. omega (arith, moved n, s.fresh n above))
        (AllSized-delete_parts files upload_id db.upload_parts s.sized)

  -- Completing an upload keeps the database sound.
  pub complete_upload-IsSound :
      AfterCommit (IsSound files used) (complete_upload d upload_id bucket key listed now db)
  unfolding after_complete
  complete_upload-IsSound = elim (complete_upload-cases d upload_id bucket key listed now db) [
    | inl (e, some_rows) ↦ rw e (dropped-IsSound some_rows)
    | inr (e, same) ↦
        AfterCommit-settled (IsSound files used) db
          (complete_upload d upload_id bucket key listed now db)
          (subst (IsSound files used) (sym same) s)
  ]
