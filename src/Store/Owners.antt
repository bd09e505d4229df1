-- ===== src/Store/Owners.antt =====
-- Who owns a file: how many times objects and upload parts name it, and how the statements of
-- crates/pgvs3/src/db.rs change that number.
use lakewing.Prelude.{
  ℕ, ◌+◌, ◌≡◌, refl, sym, ap, ◌∙◌, Option, none, some, true, ◌||◌, List, [], ◌∷◌, ◌++◌, arith, ltb,
  ◌==◌, if◌then◌else◌, Bool-cases, inl, inr,
}
use lakewing.Prelude.Text.{Text, text_eq}
use lakewing.Cache.Meta.{Meta}
use lakewing.Store.Tables.{
  Db, Object, UploadPart, is_at, find_object, upsert_object, delete_object_row, mem_id,
}
use lakewing.Store.Objects.{dead_files}
use lakewing.Store.Write.{is_part, find_part, delete_part}
use lakewing.Store.Uploads.{parts_in, insert_part, sort_parts, delete_parts, part_ids}

abbrev pub count_id : ℕ → List ℕ → ℕ
count_id n [] = 0
count_id n (k ∷ ks) = (if k == n then 1 else 0) + count_id n ks

-- The files of an object: its parts, or else its one file.
abbrev pub ids_with : Option (List ℕ) → ℕ → List ℕ
ids_with none file_id = file_id ∷ []
ids_with (some ids) file_id = ids

abbrev pub ids_of : Meta → List ℕ
ids_of m = ids_with m.parts m.file_id

abbrev pub count_old : ℕ → Option Meta → ℕ
count_old n none = 0
count_old n (some m) = count_id n (ids_of m)

abbrev pub count_objects : ℕ → List Object → ℕ
count_objects n [] = 0
count_objects n (o ∷ os) = count_id n (ids_of o.meta) + count_objects n os

abbrev pub count_parts : ℕ → List UploadPart → ℕ
count_parts n [] = 0
count_parts n (p ∷ ps) = (if p.file_id == n then 1 else 0) + count_parts n ps

abbrev pub count_part : ℕ → Option UploadPart → ℕ
count_part n none = 0
count_part n (some p) = if p.file_id == n then 1 else 0

-- How many times the file is named.
abbrev pub owners : Db → ℕ → ℕ
owners db n = count_objects n db.objects + count_parts n db.upload_parts

pub count_id-append :
    (n : ℕ) (xs ys : List ℕ) → count_id n (xs ++ ys) ≡ count_id n xs + count_id n ys
count_id-append n [] ys = omega arith
count_id-append n (x ∷ xs) ys = omega (arith, count_id-append n xs ys)

pub mem_id-count_id : (n : ℕ) (ks : List ℕ) → mem_id n ks ≡ ltb 0 (count_id n ks)
unfolding mem_id
mem_id-count_id n [] = refl
mem_id-count_id n (k ∷ ks) = ground (arith, mem_id-count_id n ks)

mem_id-append : (n : ℕ) (xs ys : List ℕ) → mem_id n (xs ++ ys) ≡ (mem_id n xs || mem_id n ys)
unfolding mem_id
mem_id-append n [] ys = refl
mem_id-append n (x ∷ xs) ys = ground (arith, mem_id-append n xs ys)

-- The file that an object is named by is among its files.
abbrev pub IsHeaded : Meta → Type 0
IsHeaded m = mem_id m.file_id (ids_of m) ≡ true

mem_id_same : (n k : ℕ) (ks : List ℕ) → mem_id k ks ≡ true → (k == n) ≡ true → mem_id n ks ≡ true
mem_id_same n k ks here same =
    let e : k ≡ n = ground (arith, same) in ap (λ t. mem_id t ks) (sym e) ∙ here

dead_with-count :
    (n f : ℕ) (parts : Option (List ℕ))
    → mem_id f (ids_with parts f) ≡ true
    → mem_id n ((elim parts [ none ↦ [] | some ids ↦ ids ]) ++ (f ∷ []))
      ≡ ltb 0 (count_id n (ids_with parts f))
dead_with-count n f none head = mem_id-count_id n (f ∷ [])
dead_with-count n f (some ids) head =
    mem_id-append n ids (f ∷ [])
    ∙ (let e : mem_id n (f ∷ []) ≡ ltb 0 (count_id n (f ∷ [])) = mem_id-count_id n (f ∷ []) in
        ground (arith, e, mem_id-count_id n ids, mem_id_same n f ids head))

pub dead_files-count :
    (n : ℕ) (m : Meta) → IsHeaded m → mem_id n (dead_files m) ≡ ltb 0 (count_id n (ids_of m))
unfolding dead_files
dead_files-count n m head = dead_with-count n m.file_id m.parts head

pub count_objects-upsert_object :
    (n : ℕ) (bucket key : Text) (m : Meta) (os : List Object)
    → count_objects n (upsert_object bucket key m os) + count_old n (find_object bucket key os)
      ≡ count_objects n os + count_id n (ids_of m)
unfolding upsert_object find_object
count_objects-upsert_object n bucket key m [] = omega arith
count_objects-upsert_object n bucket key m (o ∷ os) = elim (Bool-cases (is_at bucket key o)) [
  | inl here ↦ rw (here, upsert_object, find_object) (omega arith)
  | inr later ↦
      rw (later, upsert_object, find_object)
        (omega (arith, count_objects-upsert_object n bucket key m os))
]

pub count_objects-delete_object_row :
    (n : ℕ) (bucket key : Text) (os : List Object)
    → count_objects n (delete_object_row bucket key os) + count_old n (find_object bucket key os)
      ≡ count_objects n os
unfolding delete_object_row find_object
count_objects-delete_object_row n bucket key [] = omega arith
count_objects-delete_object_row n bucket key (o ∷ os) = elim (Bool-cases (is_at bucket key o)) [
  | inl here ↦ rw (here, delete_object_row, find_object) (omega arith)
  | inr later ↦
      rw (later, delete_object_row, find_object)
        (omega (arith, count_objects-delete_object_row n bucket key os))
]

pub count_parts-append :
    (n : ℕ) (ps qs : List UploadPart)
    → count_parts n (ps ++ qs) ≡ count_parts n ps + count_parts n qs
count_parts-append n [] qs = omega arith
count_parts-append n (p ∷ ps) qs = omega (arith, count_parts-append n ps qs)

pub count_parts-delete_part :
    (n : ℕ) (upload_id : Text) (part_no : ℕ) (ps : List UploadPart)
    → count_parts n (delete_part upload_id part_no ps)
        + count_part n (find_part upload_id part_no ps)
      ≡ count_parts n ps
unfolding delete_part find_part
count_parts-delete_part n upload_id part_no [] = omega arith
count_parts-delete_part n upload_id part_no (p ∷ ps) =
    elim (Bool-cases (is_part upload_id part_no p)) [
      | inl here ↦ rw (here, delete_part, find_part) (omega arith)
      | inr later ↦
          rw (later, delete_part, find_part)
            (omega (arith, count_parts-delete_part n upload_id part_no ps))
    ]

pub count_parts-delete_parts :
    (n : ℕ) (upload_id : Text) (ps : List UploadPart)
    → count_parts n (delete_parts upload_id ps) + count_parts n (parts_in upload_id ps)
      ≡ count_parts n ps
unfolding delete_parts parts_in
count_parts-delete_parts n upload_id [] = omega arith
count_parts-delete_parts n upload_id (p ∷ ps) = elim (Bool-cases (text_eq p.upload_id upload_id)) [
  | inl here ↦
      rw (here, delete_parts, parts_in) (omega (arith, count_parts-delete_parts n upload_id ps))
  | inr later ↦
      rw (later, delete_parts, parts_in) (omega (arith, count_parts-delete_parts n upload_id ps))
]

count_parts-insert_part :
    (n : ℕ) (p : UploadPart) (ps : List UploadPart)
    → count_parts n (insert_part p ps) ≡ count_parts n (p ∷ ps)
unfolding insert_part
count_parts-insert_part n p [] = refl
count_parts-insert_part n p (q ∷ qs) = elim (Bool-cases (ltb q.part_no p.part_no)) [
  | inl later ↦ rw (later, insert_part) (omega (arith, count_parts-insert_part n p qs))
  | inr here ↦ rw (here, insert_part) refl
]

pub count_parts-sort_parts :
    (n : ℕ) (ps : List UploadPart) → count_parts n (sort_parts ps) ≡ count_parts n ps
unfolding sort_parts
count_parts-sort_parts n [] = refl
count_parts-sort_parts n (p ∷ ps) =
    count_parts-insert_part n p (sort_parts ps)
    ∙ ap (λ c. (if p.file_id == n then 1 else 0) + c) (count_parts-sort_parts n ps)

pub count_id-part_ids : (n : ℕ) (ps : List UploadPart) → count_id n (part_ids ps) ≡ count_parts n ps
unfolding part_ids
count_id-part_ids n [] = refl
count_id-part_ids n (p ∷ ps) =
    ap (λ c. (if p.file_id == n then 1 else 0) + c) (count_id-part_ids n ps)
