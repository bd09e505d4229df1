-- ===== src/Store/Multipart.antt =====
-- A completed multipart upload: its parts lie one after the other, in the order of their numbers,
-- as the object's bytes.
use lakewing.Prelude.{
  ℕ, ◌+◌, ◌-◌, ◌≤◌, ◌≡◌, refl, sym, ap, ap₂, subst, ◌∙◌, some, true, List, [], ◌∷◌, ◌++◌, arith,
  length, slice, take, drop, ◌==◌, append_assoc, append-nil, length-append,
}
use lakewing.Cache.Meta.{segments_from, segments_of, segments}
use lakewing.Read.Cover.{IsStoredFrom}
use lakewing.Ingest.{Digest}
use lakewing.Ingest.Format.{CopyRow}
use lakewing.Store.Tables.{UploadPart}
use lakewing.Store.Objects.{written_meta}
use lakewing.Store.Files.{HoldsFile}
use lakewing.Store.Stored.{HoldsSegments, IsStored}
use lakewing.Store.Uploads.{nothing_gathered, part_ids, completed_write}
use lakewing.Store.Assembled.{
  gathered, ends_from, total, gathered-ids, gathered-ends, gathered-size,
}

-- The parts' bytes, one after the other.
abbrev pub contents : (ℕ → List ℕ) → List UploadPart → List ℕ
contents files [] = []
contents files (r ∷ rs) = files r.file_id ++ contents files rs

-- The chunk table holds the file of each part, of the size that is recorded.
abbrev pub HoldsParts : List CopyRow → (ℕ → List ℕ) → List UploadPart → Type 0
HoldsParts cs files [] = Unit
HoldsParts cs files (r ∷ rs) =
    (r.size ≡ length (files r.file_id))
    × HoldsFile cs r.file_id (files r.file_id)
    × HoldsParts cs files rs

-- Every part has the size of its file.
abbrev pub AllSized : (ℕ → List ℕ) → List UploadPart → Type 0
AllSized files [] = Unit
AllSized files (p ∷ ps) = (p.size ≡ length (files p.file_id)) × AllSized files ps

HoldsParts-AllSized :
    (cs : List CopyRow) (files : ℕ → List ℕ) (rows : List UploadPart)
    → HoldsParts cs files rows
    → AllSized files rows
HoldsParts-AllSized cs files [] held = tt
HoldsParts-AllSized cs files (r ∷ rs) (size, file, more) =
    (size, HoldsParts-AllSized cs files rs more)

drop-before : (xs ys : List ℕ) → drop (length xs) (xs ++ ys) ≡ ys
drop-before [] ys = refl
drop-before (x ∷ xs) ys = drop-before xs ys

take-before : (xs ys : List ℕ) → take (length xs) (xs ++ ys) ≡ xs
take-before [] ys = refl
take-before (x ∷ xs) ys = ap (λ t. x ∷ t) (take-before xs ys)

slice_middle :
    (xs f ys : List ℕ) (a b : ℕ)
    → a ≡ length xs
    → b ≡ length xs + length f
    → slice (xs ++ (f ++ ys)) a b ≡ f
unfolding slice
slice_middle xs f ys a b at to =
    ap₂ (λ n k. take n (drop k (xs ++ (f ++ ys))))
      (let e : b - a ≡ length f = omega (arith, at, to) in e) at
    ∙ ap (take (length f)) (drop-before xs (f ++ ys))
    ∙ take-before f ys

module _ (files : ℕ → List ℕ) (obj : List ℕ) where
  pub parts_laid :
      (before : List ℕ) (rows : List UploadPart) (p q : ℕ)
      → obj ≡ before ++ contents files rows
      → p ≡ length before
      → q ≡ length before
      → AllSized files rows
      → IsStoredFrom obj files p (segments_from q (part_ids rows) (ends_from q rows))
  unfolding segments_from part_ids
  parts_laid before [] p q e at from held = at ∙ sym (ap length e ∙ ap length (append-nil before))
  parts_laid before (r ∷ rs) p q e at from (size, more) =
      let f : List ℕ = files r.file_id in
      let whole : length obj ≡ length before + (length f + length (contents files rs)) =
        ap length e
        ∙ length-append before (f ++ contents files rs)
        ∙ ap (λ n. length before + n) (length-append f (contents files rs)) in
      let grown : length (before ++ f) ≡ length before + length f = length-append before f in
      (
        from ∙ sym at,
        (let le : q + (q + r.size - q) ≤ length obj = omega arith in le),
        sym (
            ap (λ o. slice o q (q + (q + r.size - q))) e
            ∙ slice_middle before f (contents files rs) q (q + (q + r.size - q)) from
                (let k : q + (q + r.size - q) ≡ length before + length f = omega arith in k)),
        parts_laid (before ++ f) rs (q + (q + r.size - q)) (q + r.size)
            (e ∙ sym (append_assoc before f (contents files rs)))
            (let k : q + (q + r.size - q) ≡ length (before ++ f) = omega arith in k)
            (let k : q + r.size ≡ length (before ++ f) = omega arith in k) more,
      )

parts_held :
    (cs : List CopyRow) (files : ℕ → List ℕ) (rows : List UploadPart) (q : ℕ)
    → HoldsParts cs files rows
    → HoldsSegments cs files (segments_from q (part_ids rows) (ends_from q rows))
unfolding segments_from part_ids
parts_held cs files [] q held = tt
parts_held cs files (r ∷ rs) q (size, file, more) = (file, parts_held cs files rs (q + r.size) more)

pub total-contents :
    (files : ℕ → List ℕ) (rows : List UploadPart)
    → AllSized files rows
    → total rows ≡ length (contents files rows)
total-contents files [] held = refl
total-contents files (r ∷ rs) (size, more) =
    ap₂ (λ a b. a + b) size (total-contents files rs more)
    ∙ sym (length-append (files r.file_id) (contents files rs))

lengths_agree :
    (q : ℕ) (rows : List UploadPart) → (length (part_ids rows) == length (ends_from q rows)) ≡ true
unfolding part_ids
lengths_agree q [] = refl
lengths_agree q (r ∷ rs) = ground (arith, lengths_agree (q + r.size) rs)

-- What the gathered metadata lays out.
pub segments-gathered :
    (d : Digest) (rows : List UploadPart) (now : ℕ)
    → segments (written_meta (completed_write d (gathered nothing_gathered rows)) now)
      ≡ segments_from 0 (part_ids rows) (ends_from 0 rows)
unfolding segments segments_of written_meta completed_write
segments-gathered d rows now =
    ap₂
      (λ ids ends.
        segments_of (some ids) (some ends)
          (completed_write d (gathered nothing_gathered rows)).file_id
          (gathered nothing_gathered rows).size)
      (gathered-ids nothing_gathered rows) (gathered-ends nothing_gathered rows)
    ∙ rw (lengths_agree 0 rows) refl

pub gathered-IsStored :
    (d : Digest) (cs : List CopyRow) (files : ℕ → List ℕ) (rows : List UploadPart) (now : ℕ)
    → HoldsParts cs files rows
    → IsStored cs
        (written_meta (completed_write d (gathered nothing_gathered rows)) now)
        (contents files rows)
unfolding written_meta completed_write
gathered-IsStored d cs files rows now held =
    let s : segments (written_meta (completed_write d (gathered nothing_gathered rows)) now)
        ≡ segments_from 0 (part_ids rows) (ends_from 0 rows) =
      segments-gathered d rows now in
    record {
      files = files;
      laid = subst (IsStoredFrom (contents files rows) files 0) (sym s) (
          parts_laid files (contents files rows) [] rows 0 0 refl refl refl
            (HoldsParts-AllSized cs files rows held));
      held = subst (HoldsSegments cs files) (sym s) (parts_held cs files rows 0 held);
      size_ok =
          gathered-size nothing_gathered rows
          ∙ ap (λ n. 0 + n) (total-contents files rows (HoldsParts-AllSized cs files rows held))
          ∙ omega arith;
    }
