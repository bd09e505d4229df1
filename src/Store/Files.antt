-- ===== src/Store/Files.antt =====
-- What the chunk table holds of a file, and what a query of a piece of it delivers.
use lakewing.Prelude.{
  ℕ, zero, suc, ◌+◌, ◌≤◌, ◌<◌, ◌≡◌, refl, ap, ◌∙◌, inl, inr, Bool, true, false, ◌&&◌, ◌||◌, List,
  [], ◌∷◌, ◌++◌, arith, concat_range, leb, ◌==◌, Bool-cases,
}
use lakewing.Layout.{row_of}
use lakewing.Ingest.Format.{CopyRow, row_count, file_rows}
use lakewing.Read.Plan.{Piece}
use lakewing.Read.Early.{has_row, AllRows}
use lakewing.Read.Drain.{IsRowOf, Arrives}
use lakewing.Store.Tables.{mem_id, delete_chunks, select_rows}

-- Some chunk belongs to the file.
unfoldable pub has_file : ℕ → List CopyRow → Bool
has_file n [] = false
has_file n (c ∷ cs) = c.file_id == n || has_file n cs

-- Queries see exactly the rows of the file.
abbrev pub HoldsFile : List CopyRow → ℕ → List ℕ → Type 0
HoldsFile cs file_id file =
    (p : Piece) → p.file_id ≡ file_id → select_rows p cs ≡ select_rows p (file_rows file_id file)

pub select_rows-append :
    (p : Piece) (xs ys : List CopyRow)
    → select_rows p (xs ++ ys) ≡ select_rows p xs ++ select_rows p ys
unfolding select_rows
select_rows-append p [] ys = refl
select_rows-append p (c ∷ cs) ys = ground (arith, select_rows-append p cs ys)

pub select_rows-absent :
    (p : Piece) (cs : List CopyRow) → has_file p.file_id cs ≡ false → select_rows p cs ≡ []
unfolding select_rows has_file
select_rows-absent p [] h = refl
select_rows-absent p (c ∷ cs) h = ground (arith, select_rows-absent p cs)

pub select_rows-delete_chunks :
    (p : Piece) (dead : List ℕ) (cs : List CopyRow)
    → mem_id p.file_id dead ≡ false
    → select_rows p (delete_chunks dead cs) ≡ select_rows p cs
unfolding select_rows delete_chunks
select_rows-delete_chunks p dead [] h = refl
select_rows-delete_chunks p dead (c ∷ cs) h = elim (Bool-cases (c.file_id == p.file_id)) [
  | inl same ↦
      let e : c.file_id ≡ p.file_id = ground arith in
      let kept : mem_id c.file_id dead ≡ false = ap (λ n. mem_id n dead) e ∙ h in
      rw (kept, delete_chunks) (ground (arith, select_rows-delete_chunks p dead cs h))
  | inr other ↦ ground (arith, select_rows-delete_chunks p dead cs h)
]

-- A file written behind chunks of other files is held.
pub HoldsFile-append :
    (cs : List CopyRow) (file_id : ℕ) (file : List ℕ)
    → has_file file_id cs ≡ false
    → HoldsFile (cs ++ file_rows file_id file) file_id file
HoldsFile-append cs file_id file absent p e =
    select_rows-append p cs (file_rows file_id file)
    ∙ ap (λ t. t ++ select_rows p (file_rows file_id file))
        (select_rows-absent p cs (ap (λ n. has_file n cs) e ∙ absent))

-- Deleting other files changes nothing of a file.
pub HoldsFile-delete_chunks :
    (dead : List ℕ) (cs : List CopyRow) (file_id : ℕ) (file : List ℕ)
    → mem_id file_id dead ≡ false
    → HoldsFile cs file_id file
    → HoldsFile (delete_chunks dead cs) file_id file
HoldsFile-delete_chunks dead cs file_id file kept held p e =
    select_rows-delete_chunks p dead cs (ap (λ n. mem_id n dead) e ∙ kept) ∙ held p e

module _ (start end : ℕ) (p : Piece) (file : List ℕ) where
  abbrev rows_from : ℕ → ℕ → List CopyRow
  rows_from lo n =
      concat_range (λ k. record { file_id = p.file_id; row_no = k; bytes = row_of file k } ∷ []) lo
        n

  rows_from-AllRows :
      (lo n : ℕ) → AllRows (IsRowOf start end p file) (select_rows p (rows_from lo n))
  unfolding select_rows
  rows_from-AllRows lo zero = tt
  rows_from-AllRows lo (suc n) =
      elim (Bool-cases (p.file_id == p.file_id && (leb p.lo lo && leb lo p.hi))) [
        | inl inside ↦
            rw (inside, select_rows)
              (
                record { bytes_ok = refl; from_lo = ground arith; upto_hi = ground arith },
                rows_from-AllRows (suc lo) n,
              )
        | inr outside ↦ rw (outside, select_rows) (rows_from-AllRows (suc lo) n)
      ]

  rows_from_complete :
      (lo n k : ℕ)
      → lo ≤ k
      → k < lo + n
      → p.lo ≤ k
      → k ≤ p.hi
      → has_row k (select_rows p (rows_from lo n)) ≡ true
  unfolding select_rows
  rows_from_complete lo zero k a b c e = absurd (omega arith)
  rows_from_complete lo (suc n) k a b c e = ground (arith, rows_from_complete (suc lo) n k)

  -- The rows of a file are what the loop over a piece of it needs.
  pub file_rows-Arrives :
      p.hi < row_count file → Arrives start end p file (select_rows p (file_rows p.file_id file))
  unfolding file_rows
  file_rows-Arrives h = record {
    rows_ok = rows_from-AllRows 0 (row_count file);
    complete = λ k a b. rows_from_complete 0 (row_count file) k (omega arith) (omega arith) a b;
  }
