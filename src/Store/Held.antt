-- ===== src/Store/Held.antt =====
-- The chunk table against the owners of its files: it holds the whole of every file that is owned,
-- and no row of any other. How the statements of crates/pgvs3/src/db.rs on `s3p.chunks` keep that.
use lakewing.Prelude.{
  ℕ, zero, suc, ◌+◌, ◌<◌, ◌≡◌, refl, sym, ap, ◌∙◌, true, false, List, [], ◌∷◌, ◌++◌, arith,
  append-nil, ltb, ◌==◌, if◌then◌else◌, Bool-cases, inl, inr, concat_range,
}
use lakewing.Layout.{row_of}
use lakewing.Ingest.Format.{CopyRow, row_count, file_rows}
use lakewing.Read.Plan.{Piece}
use lakewing.Store.Tables.{mem_id, delete_chunks, select_rows}
use lakewing.Store.Files.{
  has_file, HoldsFile, select_rows-append, select_rows-absent, select_rows-delete_chunks,
}

has_file-concat_range :
    (n f : ℕ) (bytes : ℕ → List ℕ) (lo k : ℕ)
    → (f == n) ≡ false
    → has_file n (concat_range (λ i. record { file_id = f; row_no = i; bytes = bytes i } ∷ []) lo k)
      ≡ false
unfolding has_file
has_file-concat_range n f bytes lo zero other = refl
has_file-concat_range n f bytes lo (suc k) other =
    ground (arith, other, has_file-concat_range n f bytes (suc lo) k)

-- The rows of another file.
select_rows-file_rows_other :
    (p : Piece) (f : ℕ) (file : List ℕ)
    → (f == p.file_id) ≡ false
    → select_rows p (file_rows f file) ≡ []
unfolding file_rows
select_rows-file_rows_other p f file other =
    select_rows-absent p _
      (has_file-concat_range p.file_id f (row_of file) 0 (row_count file) other)

pub select_rows-delete_chunks_dead :
    (p : Piece) (dead : List ℕ) (cs : List CopyRow)
    → mem_id p.file_id dead ≡ true
    → select_rows p (delete_chunks dead cs) ≡ []
unfolding select_rows delete_chunks
select_rows-delete_chunks_dead p dead [] h = refl
select_rows-delete_chunks_dead p dead (c ∷ cs) h = elim (Bool-cases (c.file_id == p.file_id)) [
  | inl same ↦
      let e : c.file_id ≡ p.file_id = ground arith in
      let gone : mem_id c.file_id dead ≡ true = ap (λ n. mem_id n dead) e ∙ h in
      rw (gone, delete_chunks) (select_rows-delete_chunks_dead p dead cs h)
  | inr other ↦ ground (arith, select_rows-delete_chunks_dead p dead cs h)
]

module _ (files : ℕ → List ℕ) where
  -- A query of a piece delivers the rows of its file if the file is owned, and else nothing.
  abbrev pub Held : List CopyRow → (ℕ → ℕ) → Type 0
  Held cs own =
      (p : Piece)
      → select_rows p cs ≡ (
          if ltb 0 (own p.file_id)
          then select_rows p (file_rows p.file_id (files p.file_id))
          else [])

  pub Held-same :
      (cs : List CopyRow) (own own' : ℕ → ℕ)
      → ((n : ℕ) → own' n ≡ own n)
      → Held cs own
      → Held cs own'
  Held-same cs own own' same held p = rw (same p.file_id) (held p)

  pub Held-delete_chunks :
      (dead : List ℕ) (cs : List CopyRow) (own own' : ℕ → ℕ)
      → ((n : ℕ) → own' n ≡ (if mem_id n dead then 0 else own n))
      → Held cs own
      → Held (delete_chunks dead cs) own'
  Held-delete_chunks dead cs own own' left held p = elim (Bool-cases (mem_id p.file_id dead)) [
    | inl gone ↦
        let none_left : own' p.file_id ≡ 0 = left p.file_id ∙ rw gone refl in
        rw none_left (select_rows-delete_chunks_dead p dead cs gone)
    | inr kept ↦
        let same : own' p.file_id ≡ own p.file_id = left p.file_id ∙ rw kept refl in
        rw same (select_rows-delete_chunks p dead cs kept ∙ held p)
  ]

  pub Held-append :
      (cs : List CopyRow) (own own' : ℕ → ℕ) (f : ℕ)
      → own f ≡ 0
      → ((n : ℕ) → own' n ≡ own n + (if f == n then 1 else 0))
      → Held cs own
      → Held (cs ++ file_rows f (files f)) own'
  Held-append cs own own' f new grown held p =
      select_rows-append p cs (file_rows f (files f)) ∙ elim (Bool-cases (f == p.file_id)) [
        | inl here ↦
            let e : f ≡ p.file_id = ground arith in
            let none_yet : own p.file_id ≡ 0 = ap own (sym e) ∙ new in
            let once : ltb 0 (own' p.file_id) ≡ true =
              ap (ltb 0) (grown p.file_id) ∙ ground (arith, here) in
            let empty : select_rows p cs ≡ [] = held p ∙ rw none_yet refl in
            rw (once, empty) (ap (λ n. select_rows p (file_rows n (files n))) e)
        | inr other ↦
            let same : own' p.file_id ≡ own p.file_id = grown p.file_id ∙ ground (arith, other) in
            rw (same, select_rows-file_rows_other p f (files f) other)
              (append-nil (select_rows p cs) ∙ held p)
      ]

  -- A file that is owned is held.
  pub Held-HoldsFile :
      (cs : List CopyRow) (own : ℕ → ℕ) (n : ℕ) → 0 < own n → Held cs own → HoldsFile cs n (files n)
  Held-HoldsFile cs own n owned held p e =
      let here : ltb 0 (own p.file_id) ≡ true = ap (λ k. ltb 0 (own k)) e ∙ ground arith in
      held p ∙ rw here (ap (λ k. select_rows p (file_rows k (files k))) e)
