-- ===== src/Ingest/Whole.antt =====
-- The whole COPY stream of a request: header, pushes, and what `finish` sends.
use lakewing.Prelude.{
  ℕ, zero, suc, ◌+◌, ◌*◌, ◌%◌, ◌^◌, ◌≤◌, ◌<◌, ◌≡◌, refl, sym, ap, ap₂, ◌∙◌, List, [], ◌∷◌, ◌++◌,
  append_assoc, append-nil, arith, length, length-drop, concat, concat_range, concat_range_last,
}
use lakewing.Layout.{row_bytes, row_of, as_i32}
use lakewing.Ingest.{
  Digest, digest, div_ceil, copy_header, copy_trailer, frame_rows, RowFramer, new_framer, finish,
  push_all,
}
use lakewing.Ingest.Format.{copy_tuple, copy_tuples, copy_stream, row_count, file_rows}
use lakewing.Ingest.Framing.{tuple_at, frame_rows_tail}
use lakewing.Ingest.Stream.{whole_rows, Framed, new_framer-Framed, push_all-Framed}

-- The pending bytes are no row, or one row more.
row_count_whole :
    (file : List ℕ) → length file ≡ whole_rows file * row_bytes → row_count file ≡ whole_rows file
unfolding row_count div_ceil row_bytes
row_count_whole file h = ground arith

row_count_part :
    (file : List ℕ)
    → whole_rows file * row_bytes < length file
    → row_count file ≡ suc (whole_rows file)
unfolding row_count div_ceil row_bytes
row_count_part file h = ground arith

module _ (d : Digest) (file_id : ℕ) (file sent : List ℕ) (f : RowFramer d)
    (i : Framed d file_id file sent f) where
  abbrev tuples : List ℕ
  tuples = concat_range (tuple_at file_id 0 file) 0 (row_count file)

  abbrev last_rows : List ℕ → List ℕ
  last_rows [] = []
  last_rows (b ∷ bs) = frame_rows f.file_id f.next_no (b ∷ bs)

  last_rows_lem :
      (elim f.pending [ [] ↦ [] | b ∷ bs ↦ frame_rows f.file_id f.next_no f.pending ])
      ≡ last_rows f.pending
  last_rows_lem = ground arith

  no_tail : f.pending ≡ [] → length file ≡ whole_rows file * row_bytes
  unfolding row_bytes
  no_tail e =
      omega
        (arith, ap length (sym i.pending_ok ∙ e), length-drop (whole_rows file * row_bytes) file)

  tail_length :
      (b : ℕ) (bs : List ℕ) → f.pending ≡ b ∷ bs → whole_rows file * row_bytes < length file
  unfolding row_bytes
  tail_length b bs e =
      omega
        (arith, ap length (sym i.pending_ok ∙ e), length-drop (whole_rows file * row_bytes) file)

  tail_short : length file < suc (whole_rows file) * row_bytes
  unfolding row_bytes
  tail_short = omega arith

  -- The rows before the trailer.
  finish_tuples : sent ++ (f.frame ++ last_rows f.pending) ≡ tuples
  finish_tuples = go f.pending refl
    where
      go :
          (pending : List ℕ) → f.pending ≡ pending → sent ++ (f.frame ++ last_rows pending) ≡ tuples
      go [] e =
          ap (λ t. sent ++ t) (append-nil f.frame)
          ∙ i.framed_ok
          ∙ ap (concat_range (tuple_at file_id 0 file) 0) (sym (row_count_whole file (no_tail e)))
      go (b ∷ bs) e =
          sym (append_assoc sent f.frame _)
          ∙ ap₂ (λ s t. s ++ t) i.framed_ok
              (ap₂ (λ a t. frame_rows a f.next_no t) i.file_ok (sym e ∙ i.pending_ok)
                ∙ frame_rows_tail file_id file (whole_rows file) f.next_no (tail_length b bs e)
                    tail_short i.next_ok)
          ∙ ap
              (λ a.
                concat_range (tuple_at file_id 0 file) 0 (whole_rows file)
                ++ tuple_at file_id 0 file a)
              (let q : whole_rows file ≡ 0 + whole_rows file = omega arith in q)
          ∙ sym (concat_range_last (tuple_at file_id 0 file) 0 (whole_rows file))
          ∙ ap (concat_range (tuple_at file_id 0 file) 0)
              (sym (row_count_part file (tail_length b bs e)))

  finish_stream : sent ++ (finish d f).0 ≡ tuples ++ copy_trailer
  unfolding finish
  finish_stream =
      ap (λ t. sent ++ (f.frame ++ (t ++ copy_trailer))) last_rows_lem
      ∙ ap (λ t. sent ++ t) (sym (append_assoc f.frame (last_rows f.pending) copy_trailer))
      ∙ sym (append_assoc sent (f.frame ++ last_rows f.pending) copy_trailer)
      ∙ ap (λ t. t ++ copy_trailer) finish_tuples

-- The tuples of a file's rows.
copy_tuples-range :
    (file_id : ℕ) (file : List ℕ) (lo n : ℕ)
    → lo + n ≤ 2 ^ 32
    → copy_tuples (
        concat_range
          (λ k. record { file_id = file_id; row_no = k; bytes = row_of file k } ∷ [])
          lo
          n)
      ≡ concat_range (tuple_at file_id 0 file) lo n
copy_tuples-range file_id file lo zero h = refl
copy_tuples-range file_id file lo (suc n) h =
    ap₂ (λ k t. copy_tuple (record { file_id = file_id; row_no = k; bytes = row_of file lo }) ++ t)
      (let e : lo ≡ as_i32 (0 + lo) = omega arith in e)
      (copy_tuples-range file_id file (suc lo) n (omega arith))

row_count_bound : (file : List ℕ) → length file ≤ 2 ^ 31 * row_bytes → 0 + row_count file ≤ 2 ^ 32
unfolding row_count div_ceil row_bytes
row_count_bound file h = ground arith

-- Whatever the chunks of a request of at most 2^31 rows, the stream is that of the rows of the file
-- that they make up, and `finish` returns the file's size and digest.
pub ingest_stream :
    (d : Digest) (file_id : ℕ) (chunks : List (List ℕ))
    → length (concat chunks) ≤ 2 ^ 31 * row_bytes
    → (copy_header
          ++ ((push_all d (new_framer d file_id) chunks).0
              ++ (finish d (push_all d (new_framer d file_id) chunks).1).0)
        ≡ copy_stream (file_rows file_id (concat chunks)))
      × ((finish d (push_all d (new_framer d file_id) chunks).1).1
          ≡ (length (concat chunks), digest d (concat chunks)))
unfolding finish file_rows row_bytes
ingest_stream d file_id chunks small =
    let file : List ℕ = concat chunks in
    let i : Framed d file_id file (push_all d (new_framer d file_id) chunks).0
        (push_all d (new_framer d file_id) chunks).1 =
      push_all-Framed d file_id [] [] (new_framer d file_id) chunks (new_framer-Framed d file_id) in
    (
      ap (λ t. copy_header ++ t)
          (finish_stream d file_id file (push_all d (new_framer d file_id) chunks).0
              (push_all d (new_framer d file_id) chunks).1 i
            ∙ ap (λ t. t ++ copy_trailer)
                (sym (
                  copy_tuples-range file_id file 0 (row_count file) (row_count_bound file small)))),
      ap₂ (λ a b. (a, d.finalize b))
          (i.total_ok ∙ (let e : length file % 2 ^ 64 ≡ length file = omega arith in e))
          i.hashed_ok,
    )
