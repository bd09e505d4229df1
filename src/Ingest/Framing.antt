-- ===== src/Ingest/Framing.antt =====
-- `frame_rows` of crates/pgvs3/src/ingest.rs, and ranges of rows.
use lakewing.Prelude.{
  ℕ, zero, suc, ◌+◌, ◌-◌, ◌*◌, ◌≤◌, ◌<◌, min, ◌≡◌, refl, sym, ap, ap₂, ◌∙◌, List, ◌++◌, arith,
  length, drop, slice, slice_clamp, slice-slice, length-slice, concat_range, concat_range_ext,
  append-nil, take_all, length-drop,
}
use lakewing.Layout.{row_bytes, row_of, as_i32}
use lakewing.Ingest.{to_be_bytes, div_ceil, frame_rows_from, frame_rows}
use lakewing.Ingest.Format.{copy_tuple}

-- The tuple of row `i` of some bytes, in a file whose earlier rows number `first_no`.
abbrev pub tuple_at : ℕ → ℕ → List ℕ → ℕ → List ℕ
tuple_at file_id first_no bytes i =
    copy_tuple
      (record { file_id = file_id; row_no = as_i32 (first_no + i); bytes = row_of bytes i })

row_length :
    (bytes : List ℕ) (i : ℕ)
    → min ((i + 1) * row_bytes) (length bytes) - i * row_bytes ≡ length (row_of bytes i)
unfolding row_of row_bytes
row_length bytes i = omega (arith, length-slice bytes (i * 8120) (suc i * 8120))

row_slice_lem :
    (bytes : List ℕ) (i : ℕ)
    → slice bytes (i * row_bytes) (min ((i + 1) * row_bytes) (length bytes)) ≡ row_of bytes i
unfolding row_of row_bytes
row_slice_lem bytes i =
    slice_clamp bytes (i * 8120) ((i + 1) * 8120)
    ∙ ap (slice bytes (i * 8120)) (let e : (i + 1) * 8120 ≡ suc i * 8120 = omega arith in e)

frame_rows_from-eq-range :
    (rounds i file_id first_no : ℕ) (bytes : List ℕ)
    → frame_rows_from rounds i file_id first_no bytes
      ≡ concat_range (tuple_at file_id first_no bytes) i rounds
unfolding frame_rows_from copy_tuple
frame_rows_from-eq-range zero i file_id first_no bytes = refl
frame_rows_from-eq-range (suc rounds) i file_id first_no bytes =
    ap₂
      (λ n t.
        (to_be_bytes 2 3
          ++ (to_be_bytes 4 8
              ++ (to_be_bytes 8 file_id
                  ++ (to_be_bytes 4 4
                      ++ (to_be_bytes 4 (as_i32 (first_no + i))
                          ++ (to_be_bytes 4 (as_i32 n) ++ t))))))
        ++ frame_rows_from rounds (i + 1) file_id first_no bytes)
      (row_length bytes i) (row_slice_lem bytes i)
    ∙ ap (λ t. tuple_at file_id first_no bytes i ++ t)
        (frame_rows_from-eq-range rounds (i + 1) file_id first_no bytes
          ∙ ap (λ k. concat_range (tuple_at file_id first_no bytes) k rounds)
              (let e : i + 1 ≡ suc i = omega arith in e))

pub frame_rows-eq-range :
    (file_id first_no : ℕ) (bytes : List ℕ)
    → frame_rows file_id first_no bytes
      ≡ concat_range (tuple_at file_id first_no bytes) 0 (div_ceil (length bytes) row_bytes)
unfolding frame_rows
frame_rows-eq-range file_id first_no bytes = frame_rows_from-eq-range _ 0 file_id first_no bytes

concat_range_shift :
    (f : ℕ → List ℕ) (a lo n : ℕ) → concat_range (λ j. f (a + j)) lo n ≡ concat_range f (a + lo) n
concat_range_shift f a lo zero = refl
concat_range_shift f a lo (suc n) =
    ap (λ t. f (a + lo) ++ t)
      (concat_range_shift f a (suc lo) n
        ∙ ap (λ k. concat_range f k n) (let e : a + suc lo ≡ suc (a + lo) = omega arith in e))

-- The rows of the slice of a file that starts at row `k` are the file's rows from `k` on.
row_of-slice :
    (file : List ℕ) (k b j : ℕ)
    → suc j * row_bytes + k * row_bytes ≤ b
    → row_of (slice file (k * row_bytes) b) j ≡ row_of file (k + j)
unfolding row_of row_bytes
row_of-slice file k b j h =
    slice-slice file (k * 8120) b (j * 8120) (suc j * 8120)
    ∙ ap₂ (slice file) (let e : k * 8120 + j * 8120 ≡ (k + j) * 8120 = omega arith in e)
        (let e : min (k * 8120 + suc j * 8120) b ≡ suc (k + j) * 8120 = omega arith in e)

whole_count :
    (file : List ℕ) (k n : ℕ)
    → (k + n) * row_bytes ≤ length file
    → div_ceil (length (slice file (k * row_bytes) ((k + n) * row_bytes))) row_bytes ≡ n
unfolding row_bytes div_ceil
whole_count file k n h =
    let len : ℕ = length (slice file (k * 8120) ((k + n) * 8120)) in
    let e : len ≡ n * 8120 = omega (arith, length-slice file (k * 8120) ((k + n) * 8120)) in
    rw e (ground arith)

whole_room : (k n j : ℕ) → j < n → suc j * row_bytes + k * row_bytes ≤ (k + n) * row_bytes
unfolding row_bytes
whole_room k n j h = omega arith

-- Framing a slice of a file that starts at row `k` and holds `n` whole rows.
pub frame_rows-slice :
    (file_id : ℕ) (file : List ℕ) (k n first : ℕ)
    → (k + n) * row_bytes ≤ length file
    → first ≡ as_i32 k
    → frame_rows file_id first (slice file (k * row_bytes) ((k + n) * row_bytes))
      ≡ concat_range (tuple_at file_id 0 file) k n
frame_rows-slice file_id file k n first h e =
    frame_rows-eq-range file_id first (slice file (k * row_bytes) ((k + n) * row_bytes))
    ∙ ap (concat_range _ 0) (whole_count file k n h)
    ∙ concat_range_ext _ (λ j. tuple_at file_id 0 file (k + j)) 0 n
        (λ j _ lt.
          ap₂ (λ r t. copy_tuple (record { file_id = file_id; row_no = r; bytes = t })) (number j)
            (row_of-slice file k ((k + n) * row_bytes) j (whole_room k n j (omega arith))))
    ∙ concat_range_shift (tuple_at file_id 0 file) k 0 n
    ∙ ap (λ a. concat_range (tuple_at file_id 0 file) a n) (let q : k + 0 ≡ k = omega arith in q)
  where
    number : (j : ℕ) → as_i32 (first + j) ≡ as_i32 (0 + (k + j))
    number j = omega (arith, e)

tail_count :
    (file : List ℕ) (k : ℕ)
    → k * row_bytes < length file
    → length file < suc k * row_bytes
    → div_ceil (length (drop (k * row_bytes) file)) row_bytes ≡ 1
unfolding row_bytes div_ceil
tail_count file k lo hi = ground (arith, length-drop (k * 8120) file)

tail_row :
    (file : List ℕ) (k : ℕ)
    → length file < suc k * row_bytes
    → row_of (drop (k * row_bytes) file) 0 ≡ row_of file k
unfolding row_of row_bytes slice
tail_row file k hi =
    take_all 8120 (drop (k * 8120) file) (omega (arith, length-drop (k * 8120) file))
    ∙ sym (
        take_all (suc k * 8120 - k * 8120) (drop (k * 8120) file)
          (omega (arith, length-drop (k * 8120) file)))

-- Framing what is left of a file behind row `k`, if that is less than a row.
pub frame_rows_tail :
    (file_id : ℕ) (file : List ℕ) (k first : ℕ)
    → k * row_bytes < length file
    → length file < suc k * row_bytes
    → first ≡ as_i32 k
    → frame_rows file_id first (drop (k * row_bytes) file) ≡ tuple_at file_id 0 file k
frame_rows_tail file_id file k first lo hi e =
    frame_rows-eq-range file_id first (drop (k * row_bytes) file)
    ∙ ap (concat_range _ 0) (tail_count file k lo hi)
    ∙ append-nil _
    ∙ ap₂ (λ r t. copy_tuple (record { file_id = file_id; row_no = r; bytes = t }))
        (let q : as_i32 (first + 0) ≡ as_i32 (0 + k) = omega (arith, e) in q) (tail_row file k hi)
