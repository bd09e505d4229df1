-- ===== src/Read/RowSlices.antt =====
-- What the rows of one file add to a response: slices of the object.
use lakewing.Prelude.{
  ℕ, suc, ◌+◌, ◌-◌, ◌*◌, ◌≤◌, ◌<◌, min, max, ◌≡◌, sym, ap, ap₂, ◌∙◌, inl, inr, none, some, true,
  false, List, [], arith, length, slice, slice_none, slice-slice, slice_same, length-slice,
  concat_range, concat_range_ext, concat_range_slices, Bool-cases,
}
use lakewing.Prelude.Int.{ℤ, pos, pos_part, ◌-ℤ◌, min_ℤ, leb_ℤ}
use lakewing.Layout.{row_bytes, row_of}
use lakewing.Read.Plan.{row_slice}

-- What a row adds to the response.
unfoldable pub row_part : ℕ → ℕ → List ℕ → ℕ → ℕ → List ℕ
row_part base row_no bytes start end = elim (row_slice base row_no bytes start end) [
  | none ↦ []
  | some s ↦ s
]

-- What the rows `[lo, hi]` of a file add, for a file at object byte `base`.
abbrev pub range_part : List ℕ → ℕ → ℕ → ℕ → ℕ × ℕ → List ℕ
range_part file base start end r =
    concat_range (λ n. row_part base n (row_of file n) start end) r.0 (r.1 + 1 - r.0)

abbrev last_byte : ℕ → ℕ → ℕ → ℤ
last_byte rs len end = min_ℤ (pos end) (pos (rs + len) -ℤ pos 1) -ℤ pos rs

last_byte_some :
    (rs len start end : ℕ)
    → leb_ℤ (pos (max start rs - rs)) (last_byte rs len end) ≡ true
    → pos_part (last_byte rs len end) + 1 ≡ min (end + 1) (rs + len) - rs
last_byte_some rs len start end h = ground arith

last_byte_none :
    (rs len start end : ℕ)
    → leb_ℤ (pos (max start rs - rs)) (last_byte rs len end) ≡ false
    → min (end + 1) (rs + len) - rs ≤ max start rs - rs
last_byte_none rs len start end h = ground arith

-- `row_slice` without signed numbers.
row_part-eq-slice_bytes :
    (base row_no : ℕ) (bytes : List ℕ) (start end : ℕ)
    → row_part base row_no bytes start end
      ≡ slice bytes
          (max start (base + row_no * row_bytes) - (base + row_no * row_bytes))
          (min (end + 1) (base + row_no * row_bytes + length bytes) - (base + row_no * row_bytes))
unfolding row_part row_slice
row_part-eq-slice_bytes base row_no bytes start end =
    let rs : ℕ = base + row_no * row_bytes in
    elim (Bool-cases (leb_ℤ (pos (max start rs - rs)) (last_byte rs (length bytes) end))) [
      | inl h ↦ rw (h, row_part) (ap (slice bytes _) (last_byte_some rs (length bytes) start end h))
      | inr h ↦
          rw (h, row_part)
            (sym (slice_none bytes _ _ (last_byte_none rs (length bytes) start end h)))
    ]

-- The offset of row `k` of a file at `base`, held inside `[s, e]`.
abbrev pub cut : ℕ → ℕ → ℕ → ℕ → ℕ
cut base s e k = min (max (base + k * row_bytes) s) e

cut_mono : (base s e i j : ℕ) → i ≤ j → cut base s e i ≤ cut base s e j
unfolding row_bytes
cut_mono base s e i j h = omega arith

module _ (obj : List ℕ) (base len start end : ℕ) (fits : base + len ≤ length obj) where
  abbrev pub seg_start : ℕ
  seg_start = max start base

  abbrev pub seg_end : ℕ
  seg_end = min (end + 1) (base + len)

  row_of_segment :
      (n : ℕ)
      → row_of (slice obj base (base + len)) n
        ≡ slice obj (base + n * row_bytes) (min (base + suc n * row_bytes) (base + len))
  unfolding row_of
  row_of_segment n = slice-slice obj base (base + len) (n * row_bytes) (suc n * row_bytes)

  length-row_of_segment :
      (n : ℕ)
      → length (row_of (slice obj base (base + len)) n)
        ≡ min (base + suc n * row_bytes) (base + len) - (base + n * row_bytes)
  length-row_of_segment n =
      ap length (row_of_segment n)
      ∙ length-slice obj (base + n * row_bytes) (min (base + suc n * row_bytes) (base + len))
      ∙ (let e : min (min (base + suc n * row_bytes) (base + len)) (length obj)
                - (base + n * row_bytes)
              ≡ min (base + suc n * row_bytes) (base + len) - (base + n * row_bytes) =
            omega arith in
          e)

  abbrev row_from : ℕ → ℕ
  row_from n = base + n * row_bytes + (max start (base + n * row_bytes) - (base + n * row_bytes))

  abbrev row_upto : ℕ → ℕ
  row_upto n =
      min
        (base
          + n * row_bytes
          + (min (end + 1) (
                base
                + n * row_bytes
                + (min (base + suc n * row_bytes) (base + len) - (base + n * row_bytes)))
              - (base + n * row_bytes)))
        (min (base + suc n * row_bytes) (base + len))

  rows_none :
      (n : ℕ)
      → row_upto n ≤ row_from n
      → cut base seg_start seg_end (suc n) ≤ cut base seg_start seg_end n
  unfolding row_bytes
  rows_none n h = omega arith

  rows_some :
      (n : ℕ)
      → row_from n < row_upto n
      → (row_from n ≡ cut base seg_start seg_end n)
        × (row_upto n ≡ cut base seg_start seg_end (suc n))
  unfolding row_bytes
  rows_some n h = omega arith

  -- A row adds the slice of the object between its own two offsets.
  row_part-eq-slice :
      (n : ℕ)
      → row_part base n (row_of (slice obj base (base + len)) n) start end
        ≡ slice obj (cut base seg_start seg_end n) (cut base seg_start seg_end (suc n))
  row_part-eq-slice n =
      row_part-eq-slice_bytes base n _ start end
      ∙ ap₂
          (λ t l.
            slice t (max start (base + n * row_bytes) - (base + n * row_bytes))
              (min (end + 1) (base + n * row_bytes + l) - (base + n * row_bytes)))
          (row_of_segment n) (length-row_of_segment n)
      ∙ slice-slice obj (base + n * row_bytes) _ _ _
      ∙ slice_same obj _ _ _ _ (rows_none n) (rows_some n)

  -- The rows from `lo` to `hi` add what lies between the offset of `lo` and that of `hi + 1`.
  pub range_part-eq-slice :
      (file : List ℕ) (lo hi : ℕ)
      → file ≡ slice obj base (base + len)
      → range_part file base start end (lo, hi)
        ≡ slice obj
            (cut base seg_start seg_end lo)
            (cut base seg_start seg_end (lo + (hi + 1 - lo)))
  range_part-eq-slice file lo hi e =
      concat_range_ext _ _ lo (hi + 1 - lo)
        (λ k _ _. ap (λ t. row_part base (row_no k) (row_of t k) start end) e ∙ row_part-eq-slice k)
      ∙ concat_range_slices obj (cut base seg_start seg_end) lo (hi + 1 - lo)
          (cut_mono base seg_start seg_end)
    where
      row_no : ℕ → ℕ
      row_no k = k
