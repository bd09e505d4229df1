-- ===== src/Ingest/Format.antt =====
-- The rows of a file and the stream that PostgreSQL's documentation of `COPY ... (FORMAT binary)`
-- asks for, with no framer, batch or pending byte in sight.
use lakewing.Prelude.{ℕ, ◌%◌, ◌^◌, List, [], ◌∷◌, ◌++◌, length, concat_range}
use lakewing.Layout.{row_bytes, row_of}
use lakewing.Ingest.{to_be_bytes, div_ceil, copy_header, copy_trailer}

-- A row of `s3p.chunks (file_id, no, data)`.
pub record CopyRow : Type 0 where
  pub file_id : ℕ
  pub row_no : ℕ
  pub bytes : List ℕ

-- A tuple: the number of fields, then each field behind its length.
unfoldable pub copy_tuple : CopyRow → List ℕ
copy_tuple r =
    to_be_bytes 2 3
    ++ (to_be_bytes 4 8
        ++ (to_be_bytes 8 r.file_id
            ++ (to_be_bytes 4 4
                ++ (to_be_bytes 4 r.row_no
                    ++ (to_be_bytes 4 (length r.bytes % 2 ^ 32) ++ r.bytes)))))

abbrev pub copy_tuples : List CopyRow → List ℕ
copy_tuples [] = []
copy_tuples (r ∷ rs) = copy_tuple r ++ copy_tuples rs

abbrev pub copy_stream : List CopyRow → List ℕ
copy_stream rows = copy_header ++ (copy_tuples rows ++ copy_trailer)

unfoldable pub row_count : List ℕ → ℕ
row_count file = div_ceil (length file) row_bytes

-- The rows that hold a file.
unfoldable pub file_rows : ℕ → List ℕ → List CopyRow
file_rows file_id file =
    concat_range (λ n. record { file_id = file_id; row_no = n; bytes = row_of file n } ∷ []) 0
      (row_count file)
