-- ===== src/Layout.antt =====
-- The constants of crates/pgvs3/src/db.rs and ingest.rs, and the layout of a file in
-- `s3p.chunks`: row `no` holds bytes `no * ROW_BYTES` up to the next row.
use lakewing.Prelude.{ℕ, suc, ◌+◌, ◌-◌, ◌*◌, ◌/◌, ◌%◌, ◌^◌, List, slice}

unfoldable pub row_bytes : ℕ
row_bytes = 8120

-- `SMALL_MAX` of stats.rs, 8 << 20.
unfoldable pub small_max : ℕ
small_max = 8 * 2 ^ 20

unfoldable pub part_rows : ℕ
part_rows = small_max / row_bytes + 2

unfoldable pub parts_inflight : ℕ
parts_inflight = 8

unfoldable pub chunk_bytes : ℕ
chunk_bytes = 256 * 2 ^ 10

unfoldable pub send_batch : ℕ
send_batch = 4 * 2 ^ 20

-- `n as i32`, as a 32-bit pattern. Below 2 ^ 31 it is the number itself.
abbrev pub as_i32 : ℕ → ℕ
as_i32 n = n % 2 ^ 32

abbrev pub i32_max : ℕ
i32_max = 2 ^ 31 - 1

-- The bytes of row `no` of a file.
unfoldable pub row_of : List ℕ → ℕ → List ℕ
row_of file row_no = slice file (row_no * row_bytes) (suc row_no * row_bytes)
