-- ===== src/Tests/Copy.antt =====
-- A reader of binary COPY streams and a digest, to run the model with.
use lakewing.Prelude.{
  ℕ, zero, suc, ◌+◌, ◌*◌, Option, none, some, List, [], ◌∷◌, ◌++◌, append_assoc, append-nil, length,
  drop, slice, ◌==◌, if◌then◌else◌,
}
use lakewing.Ingest.{Digest}
use lakewing.Ingest.Format.{CopyRow}

-- The digest that is all its bytes.
abbrev pub identity_digest : Digest
identity_digest = record {
  State = List ℕ;
  new = [];
  update = λ s b. s ++ b;
  finalize = λ s. s;
  update-append = λ s a b. append_assoc s a b;
  update-nil = λ s. append-nil s;
}

unfoldable pub from_be_bytes : ℕ → List ℕ → ℕ
from_be_bytes acc [] = acc
from_be_bytes acc (b ∷ bs) = from_be_bytes (acc * 256 + b) bs

unfoldable pub read_tuples : ℕ → List ℕ → Option (List CopyRow)
read_tuples zero bytes = none
read_tuples (suc fuel) bytes =
    let len = from_be_bytes 0 (slice bytes 22 26) in
    let rest = read_tuples fuel (drop (26 + len) bytes) in
    if from_be_bytes 0 (slice bytes 0 2) == 65535 then some [] else elim rest [
      | none ↦ none
      | some rows ↦ some (
          record {
            file_id = from_be_bytes 0 (slice bytes 6 14);
            row_no = from_be_bytes 0 (slice bytes 18 22);
            bytes = slice bytes 26 (26 + len);
          }
          ∷ rows)
    ]

-- Reads past the header, to the trailer.
unfoldable pub read_copy : List ℕ → Option (List CopyRow)
unfolding read_tuples from_be_bytes slice
read_copy bytes = read_tuples (length bytes) (drop 19 bytes)
