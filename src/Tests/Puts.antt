-- ===== src/Tests/Puts.antt =====
-- A bucket, a small object and a GET of two of its bytes.
use mathlib.Core.List.Permᴰ
use lakewing.Prelude.{
  ℕ, ◌≡◌, refl, some, Bool, true, List, [], ◌∷◌, map, arith, concat, slice, ◌++◌, ◌==◌,
  if◌then◌else◌,
}
use lakewing.Prelude.Text.{text_eq}
use lakewing.Layout.{row_bytes, row_of, part_rows, small_max}
use lakewing.Cache.Meta.{Meta, segments, segments_of, segments_from}
use lakewing.Ingest.{to_be_bytes, div_ceil, copy_header, new_framer, push_all, finish}
use lakewing.Ingest.Format.{copy_tuple, copy_stream, row_count, file_rows}
use lakewing.Ingest.Whole.{ingest_stream}
use lakewing.Read.Plan.{Piece, plan, plan_segments, plan_segment, part_ranges, part_ranges_from}
use lakewing.Read.Stream.{stream_span_complete}
use lakewing.Read.Span.{Row, next, stream_span}
use lakewing.Store.Tables.{Db, has_bucket, find_object, select_rows}
use lakewing.Store.Objects.{commit, rollback, precondition_failed, if_absent, allowed}
use lakewing.Store.Write.{chunk, object, ingest_writer}
use lakewing.Store.Files.{has_file}
use lakewing.Store.Published.{after_put, ingest_writer-object}
use lakewing.Store.PutGet.{stream_span-ingest_writer}
use lakewing.Tests.Copy.{identity_digest, read_copy}

abbrev pub lake : List ℕ
lake = 108 ∷ 97 ∷ 107 ∷ 101 ∷ []

abbrev pub one_bucket : Db
one_bucket = record {
  buckets = record { name = lake; created_at = 0 } ∷ [];
  objects = [];
  chunks = [];
  uploads = [];
  upload_parts = [];
  next_file = 7;
}

abbrev pub body : List (List ℕ)
body = (10 ∷ 20 ∷ []) ∷ [] ∷ (30 ∷ 40 ∷ []) ∷ []

abbrev pub always : ℕ → Bool
always n = true

abbrev pub put_db : Db
put_db = after_put identity_digest lake (97 ∷ []) if_absent 7 5 (concat body) one_bucket

abbrev pub put_rows : Piece → List Row
put_rows p = select_rows p put_db.chunks

stream_span-ingest_writer_example :
    (db' : Db) × (m : Meta) × (out : List (List ℕ)) × (ingest_writer identity_digest read_copy 7
        (object lake (97 ∷ []) if_absent)
        5
        (map chunk body)
        one_bucket
      ≡ commit (4, 10 ∷ 20 ∷ 30 ∷ 40 ∷ []) db')
    × (find_object lake (97 ∷ []) db'.objects ≡ some m)
    × (stream_span 1 2 always (λ p. map some (put_rows p)) m ≡ next out)
    × (concat out ≡ slice (concat body) 1 3)
unfolding row_bytes row_of slice to_be_bytes div_ceil copy_tuple row_count file_rows has_bucket
    find_object allowed has_file read_copy text_eq
stream_span-ingest_writer_example =
    stream_span-ingest_writer identity_digest read_copy 7 lake (97 ∷ []) if_absent 5 body one_bucket
      1 2 always put_rows (omega arith) refl refl refl refl (λ m h. cc) (omega arith) (omega arith)
      (λ n. refl) (λ p. Permᴰ.refl (put_rows p))

ingest_stream_example :
    (copy_header
        ++ ((push_all identity_digest (new_framer identity_digest 7) body).0
            ++ (finish identity_digest
                (push_all identity_digest (new_framer identity_digest 7) body).1).0)
      ≡ copy_stream (file_rows 7 (concat body)))
    × ((finish identity_digest (push_all identity_digest (new_framer identity_digest 7) body).1).1
        ≡ (4, 10 ∷ 20 ∷ 30 ∷ 40 ∷ []))
unfolding row_bytes
ingest_stream_example = ingest_stream identity_digest 7 body (omega arith)

ingest_writer-object_example :
    ingest_writer identity_digest read_copy 7
      (object lake (97 ∷ []) if_absent)
      5
      (map chunk body)
      one_bucket
    ≡ (if allowed if_absent (find_object lake (97 ∷ []) one_bucket.objects)
        then commit (4, 10 ∷ 20 ∷ 30 ∷ 40 ∷ []) put_db
        else rollback precondition_failed)
unfolding row_bytes row_of slice to_be_bytes div_ceil copy_tuple row_count file_rows has_bucket
    read_copy text_eq
ingest_writer-object_example =
    ingest_writer-object identity_digest read_copy 7 lake (97 ∷ []) if_absent 5 body one_bucket
      (omega arith) refl refl

-- Two parts of two bytes, the second of them asked for from its last row.
abbrev pub two_parts : Meta
two_parts = record {
  size = 4;
  etag = [];
  created_at = 0;
  file_id = 3;
  parts = some (3 ∷ 4 ∷ []);
  part_ends = some (2 ∷ 4 ∷ []);
}

abbrev pub part_files : ℕ → List ℕ
part_files n = if n == 3 then 10 ∷ 20 ∷ [] else 30 ∷ 40 ∷ []

abbrev pub part_row : Piece → List Row
part_row p = record { row_no = 0; bytes = part_files p.file_id } ∷ []

stream_span_complete_example :
    (out : List (List ℕ)) × (stream_span 1 2 always (λ p. map some (part_row p)) two_parts
      ≡ next out)
    × (concat out ≡ slice (concat body) 1 3)
unfolding row_bytes row_of slice segments segments_of segments_from plan plan_segments plan_segment
    part_ranges part_ranges_from part_rows small_max
stream_span_complete_example =
    stream_span_complete (concat body) part_files two_parts 1 2 always part_row (omega arith)
      (omega arith) (omega arith) (refl, (omega arith), refl, (refl, (omega arith), refl, refl))
      (λ n. refl)
      (
        record {
          rows_ok = (record { bytes_ok = refl; from_lo = omega arith; upto_hi = omega arith }, tt);
          complete = λ k a b. ground arith;
        },
        (
          record {
            rows_ok =
                (record { bytes_ok = refl; from_lo = omega arith; upto_hi = omega arith }, tt);
            complete = λ k a b. ground arith;
          },
          tt,
        ),
      )
