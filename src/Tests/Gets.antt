-- ===== src/Tests/Gets.antt =====
-- GETs of the object that Puts stores, with a cache that is empty, stale, or stale and empty.
use mathlib.Core.List.Permᴰ
use lakewing.Prelude.{
  ℕ, zero, suc, ◌≡◌, refl, some, none, List, [], ◌∷◌, map, arith, concat, slice, length, inr, ◌+◌,
  ◌-◌,
}
use lakewing.Prelude.Text.{text_eq}
use lakewing.Layout.{row_bytes, part_rows, small_max, parts_inflight, chunk_bytes}
use lakewing.Cache.Meta.{Meta, segments, segments_of, segments_from}
use lakewing.Cache.Fifo.{MetaCache, CacheKey, empty_cache, meta_get, find_entry, key_eq}
use lakewing.Ingest.Format.{file_rows}
use lakewing.Read.Plan.{
  Piece, plan, plan_segments, plan_segment, part_ranges, part_ranges_from, row_slice, outside,
  piece,
}
use lakewing.Read.Span.{
  Row, stream_span, span_loop, fill, drain_part, receive, on_row, flush, take_early, put_next,
  put_row, early_insert, early_remove, finish_span,
}
use lakewing.Read.Request.{int, RangeParams, range_params, eff_range, slice_len, unsatisfiable}
use lakewing.Read.Satisfiable.{served, as_offsets, requested, eff_range-range_params}
use lakewing.Read.Length.{stream_span-length}
use lakewing.Store.Tables.{find_object, upsert_object}
use lakewing.Store.Objects.{if_absent, written_meta, reap_old}
use lakewing.Store.Files.{has_file, HoldsFile-append}
use lakewing.Store.Stored.{IsStored}
use lakewing.Store.Published.{put_write, put_laid, after_put}
use lakewing.Store.Cached.{
  PieceBody, one_shot, found, slice_meta, meta_of, meta_fresh, serve_meta, on_head, span_items,
  get_body, body_bytes,
}
use lakewing.Store.Retries.{get_body-IsStored, get_body_retry, get_body_stale_empty}
use lakewing.Tests.Copy.{identity_digest}
use lakewing.Tests.Puts.{lake, body, always, put_db, put_rows, two_parts, part_row}

abbrev pub put_meta : Meta
put_meta = written_meta (put_write identity_digest 7 if_absent (concat body)) 5

put_db-IsStored : IsStored put_db.chunks put_meta (concat body)
unfolding after_put find_object has_file reap_old file_rows
put_db-IsStored =
    put_laid identity_digest 7 if_absent 5 (concat body) put_db.chunks
      (HoldsFile-append [] 7 (concat body) refl)

abbrev pub middle : RangeParams
middle = range_params (some (int 1 (some 2)))

abbrev pub a_key : CacheKey
a_key = record { bucket = lake; key = 97 ∷ [] }

-- What the cache holds of an object that another process has replaced.
abbrev pub old_meta : ℕ → Meta
old_meta size = record {
  size = size;
  etag = [];
  created_at = 0;
  file_id = 3;
  parts = none;
  part_ends = none;
}

abbrev pub old_cache : ℕ → MetaCache
old_cache size = record {
  entries = record { key = a_key; meta = old_meta size } ∷ [];
  order = a_key ∷ [];
}

-- The first attempt finds no row of the old file.
abbrev late_rows : ℕ → Piece → List Row
late_rows zero q = []
late_rows (suc n) q = put_rows q

eff_range-range_params_example :
    served 4 (some (int 1 (some 9))) ≡ as_offsets (requested 4 (some (int 1 (some 9))))
eff_range-range_params_example =
    eff_range-range_params 4 (some (int 1 (some 9))) (omega arith) (omega arith, omega arith)

stream_span-length_example : length {A = ℕ} (concat ((20 ∷ 30 ∷ []) ∷ [])) ≡ 2 + 1 - 1
unfolding stream_span span_loop fill drain_part receive on_row flush take_early put_next put_row
    early_insert early_remove finish_span row_bytes segments segments_of segments_from plan
    plan_segments plan_segment part_ranges part_ranges_from part_rows small_max row_slice outside
    piece parts_inflight chunk_bytes slice
stream_span-length_example =
    stream_span-length 1 2 always (λ p. map some (part_row p)) two_parts ((20 ∷ 30 ∷ []) ∷ [])
      (λ n. refl) refl

get_body-IsStored_example :
    (b : PieceBody) × ((get_body always lake
        (97 ∷ [])
        middle
        (λ n. put_db)
        (λ n q. map some (put_rows q))
        empty_cache).0
      ≡ found (slice_meta put_meta (eff_range put_meta.size middle)) b)
    × (body_bytes b ≡ inr (slice (concat body) 1 3))
unfolding meta_of meta_get find_entry meta_fresh find_object upsert_object after_put text_eq
    written_meta range_params eff_range row_bytes reap_old
get_body-IsStored_example =
    get_body-IsStored always lake (97 ∷ []) middle (λ n. put_db) (λ n. put_rows) empty_cache
      put_meta (concat body) 1 2 refl put_db-IsStored (omega arith) refl (omega arith) (omega arith)
      (λ n. refl) (λ q. Permᴰ.refl (put_rows q))

get_body_retry_example :
    (b : PieceBody) × ((get_body always lake
        (97 ∷ [])
        middle
        (λ n. put_db)
        (λ n q. map some (late_rows n q))
        (old_cache 4)).0
      ≡ found (slice_meta put_meta (eff_range put_meta.size middle)) b)
    × (body_bytes b ≡ inr (slice (concat body) 1 3))
unfolding meta_get find_entry key_eq find_object upsert_object after_put text_eq written_meta
    range_params eff_range row_bytes serve_meta unsatisfiable slice_len on_head span_items
    stream_span span_loop fill drain_part receive segments segments_of segments_from plan
    plan_segments plan_segment part_ranges part_ranges_from part_rows small_max outside piece
    parts_inflight reap_old
get_body_retry_example =
    get_body_retry always lake (97 ∷ []) middle (λ n. put_db) late_rows (old_cache 4) put_meta
      (concat body) 1 2 (old_meta 4) refl refl refl put_db-IsStored (omega arith) refl (omega arith)
      (omega arith) (λ n. refl) (λ q. Permᴰ.refl (put_rows q))

get_body_stale_empty_example :
    (get_body always lake
      (97 ∷ [])
      middle
      (λ n. put_db)
      (λ n q. map some (put_rows q))
      (old_cache 0)).0
    ≡ found (slice_meta (old_meta 0) (eff_range 0 middle)) (one_shot [])
unfolding meta_get find_entry key_eq text_eq
get_body_stale_empty_example =
    get_body_stale_empty always lake (97 ∷ []) middle (λ n. put_db) (λ n q. map some (put_rows q))
      (old_cache 0) (old_meta 0) refl refl
