-- ===== src/Tests/Histories.antt =====
-- A history of calls: a bucket, an object, an upload whose part is sent twice, its completion and the
-- deletion of the object.
use mathlib.Core.List.Permᴰ
use lakewing.Store.Earlier.{stream_span-earlier}
use lakewing.Store.Stale.{get_body_stale}
use lakewing.Store.Published.{put_write}
use lakewing.Cache.Meta.{Meta, segments, segments_of}
use lakewing.Store.Buckets.{create_bucket}
use lakewing.Tests.Gets.{middle, old_cache, old_meta}
use lakewing.Read.Request.{range_params, eff_range}
use lakewing.Cache.Fifo.{meta_get, find_entry, empty_cache, key_eq}
use lakewing.Store.Cached.{PieceBody, found, slice_meta, get_body, body_bytes}
use lakewing.Read.Span.{Row, next, stop, Stop, stream_span}
use lakewing.Read.Plan.{Piece}
use lakewing.Store.Outcomes.{committed}
use lakewing.Prelude.{
  ℕ, ◌≡◌, refl, some, false, List, [], ◌∷◌, arith, slice, take, ap, concat, map, length, true, inr,
  drop, ◌⊎◌,
}
use lakewing.Prelude.Text.{Text, text_eq}
use lakewing.Layout.{row_bytes, row_of}
use lakewing.Ingest.{to_be_bytes, div_ceil, push, finish, frame_rows, frame_rows_from, new_framer}
use lakewing.Ingest.Format.{copy_tuple, copy_stream, row_count, file_rows}
use lakewing.Store.Tables.{Db, select_rows, has_bucket, upsert_object, find_object, mem_id}
use lakewing.Store.Objects.{if_absent, hex, swap_object, allowed, reap_old, written_meta}
use lakewing.Store.Write.{
  object, part, body_messages, ingest_writer, target_open, ingest_loop, ingest_finish, publish,
}
use lakewing.Store.Sound.{IsSound, bytes_of}
use lakewing.Store.Calls.{
  Call, creates_bucket, writes, deletes, creates_upload, completes, call, calls, body_of, empty_db,
  AllNew,
}
use lakewing.Store.Kept.{AllReadable}
use lakewing.Store.Reached.{calls-IsSound_empty}
use lakewing.Store.Views.{view}
use lakewing.Store.Effects.{effects}
use lakewing.Store.Histories.{nothing, view-calls_empty, get_body-calls}
use lakewing.Tests.Copy.{identity_digest, read_copy}
use lakewing.Tests.Puts.{lake, body, always}

abbrev pub first_key : Text
first_key = 97 ∷ []

abbrev pub second_key : Text
second_key = 98 ∷ []

abbrev pub upload : Text
upload = 117 ∷ []

abbrev pub story : List Call
story =
    creates_bucket lake 0
    ∷ writes 1 (object lake first_key if_absent) 5 body false
    ∷ creates_upload upload lake second_key 6
    ∷ writes 2 (part upload 1) 7 ((50 ∷ 60 ∷ []) ∷ []) false
    ∷ writes 3 (part upload 1) 8 ((70 ∷ []) ∷ []) false
    ∷ completes upload lake second_key ((1, hex (70 ∷ [])) ∷ []) 9
    ∷ deletes lake first_key
    ∷ []

abbrev pub after : ℕ → Db
after n = calls identity_digest read_copy (take n story) empty_db

pub reads_1 : read_copy (copy_stream (file_rows 1 (concat body))) ≡ some (file_rows 1 (concat body))
unfolding row_bytes row_of slice to_be_bytes div_ceil copy_tuple row_count file_rows read_copy
reads_1 = refl

pub reads_2 :
    read_copy (copy_stream (file_rows 2 (50 ∷ 60 ∷ []))) ≡ some (file_rows 2 (50 ∷ 60 ∷ []))
unfolding row_bytes row_of slice to_be_bytes div_ceil copy_tuple row_count file_rows read_copy
reads_2 = refl

pub reads_3 : read_copy (copy_stream (file_rows 3 (70 ∷ []))) ≡ some (file_rows 3 (70 ∷ []))
unfolding row_bytes row_of slice to_be_bytes div_ceil copy_tuple row_count file_rows read_copy
reads_3 = refl

pub story_new : AllNew [] story
unfolding mem_id
story_new = (refl, (refl, (refl, tt)))

pub story_reads : AllReadable identity_digest read_copy story
unfolding row_bytes
story_reads = (
  tt,
  (
    (omega arith, reads_1),
    (tt, ((omega arith, reads_2), ((omega arith, reads_3), (tt, (tt, tt))))),
  ),
)

calls-IsSound_empty_example :
    IsSound (body_of story) (3 ∷ 2 ∷ 1 ∷ []) (calls identity_digest read_copy story empty_db)
calls-IsSound_empty_example =
    calls-IsSound_empty identity_digest read_copy story story_new story_reads

view-calls_empty_example :
    view (body_of story) (calls identity_digest read_copy story empty_db)
    ≡ effects (body_of story) identity_digest read_copy story empty_db nothing
view-calls_empty_example = view-calls_empty identity_digest read_copy story story_new story_reads

-- The first two calls of the story.
abbrev opening : List Call
opening = take 2 story

opening_new : AllNew [] opening
unfolding mem_id
opening_new = (refl, tt)

opening_reads : AllReadable identity_digest read_copy opening
unfolding row_bytes
opening_reads = (tt, ((omega arith, reads_1), tt))

abbrev files : ℕ → List ℕ
files = body_of opening

opening_committed :
    committed (
      ingest_writer identity_digest read_copy 1
        (object lake first_key if_absent)
        5
        (body_messages body false)
        (after 1))
    ≡ true
unfolding calls call create_bucket has_bucket ingest_writer target_open ingest_loop ingest_finish
    publish swap_object allowed find_object upsert_object body_messages reap_old text_eq new_framer
    push finish frame_rows frame_rows_from row_bytes slice to_be_bytes div_ceil copy_tuple row_count
    file_rows read_copy
opening_committed = refl

opening_seen :
    effects files identity_digest read_copy opening empty_db nothing lake first_key
    ≡ some (concat body)
unfolding text_eq calls
opening_seen = rw opening_committed refl

abbrev opening_db : Db
opening_db = calls identity_digest read_copy opening empty_db

abbrev opening_rows : Piece → List Row
opening_rows q = select_rows q opening_db.chunks

get_body-calls_example :
    (m : Meta) × (b : PieceBody) × ((get_body always lake first_key middle
        (λ n. opening_db)
        (λ n q. map some (opening_rows q))
        empty_cache).0
      ≡ found (slice_meta m (eff_range m.size middle)) b)
    × (body_bytes b ≡ inr (slice (concat body) 1 3))
unfolding meta_get find_entry range_params eff_range row_bytes
get_body-calls_example =
    get_body-calls identity_digest read_copy opening opening_new opening_reads lake first_key
      (concat body) always middle (λ n. opening_rows) empty_cache 1 2 opening_seen refl
      (omega arith) refl (omega arith) (omega arith) (λ n. refl) (λ q. Permᴰ.refl (opening_rows q))

opening_IsSound : IsSound files (1 ∷ []) opening_db
opening_IsSound = calls-IsSound_empty identity_digest read_copy opening opening_new opening_reads

abbrev put_1 : Meta
put_1 = written_meta (put_write identity_digest 1 if_absent (concat body)) 5

opening_found : find_object lake first_key opening_db.objects ≡ some put_1
unfolding calls call create_bucket has_bucket ingest_writer target_open ingest_loop ingest_finish
    publish swap_object allowed find_object upsert_object body_messages reap_old text_eq new_framer
    push finish frame_rows frame_rows_from row_bytes slice written_meta to_be_bytes div_ceil
    copy_tuple row_count file_rows read_copy
opening_found = refl

opening_bytes : bytes_of files put_1 ≡ concat body
unfolding written_meta body_of
opening_bytes = refl

get_body_stale_example :
    (b : PieceBody) × ((get_body always lake first_key middle
        (λ n. opening_db)
        (λ n q. map some (opening_rows q))
        (old_cache 4)).0
      ≡ found (slice_meta put_1 (eff_range put_1.size middle)) b)
    × (body_bytes b ≡ inr (slice (bytes_of files put_1) 1 3))
unfolding mem_id meta_get find_entry key_eq range_params eff_range row_bytes text_eq segments
    segments_of written_meta
get_body_stale_example =
    get_body_stale files (1 ∷ []) always lake first_key middle opening_db (λ n. opening_rows)
      (old_cache 4) (old_meta 4) put_1 1 2 1 2 opening_IsSound refl
      (opening_IsSound.fresh 3 refl, tt) refl (omega arith) opening_found
      (omega (arith, ap length opening_bytes)) refl (omega arith)
      (omega (arith, ap length opening_bytes)) (λ n. refl) (λ n q. Permᴰ.refl (opening_rows q))

-- The object at the end of the opening, read when the story is over and the object deleted.
abbrev ending_rows : Piece → List Row
ending_rows q = select_rows q (calls identity_digest read_copy story empty_db).chunks

put_1_bytes : bytes_of (body_of story) put_1 ≡ concat body
unfolding written_meta body_of
put_1_bytes = refl

stream_span-earlier_example :
    ((out : List (List ℕ)) × (stream_span 1 2 always (λ q. map some (ending_rows q)) put_1
        ≡ next out)
      × (concat out ≡ slice (bytes_of (body_of story) put_1) 1 3))
    ⊎ ((r : Stop) × (out : List (List ℕ)) × (stream_span 1 2 always
            (λ q. map some (ending_rows q))
            put_1
          ≡ stop r out))
unfolding row_bytes
stream_span-earlier_example =
    stream_span-earlier identity_digest read_copy opening (drop 2 story) story_new story_reads lake
      first_key put_1 1 2 always ending_rows opening_found (λ q. Permᴰ.refl (ending_rows q))
      (omega (arith, ap length put_1_bytes)) (omega arith) (omega (arith, ap length put_1_bytes))
      (λ n. refl)
