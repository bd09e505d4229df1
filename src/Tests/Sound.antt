-- ===== src/Tests/Sound.antt =====
-- The database in the middle of the story of Histories: an object and an upload with one part.
use lakewing.Store.Tables.{mem_id}
use lakewing.Prelude.{ℕ, ◌≡◌, ◌⊎◌, refl, true, false, List, [], ◌∷◌, arith, take}
use lakewing.Layout.{row_bytes}
use lakewing.Cache.Meta.{segments, segments_of}
use lakewing.Read.Span.{Stop, stop, stream_span}
use lakewing.Read.Missing.{is_reported, stream_span_missing}
use lakewing.Store.Objects.{hex, delete, if_absent}
use lakewing.Store.Uploads.{abort_upload, complete_upload}
use lakewing.Store.Integrity.{AfterCommit}
use lakewing.Store.Outcomes.{
  IsPublished, IsUnchanged, complete_upload-cases, IsPut, IsRefused, ingest_writer-cases,
}
use lakewing.Store.Sound.{IsSound}
use lakewing.Store.Removed.{IsDeleted, delete-IsDeleted, IsAborted, abort_upload-IsAborted}
use lakewing.Store.Sound.Completes.{complete_upload-IsSound}
use lakewing.Store.Calls.{Call, body_of, AllNew}
use lakewing.Store.Kept.{AllReadable}
use lakewing.Store.Reached.{calls-IsSound_empty}
use lakewing.Tests.Copy.{identity_digest, read_copy}
use lakewing.Tests.Puts.{lake, body, always}
use lakewing.Tests.Gets.{old_meta}
use lakewing.Tests.Histories.{
  story, first_key, second_key, upload, after, reads_1, reads_2, reads_3,
}

abbrev five : List Call
five = take 5 story

five_new : AllNew [] five
unfolding mem_id
five_new = (refl, (refl, (refl, tt)))

five_reads : AllReadable identity_digest read_copy five
unfolding row_bytes
five_reads =
    (tt, ((omega arith, reads_1), (tt, ((omega arith, reads_2), ((omega arith, reads_3), tt)))))

abbrev files : ℕ → List ℕ
files = body_of five

abbrev ids : List ℕ
ids = 3 ∷ 2 ∷ 1 ∷ []

five_IsSound : IsSound files ids (after 5)
five_IsSound = calls-IsSound_empty identity_digest read_copy five five_new five_reads

delete-IsDeleted_example :
    IsDeleted files ids lake first_key (after 5) (delete lake first_key (after 5))
delete-IsDeleted_example = delete-IsDeleted files ids lake first_key (after 5) five_IsSound

abort_upload-IsAborted_example :
    IsAborted files ids upload lake second_key
      (after 5)
      (abort_upload upload lake second_key (after 5))
abort_upload-IsAborted_example =
    abort_upload-IsAborted files ids upload lake second_key (after 5) five_IsSound

abbrev listed : List (ℕ × List ℕ)
listed = (1, hex (70 ∷ [])) ∷ []

complete_upload-IsSound_example :
    AfterCommit
      (IsSound files ids)
      (complete_upload identity_digest upload lake second_key listed 9 (after 5))
complete_upload-IsSound_example =
    complete_upload-IsSound files identity_digest upload lake second_key listed 9 ids (after 5)
      five_IsSound

complete_upload-cases_example :
    IsPublished identity_digest upload lake second_key listed 9 (after 5)
    ⊎ IsUnchanged identity_digest upload lake second_key listed 9 (after 5)
complete_upload-cases_example =
    complete_upload-cases identity_digest upload lake second_key listed 9 (after 5)

ingest_writer-cases_example :
    IsPut identity_digest read_copy 1 lake first_key if_absent 5 body false (after 1)
    ⊎ IsRefused identity_digest read_copy 1 lake first_key if_absent 5 body false (after 1)
unfolding row_bytes
ingest_writer-cases_example =
    ingest_writer-cases identity_digest read_copy 1 lake first_key if_absent 5 body (after 1)
      (omega arith) reads_1 false

stream_span_missing_example :
    (r : Stop) × (stream_span 1 2 always (λ q. []) (old_meta 4) ≡ stop r [])
    × (is_reported r ≡ true)
unfolding segments segments_of
stream_span_missing_example =
    stream_span_missing 1 2 always (λ q. []) (old_meta 4) (omega arith) ((λ q e. refl), tt)
