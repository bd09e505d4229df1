-- ===== src/Store/Earlier.antt =====
-- A GET whose metadata was read earlier in a history of calls of crates/pgvs3/src/db.rs, and cached
-- since.
use mathlib.Core.List.{Permᴰ}
use lakewing.Prelude.{
  ℕ, ◌+◌, ◌*◌, ◌^◌, ◌≤◌, ◌<◌, ◌≡◌, ◌⊎◌, refl, Option, some, Bool, true, List, [], ◌∷◌, ◌++◌, map,
  length, slice, concat,
}
use lakewing.Prelude.Text.{Text}
use lakewing.Layout.{row_bytes}
use lakewing.Cache.Meta.{Meta}
use lakewing.Ingest.{Digest}
use lakewing.Ingest.Format.{CopyRow}
use lakewing.Read.Plan.{Piece}
use lakewing.Read.Span.{Row, Stop, next, stop, stream_span}
use lakewing.Store.Tables.{find_object, select_rows}
use lakewing.Store.Sound.{IsLaid, IsSound, bytes_of, find_object-IsLaid}
use lakewing.Store.Outdated.{stream_span-IsLaid}
use lakewing.Store.Calls.{
  Call, creates_bucket, deletes_bucket, writes, deletes, creates_upload, completes, aborts, calls,
  body_of, AllNew, empty_db,
}
use lakewing.Store.Kept.{AllReadable, AllGiven, calls-IsSound, used_by_all}
use lakewing.Store.Reached.{calls-IsSound_empty, AllGiven-body_of, empty_db-IsSound}

AllNew-append : (used : List ℕ) (cs later : List Call) → AllNew used (cs ++ later) → AllNew used cs
AllNew-append used [] later new = tt
AllNew-append used (creates_bucket name now ∷ cs) later new = AllNew-append used cs later new
AllNew-append used (deletes_bucket name ∷ cs) later new = AllNew-append used cs later new
AllNew-append used (writes file_id target now chunks failed ∷ cs) later new =
    (new.0, AllNew-append (file_id ∷ used) cs later new.1)
AllNew-append used (deletes bucket key ∷ cs) later new = AllNew-append used cs later new
AllNew-append used (creates_upload uuid bucket key now ∷ cs) later new =
    AllNew-append used cs later new
AllNew-append used (completes upload_id bucket key listed now ∷ cs) later new =
    AllNew-append used cs later new
AllNew-append used (aborts upload_id bucket key ∷ cs) later new = AllNew-append used cs later new

module _ (d : Digest) (copy_in : List ℕ → Option (List CopyRow)) where
  AllReadable-append :
      (cs later : List Call) → AllReadable d copy_in (cs ++ later) → AllReadable d copy_in cs
  AllReadable-append [] later reads = tt
  AllReadable-append (c ∷ cs) later reads = (reads.0, AllReadable-append cs later reads.1)

  AllGiven-append :
      (files : ℕ → List ℕ) (cs later : List Call)
      → AllGiven d copy_in files (cs ++ later)
      → AllGiven d copy_in files cs
  AllGiven-append files [] later given = tt
  AllGiven-append files (c ∷ cs) later given = (given.0, AllGiven-append files cs later given.1)

  module _ (cs later : List Call) (new : AllNew [] (cs ++ later))
      (reads : AllReadable d copy_in (cs ++ later)) (bucket key : Text) (m : Meta) (start end : ℕ)
      (accepts : ℕ → Bool) (rows : Piece → List Row) where
    abbrev bodies : ℕ → List ℕ
    bodies = body_of (cs ++ later)

    earlier-IsLaid :
        find_object bucket key (calls d copy_in cs empty_db).objects ≡ some m → IsLaid bodies m
    earlier-IsLaid there =
        let s : IsSound bodies (used_by_all d copy_in cs []) (calls d copy_in cs empty_db) =
          calls-IsSound d copy_in bodies [] cs empty_db (AllReadable-append cs later reads)
            (AllGiven-append bodies cs later
              (AllGiven-body_of d copy_in bodies [] (cs ++ later) new (λ n above. refl)))
            (AllNew-append [] cs later new) (empty_db-IsSound d copy_in bodies) in
        find_object-IsLaid bodies bucket key m (calls d copy_in cs empty_db).objects s.laid there

    -- A span of an object that was found at some point of a history, read at a later point, sends
    -- exactly the bytes of that object or stops with an error, whatever happened to its key in
    -- between: if no file id is given twice, every body of the history has at most 2^31 rows and
    -- PostgreSQL reads its COPY stream as its rows, the object has at most 2^31 rows, the range lies
    -- in it and the client takes every message, in whatever order the rows come back.
    pub stream_span-earlier :
        find_object bucket key (calls d copy_in cs empty_db).objects ≡ some m
        → ((p : Piece)
            → Permᴰ (rows p) (select_rows p (calls d copy_in (cs ++ later) empty_db).chunks))
        → length (bytes_of bodies m) ≤ 2 ^ 31 * row_bytes
        → start ≤ end
        → end < length (bytes_of bodies m)
        → ((n : ℕ) → accepts n ≡ true)
        → ((out : List (List ℕ)) × (stream_span start end accepts (λ p. map some (rows p)) m
              ≡ next out)
            × (concat out ≡ slice (bytes_of bodies m) start (end + 1)))
          ⊎ ((r : Stop) × (out : List (List ℕ)) × (stream_span start end accepts
                  (λ p. map some (rows p))
                  m
                ≡ stop r out))
    stream_span-earlier there any_order small ordered inside all =
        stream_span-IsLaid bodies (used_by_all d copy_in (cs ++ later) [])
          (calls d copy_in (cs ++ later) empty_db) m start end accepts rows
          (calls-IsSound_empty d copy_in (cs ++ later) new reads) any_order small ordered
          (earlier-IsLaid there) inside all
