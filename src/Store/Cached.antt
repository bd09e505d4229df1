-- ===== src/Store/Cached.antt =====
-- `meta`, `meta_fresh`, `get_body`, `get` and `publish_cache` of crates/pgvs3/src/db.rs: the reads
-- that go through the metadata cache of a process. Other processes may write between two
-- attempts, so each attempt has its own database: `dbs n` is what attempt `n` reads.
use lakewing.Prelude.{
  ℕ, ◌⊎◌, inl, inr, Option, none, some, Bool, true, false, ◌&&◌, List, [], ◌∷◌, ◌++◌, map, length,
  ◌==◌, if◌then◌else◌,
}
use lakewing.Prelude.Int.{ℤ, pos_part}
use lakewing.Prelude.Text.{Text}
use lakewing.Cache.Meta.{Meta}
use lakewing.Cache.Fifo.{MetaCache, meta_get, meta_put, meta_invalidate}
use lakewing.Read.Plan.{Piece}
use lakewing.Read.Span.{Row, Stop, client_gone, Flow, next, stop, stream_span}
use lakewing.Read.Request.{RangeParams, eff_range, SliceMeta, slice_len, unsatisfiable}
use lakewing.Store.Tables.{Db, find_object}
use lakewing.Store.Objects.{ObjectWrite, written_meta, delete}

-- `publish_cache`, and the `meta_put` at the end of `ingest_writer`.
unfoldable pub publish_cache : Text → Text → ObjectWrite → ℕ → MetaCache → MetaCache
publish_cache bucket key w now c =
    meta_put (record { bucket = bucket; key = key }) (written_meta w now) c

-- `delete`, with the cache that it invalidates.
unfoldable pub delete_cached : Text → Text → Db → MetaCache → Bool × Db × MetaCache
delete_cached bucket key db c =
    let (found, db') = delete bucket key db in
    (found, db', meta_invalidate (record { bucket = bucket; key = key }) c)

unfoldable pub meta_fresh : Text → Text → Db → MetaCache → Option Meta × MetaCache
meta_fresh bucket key db c = elim (find_object bucket key db.objects) [
  | none ↦ (none, meta_invalidate (record { bucket = bucket; key = key }) c)
  | some m ↦ (some m, meta_put (record { bucket = bucket; key = key }) m c)
]

-- `meta`
unfoldable pub meta_of : Text → Text → Db → MetaCache → Option Meta × MetaCache
meta_of bucket key db c = elim (meta_get (record { bucket = bucket; key = key }) c) [
  | some m ↦ (some m, c)
  | none ↦ meta_fresh bucket key db c
]

-- What the response's channel receives: `Result<Bytes, io::Error>`.
pub data Item : Type 0 where
  bytes : List ℕ → Item
  error : Stop → Item

abbrev error_item : Stop → List Item
error_item client_gone = []
error_item r = error r ∷ []

-- The task that `get_body` spawns. An error is sent after the messages, if there is a client.
unfoldable pub span_items : Flow (List (List ℕ)) → List Item
span_items (next out) = map bytes out
span_items (stop r out) = map bytes out ++ error_item r

-- `PieceBody`; `PieceStream` is its first chunk and the rest of the channel.
pub data PieceBody : Type 0 where
  one_shot : List ℕ → PieceBody
  streamed : List ℕ → List Item → PieceBody

pub data GetResult : Type 0 where
  absent : GetResult
  found : SliceMeta → PieceBody → GetResult
  failed : Stop → GetResult
  ended_early : GetResult

abbrev pub slice_meta : Meta → ℤ × ℤ → SliceMeta
slice_meta m r = record {
  size = m.size;
  etag = m.etag;
  created_at = m.created_at;
  file_id = m.file_id;
  start = r.0;
  end = r.1;
}

-- One iteration of the loop of `get_body`: a result, or another attempt.
pub data Attempt : Type 0 where
  return : GetResult → Attempt
  again : Attempt

-- `rx.recv()` and the `match` on the head. `last` says that this is the second attempt.
unfoldable pub on_head : Bool → SliceMeta → ℕ → List Item → Attempt
on_head last s len [] = return ended_early
on_head last s len (bytes head ∷ rest) =
    if length head == len
    then return (found s (one_shot head))
    else return (found s (streamed head rest))
on_head last s len (error e ∷ rest) = if last then return (failed e) else again

module _ (accepts : ℕ → Bool) where
  -- The body of the loop behind the lookup. `fetch` is what the queries deliver.
  unfoldable pub serve_meta : Bool → RangeParams → (Piece → List (Option Row)) → Meta → Attempt
  serve_meta last p fetch m =
      let r = eff_range m.size p in
      if unsatisfiable m.size r && (if last then false else true)
      then again
      else (let len = slice_len r.0 r.1 in
          if len == 0
          then return (found (slice_meta m r) (one_shot []))
          else on_head last (slice_meta m r) len
              (span_items (stream_span (pos_part r.0) (pos_part r.1) accepts fetch m)))

  module _ (bucket key : Text) (p : RangeParams) (dbs : ℕ → Db)
      (fetch : ℕ → Piece → List (Option Row)) where
    -- One attempt: what it returns, and the cache behind it.
    unfoldable pub attempt : ℕ → Bool → MetaCache → Attempt × MetaCache
    attempt n last c =
        let (found_meta, c') = meta_of bucket key (dbs n) c in
        elim found_meta [
          | none ↦ (return absent, c')
          | some m ↦ elim (serve_meta last p (fetch n) m) [
            | return r ↦ (elim r [
              | failed e ↦
                  (return (failed e), meta_invalidate (record { bucket = bucket; key = key }) c')
              | absent ↦ (return absent, c')
              | found s b ↦ (return (found s b), c')
              | ended_early ↦ (return ended_early, c')
            ])
            | again ↦ (again, meta_invalidate (record { bucket = bucket; key = key }) c')
          ]
        ]

    -- `get_body`. The second attempt always returns; `unreachable` is `ended_early` here.
    unfoldable pub get_body : MetaCache → GetResult × MetaCache
    get_body c =
        let (first, c') = attempt 0 false c in
        elim first [
          | return r ↦ (r, c')
          | again ↦
              let (second, c'') = attempt 1 true c' in
              (elim second [ return r ↦ r | again ↦ ended_early ], c'')
        ]

-- The loop of `get` over a stream: the bytes, or the first error.
unfoldable pub collect : List ℕ → List Item → Stop ⊎ List ℕ
collect out [] = inr out
collect out (error e ∷ items) = inl e
collect out (bytes b ∷ items) = collect (out ++ b) items

-- The body of a response, as `get` buffers it.
unfoldable pub body_bytes : PieceBody → Stop ⊎ List ℕ
body_bytes (one_shot b) = inr b
body_bytes (streamed head rest) = collect [] (bytes head ∷ rest)
