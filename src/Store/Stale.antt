-- ===== src/Store/Stale.antt =====
-- A GET with cached metadata whose files are gone, at a sound database: `get_body` of
-- crates/pgvs3/src/db.rs.
use mathlib.Core.List.{Permᴰ}
use mathlib.Core.List.{length-eq-zero_iff}
use mathlib.Core.List.Permᴰ
use lakewing.Prelude.{
  ℕ, ◌+◌, ◌*◌, ◌^◌, ◌≤◌, ◌<◌, ◌≡◌, ◌∙◌, refl, ap, subst, Option, some, Bool, true, false, List, [],
  ◌∷◌, map, length, slice, inl, inr, Bool-cases, arith, ◌==◌, if◌then◌else◌, ltb,
}
use lakewing.Prelude.Text.{Text}
use lakewing.Prelude.Int.{pos}
use lakewing.Layout.{row_bytes}
use lakewing.Cache.Meta.{Meta, Segment, segments}
use lakewing.Cache.Fifo.{MetaCache, meta_get}
use lakewing.Ingest.Format.{file_rows}
use lakewing.Read.Plan.{Piece}
use lakewing.Read.Span.{
  Row, Stop, client_gone, query_failed, row_missing, short_read, out_of_fuel, stop,
}
use lakewing.Read.Missing.{SegmentsMissing, is_reported, stream_span_missing}
use lakewing.Read.Request.{RangeParams, eff_range, slice_len, unsatisfiable}
use lakewing.Store.Tables.{Db, find_object, select_rows}
use lakewing.Store.Owners.{owners}
use lakewing.Store.Cached.{
  PieceBody, error, again, found, slice_meta, get_body, serve_meta, on_head, span_items, body_bytes,
}
use lakewing.Store.Gets.{slice_len_pos}
use lakewing.Store.Retries.{get_body_retry}
use lakewing.Store.Sound.{IsSound, bytes_of, find_object-IsStored}

-- No object and no part owns the files of these segments.
abbrev pub AllUnowned : Db → List Segment → Type 0
AllUnowned db [] = Unit
AllUnowned db (g ∷ gs) = (owners db g.file_id ≡ 0) × AllUnowned db gs

pub perm_empty : (rows : List Row) → Permᴰ rows [] → rows ≡ []
perm_empty rows h = length-eq-zero_iff.0 (Permᴰ.length-eq h)

unowned_missing :
    (files : ℕ → List ℕ) (used : List ℕ) (db : Db) (rows : Piece → List Row) (gs : List Segment)
    → IsSound files used db
    → ((q : Piece) → Permᴰ (rows q) (select_rows q db.chunks))
    → AllUnowned db gs
    → SegmentsMissing (λ q. map some (rows q)) gs
unowned_missing files used db rows [] s any_order gone = tt
unowned_missing files used db rows (g ∷ gs) s any_order gone = (
  λ q e.
      let none_there : select_rows q db.chunks ≡ [] =
        s.held q
        ∙ ap
            (λ (n : ℕ).
              if ltb 0 n then select_rows q (file_rows q.file_id (files q.file_id)) else [])
            (ap (owners db) e ∙ gone.0) in
      ap (map some) (perm_empty (rows q) (subst (Permᴰ (rows q)) none_there (any_order q))),
  unowned_missing files used db rows gs s any_order gone.1,
)

span_items_stop :
    (r : Stop) → is_reported r ≡ true → (e : Stop) × (span_items (stop r []) ≡ error e ∷ [])
unfolding span_items
span_items_stop client_gone h = cc
span_items_stop query_failed h = (query_failed, refl)
span_items_stop (row_missing n) h = (row_missing n, refl)
span_items_stop (short_read n) h = (short_read n, refl)
span_items_stop out_of_fuel h = (out_of_fuel, refl)

-- Metadata whose rows are gone is noticed before the response starts.
serve_meta_missing :
    (accepts : ℕ → Bool) (p : RangeParams) (fetch : Piece → List (Option Row)) (m : Meta)
    (start end : ℕ)
    → eff_range m.size p ≡ (pos start, pos end)
    → start ≤ end
    → SegmentsMissing fetch (segments m)
    → serve_meta accepts false p fetch m ≡ again
unfolding serve_meta on_head
serve_meta_missing accepts p fetch m start end range ordered missing =
    let (r, stopped, reported) = stream_span_missing start end accepts fetch m ordered missing in
    let (e, items) = span_items_stop r reported in
    let some_len : (slice_len (pos start) (pos end) == 0) ≡ false =
      ground (arith, slice_len_pos start end ordered) in
    elim (Bool-cases (unsatisfiable m.size (pos start, pos end))) [
      | inl unfit ↦ rw (range, serve_meta, unfit) refl
      | inr fit ↦ rw (range, serve_meta, fit, some_len) (rw (stopped, items) refl)
    ]

module _ (files : ℕ → List ℕ) (used : List ℕ) (accepts : ℕ → Bool) (bucket key : Text)
    (p : RangeParams) (db : Db) (rows : ℕ → Piece → List Row) (c : MetaCache) (old m : Meta)
    (from to start end : ℕ) where
  -- At a sound database, a GET whose cached metadata names files that are gone answers with exactly
  -- the bytes of the object that the key names now, if both ranges hold a byte, the object has at
  -- most 2^31 rows, its range lies in it and the client takes every message, in whatever order the
  -- rows come back.
  pub get_body_stale :
      IsSound files used db
      → meta_get (record { bucket = bucket; key = key }) c ≡ some old
      → AllUnowned db (segments old)
      → eff_range old.size p ≡ (pos from, pos to)
      → from ≤ to
      → find_object bucket key db.objects ≡ some m
      → length (bytes_of files m) ≤ 2 ^ 31 * row_bytes
      → eff_range m.size p ≡ (pos start, pos end)
      → start ≤ end
      → end < length (bytes_of files m)
      → ((n : ℕ) → accepts n ≡ true)
      → ((n : ℕ) (q : Piece) → Permᴰ (rows n q) (select_rows q db.chunks))
      → (b : PieceBody) × ((get_body accepts bucket key p
            (λ n. db)
            (λ n q. map some (rows n q))
            c).0
          ≡ found (slice_meta m (eff_range m.size p)) b)
        × (body_bytes b ≡ inr (slice (bytes_of files m) start (end + 1)))
  get_body_stale s hit gone old_range old_ordered there small range ordered inside all any_order =
      get_body_retry accepts bucket key p (λ n. db) rows c m (bytes_of files m) start end old hit
        (serve_meta_missing accepts p (λ q. map some (rows 0 q)) old from to old_range old_ordered
          (unowned_missing files used db (rows 0) (segments old) s (any_order 0) gone))
        there (find_object-IsStored files used bucket key db m s there) small range ordered inside
        all (any_order 1)
