-- ===== src/Store/Histories.antt =====
-- Histories of calls of crates/pgvs3/src/db.rs that start from the empty layout: what a client sees
-- at their end, and what a GET then serves.
use mathlib.Core.List.{Permᴰ}
use lakewing.Cache.Fifo.{MetaCache, meta_get}
use lakewing.Store.Stored.{IsStored}
use lakewing.Prelude.{
  ℕ, ◌+◌, ◌*◌, ◌^◌, ◌≤◌, ◌<◌, ◌≡◌, ◌∙◌, refl, ap, subst, Option, none, some, Bool, true, List, map,
  length, slice, inr, [],
}
use lakewing.Prelude.Text.{Text}
use lakewing.Prelude.Int.{pos}
use lakewing.Layout.{row_bytes}
use lakewing.Cache.Meta.{Meta}
use lakewing.Ingest.{Digest}
use lakewing.Ingest.Format.{CopyRow}
use lakewing.Read.Plan.{Piece}
use lakewing.Read.Span.{Row}
use lakewing.Read.Request.{RangeParams, eff_range}
use lakewing.Store.Tables.{Db, find_object, select_rows}
use lakewing.Store.Cached.{PieceBody, found, slice_meta, get_body, meta_of, body_bytes, meta_fresh}
use lakewing.Store.Retries.{get_body-IsStored}
use lakewing.Store.Sound.{IsSound, bytes_of, find_object-IsStored}
use lakewing.Store.Calls.{Call, calls, body_of, empty_db, AllNew}
use lakewing.Store.Kept.{AllReadable, used_by_all}
use lakewing.Store.Reached.{calls-IsSound_empty, AllGiven-body_of, empty_db-IsSound}
use lakewing.Store.Views.{view, View, body_at}
use lakewing.Store.Effects.{effects, view-calls}

abbrev pub nothing : View
nothing b k = none

-- What a client sees at the end of a history that starts from the empty layout is the effects of its
-- calls, one after the other, if no file id is given twice, every body has at most 2^31 rows and
-- PostgreSQL reads the COPY stream of these rows as these rows.
pub view-calls_empty :
    (d : Digest) (copy_in : List ℕ → Option (List CopyRow)) (cs : List Call)
    → AllNew [] cs
    → AllReadable d copy_in cs
    → view (body_of cs) (calls d copy_in cs empty_db)
      ≡ effects (body_of cs) d copy_in cs empty_db nothing
unfolding find_object
view-calls_empty d copy_in cs new reads =
    view-calls (body_of cs) d copy_in [] cs empty_db reads
      (AllGiven-body_of d copy_in (body_of cs) [] cs new (λ n above. refl)) new
      (empty_db-IsSound d copy_in (body_of cs))

body_at-find :
    (files : ℕ → List ℕ) (found_meta : Option Meta) (obj : List ℕ)
    → body_at files found_meta ≡ some obj
    → (m : Meta) × (found_meta ≡ some m) × (bytes_of files m ≡ obj)
body_at-find files none obj h = cc
body_at-find files (some m) obj h = (m, refl, cc)

module _ (d : Digest) (copy_in : List ℕ → Option (List CopyRow)) (cs : List Call)
    (new : AllNew [] cs) (reads : AllReadable d copy_in cs) (bucket key : Text) (obj : List ℕ) where
  abbrev history : Db
  history = calls d copy_in cs empty_db

  abbrev bodies : ℕ → List ℕ
  bodies = body_of cs

  -- An object that a client sees is in the database, and stored.
  seen-IsStored :
      effects bodies d copy_in cs empty_db nothing bucket key ≡ some obj
      → (m : Meta) × (find_object bucket key history.objects ≡ some m)
        × IsStored history.chunks m obj
        × (m.size ≡ length obj)
  seen-IsStored seen =
      let s : IsSound bodies (used_by_all d copy_in cs []) history =
        calls-IsSound_empty d copy_in cs new reads in
      let (m, there, same) =
        body_at-find bodies (find_object bucket key history.objects) obj
          (ap (λ (v : View). v bucket key) (view-calls_empty d copy_in cs new reads) ∙ seen) in
      let stored : IsStored history.chunks m obj =
        subst (IsStored history.chunks m) same (
          find_object-IsStored bodies (used_by_all d copy_in cs []) bucket key history m s there) in
      (m, there, stored, stored.size_ok)

  module _ (accepts : ℕ → Bool) (p : RangeParams) (rows : ℕ → Piece → List Row) (c : MetaCache)
      (start end : ℕ) where
    -- After any history of calls, a GET that is not answered from the cache serves exactly the bytes
    -- that the effects of the calls leave at its key: if no file id is given twice, every body of the
    -- history has at most 2^31 rows and PostgreSQL reads its COPY stream as its rows, the object has
    -- at most 2^31 rows, the range lies in it and the client takes every message, in whatever order
    -- the rows come back.
    pub get_body-calls :
        effects bodies d copy_in cs empty_db nothing bucket key ≡ some obj
        → meta_get (record { bucket = bucket; key = key }) c ≡ none
        → length obj ≤ 2 ^ 31 * row_bytes
        → eff_range (length obj) p ≡ (pos start, pos end)
        → start ≤ end
        → end < length obj
        → ((n : ℕ) → accepts n ≡ true)
        → ((q : Piece) → Permᴰ (rows 0 q) (select_rows q history.chunks))
        → (m : Meta) × (b : PieceBody) × ((get_body accepts bucket key p
              (λ n. history)
              (λ n q. map some (rows n q))
              c).0
            ≡ found (slice_meta m (eff_range m.size p)) b)
          × (body_bytes b ≡ inr (slice obj start (end + 1)))
    unfolding meta_of meta_fresh
    get_body-calls seen cold small range ordered inside all any_order =
        let (m, there, stored, size) = seen-IsStored seen in
        let known : (meta_of bucket key history c).0 ≡ some m =
          rw (cold, meta_of, there, meta_fresh) refl in
        let (b, served, whole) =
          get_body-IsStored accepts bucket key p (λ n. history) rows c m obj start end known stored
            small (ap (λ n. eff_range n p) size ∙ range) ordered inside all any_order in
        (m, b, served, whole)
