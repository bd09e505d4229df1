-- ===== src/Store/Retries.antt =====
-- The two attempts of `get_body` of crates/pgvs3/src/db.rs, and the cache between them.
use mathlib.Core.List.{Permᴰ}
use lakewing.Prelude.{
  ℕ, ◌+◌, ◌*◌, ◌^◌, ◌≤◌, ◌<◌, ◌≡◌, refl, sym, ap, ◌∙◌, inr, Option, none, some, Bool, true, false,
  List, [], map, length, slice, arith, ◌==◌, subst,
}
use lakewing.Prelude.Int.{ℤ, pos, negsuc}
use lakewing.Prelude.Text.{Text}
use lakewing.Layout.{row_bytes}
use lakewing.Cache.Meta.{Meta}
use lakewing.Cache.Fifo.{CacheKey, MetaCache, meta_get, meta_invalidate}
use lakewing.Cache.Capacity.{meta_get-meta_invalidate}
use lakewing.Read.Plan.{Piece}
use lakewing.Read.Span.{Row}
use lakewing.Read.Request.{RangeParams, eff_range, slice_len, unsatisfiable}
use lakewing.Store.Tables.{Db, find_object, select_rows}
use lakewing.Store.Stored.{IsStored}
use lakewing.Store.Cached.{
  meta_fresh, meta_of, PieceBody, one_shot, GetResult, found, return, again, slice_meta, serve_meta,
  attempt, get_body, body_bytes,
}
use lakewing.Store.Gets.{serve_meta-IsStored}

abbrev cache_key : Text → Text → CacheKey
cache_key bucket key = record { bucket = bucket; key = key }

meta_of-cached :
    (bucket key : Text) (db : Db) (c : MetaCache) (m : Meta)
    → meta_get (cache_key bucket key) c ≡ some m
    → meta_of bucket key db c ≡ (some m, c)
unfolding meta_of
meta_of-cached bucket key db c m hit = rw (hit, meta_of) refl

meta_of-stored :
    (bucket key : Text) (db : Db) (c : MetaCache) (m : Meta)
    → meta_get (cache_key bucket key) c ≡ none
    → find_object bucket key db.objects ≡ some m
    → (meta_of bucket key db c).0 ≡ some m
unfolding meta_of meta_fresh
meta_of-stored bucket key db c m miss there = rw (miss, meta_of) (rw (there, meta_fresh) refl)

module _ (accepts : ℕ → Bool) (bucket key : Text) (p : RangeParams) (dbs : ℕ → Db)
    (fetch : ℕ → Piece → List (Option Row)) where
  attempt-found :
      (n : ℕ) (last : Bool) (c : MetaCache) (m : Meta) (b : PieceBody)
      → (meta_of bucket key (dbs n) c).0 ≡ some m
      → serve_meta accepts last p (fetch n) m ≡ return (found (slice_meta m (eff_range m.size p)) b)
      → (attempt accepts bucket key p dbs fetch n last c).0
        ≡ return (found (slice_meta m (eff_range m.size p)) b)
  unfolding attempt
  attempt-found n last c m b known served = rw (known, attempt) (rw served refl)

  -- An attempt that has to be repeated has dropped what the cache held of the key.
  attempt-again :
      (c : MetaCache) (old : Meta)
      → meta_get (cache_key bucket key) c ≡ some old
      → serve_meta accepts false p (fetch 0) old ≡ again
      → attempt accepts bucket key p dbs fetch 0 false c
        ≡ (again, meta_invalidate (cache_key bucket key) c)
  unfolding attempt
  attempt-again c old hit stale =
      rw (meta_of-cached bucket key (dbs 0) c old hit, attempt)
        (rw stale (
          ap (λ t. (again, meta_invalidate (cache_key bucket key) t.1))
            (meta_of-cached bucket key (dbs 0) c old hit)))

  get_body-first :
      (c : MetaCache) (r : GetResult)
      → (attempt accepts bucket key p dbs fetch 0 false c).0 ≡ return r
      → (get_body accepts bucket key p dbs fetch c).0 ≡ r
  unfolding get_body
  get_body-first c r h = rw (h, get_body) refl

  get_body-second :
      (c c' : MetaCache) (r : GetResult)
      → attempt accepts bucket key p dbs fetch 0 false c ≡ (again, c')
      → (attempt accepts bucket key p dbs fetch 1 true c').0 ≡ return r
      → (get_body accepts bucket key p dbs fetch c).0 ≡ r
  unfolding get_body
  get_body-second c c' r h k = rw (h, get_body) (rw (ap (λ t. t.1) h) (rw k refl))

module _ (accepts : ℕ → Bool) (bucket key : Text) (p : RangeParams) (dbs : ℕ → Db)
    (rows : ℕ → Piece → List Row) (c : MetaCache) (m : Meta) (obj : List ℕ) (start end : ℕ) where
  -- A GET whose metadata, cached or looked up, is that of a stored object of at most 2^31 rows, and
  -- whose range lies in the object, answers with exactly the bytes of the range, in whatever order
  -- the rows of each query come back, if the client takes every message.
  pub get_body-IsStored :
      (meta_of bucket key (dbs 0) c).0 ≡ some m
      → IsStored (dbs 0).chunks m obj
      → length obj ≤ 2 ^ 31 * row_bytes
      → eff_range m.size p ≡ (pos start, pos end)
      → start ≤ end
      → end < length obj
      → ((n : ℕ) → accepts n ≡ true)
      → ((q : Piece) → Permᴰ (rows 0 q) (select_rows q (dbs 0).chunks))
      → (b : PieceBody) × ((get_body accepts bucket key p dbs (λ n q. map some (rows n q)) c).0
          ≡ found (slice_meta m (eff_range m.size p)) b)
        × (body_bytes b ≡ inr (slice obj start (end + 1)))
  get_body-IsStored known s small range ordered inside all any_order =
      let (b, served, whole) =
        serve_meta-IsStored accepts p m obj start end (dbs 0).chunks (rows 0) false s small range
          ordered inside all any_order in
      (
        b,
        get_body-first accepts bucket key p dbs (λ n q. map some (rows n q)) c _
            (attempt-found accepts bucket key p dbs (λ n q. map some (rows n q)) 0 false c m b known
              (served ∙ ap (λ r. return (found (slice_meta m r) b)) (sym range))),
        whole,
      )

  -- A GET whose cached metadata turns out stale before the first byte answers from the object that
  -- the second attempt finds, with exactly the bytes of the range: if that object is stored and of
  -- at most 2^31 rows, its range lies in it and the client takes every message, in whatever order
  -- the rows come back.
  pub get_body_retry :
      (old : Meta)
      → meta_get (cache_key bucket key) c ≡ some old
      → serve_meta accepts false p (λ q. map some (rows 0 q)) old ≡ again
      → find_object bucket key (dbs 1).objects ≡ some m
      → IsStored (dbs 1).chunks m obj
      → length obj ≤ 2 ^ 31 * row_bytes
      → eff_range m.size p ≡ (pos start, pos end)
      → start ≤ end
      → end < length obj
      → ((n : ℕ) → accepts n ≡ true)
      → ((q : Piece) → Permᴰ (rows 1 q) (select_rows q (dbs 1).chunks))
      → (b : PieceBody) × ((get_body accepts bucket key p dbs (λ n q. map some (rows n q)) c).0
          ≡ found (slice_meta m (eff_range m.size p)) b)
        × (body_bytes b ≡ inr (slice obj start (end + 1)))
  get_body_retry old hit stale there s small range ordered inside all any_order =
      let c' : MetaCache = meta_invalidate (cache_key bucket key) c in
      let (b, served, whole) =
        serve_meta-IsStored accepts p m obj start end (dbs 1).chunks (rows 1) true s small range
          ordered inside all any_order in
      (
        b,
        get_body-second accepts bucket key p dbs (λ n q. map some (rows n q)) c c' _
            (attempt-again accepts bucket key p dbs (λ n q. map some (rows n q)) c old hit stale)
            (attempt-found accepts bucket key p dbs (λ n q. map some (rows n q)) 1 true c' m b
              (meta_of-stored bucket key (dbs 1) c' m
                (meta_get-meta_invalidate (cache_key bucket key) c) there)
              (served ∙ ap (λ r. return (found (slice_meta m r) b)) (sym range))),
        whole,
      )

stale_len :
    (f l s : ℤ)
    → (slice_len
          (eff_range 0 (record { first = f; last = l; suffix_len = s })).0
          (eff_range 0 (record { first = f; last = l; suffix_len = s })).1
        == 0)
      ≡ true
unfolding slice_len eff_range
stale_len (pos f) (pos l) (pos s) = ground arith
stale_len (pos f) (pos l) (negsuc s) = ground arith
stale_len (pos f) (negsuc l) (pos s) = ground arith
stale_len (pos f) (negsuc l) (negsuc s) = ground arith
stale_len (negsuc f) (pos l) (pos s) = ground arith
stale_len (negsuc f) (pos l) (negsuc s) = ground arith
stale_len (negsuc f) (negsuc l) (pos s) = ground arith
stale_len (negsuc f) (negsuc l) (negsuc s) = ground arith

serve_meta_empty :
    (accepts : ℕ → Bool) (last : Bool) (p : RangeParams) (fetch : Piece → List (Option Row))
    (m : Meta)
    → m.size ≡ 0
    → serve_meta accepts last p fetch m
      ≡ return (found (slice_meta m (eff_range m.size p)) (one_shot []))
unfolding serve_meta unsatisfiable
serve_meta_empty accepts last p fetch m none_left =
    let e : (slice_len (eff_range m.size p).0 (eff_range m.size p).1 == 0) ≡ true =
      subst (λ n. (slice_len (eff_range n p).0 (eff_range n p).1 == 0) ≡ true) (sym none_left)
        (stale_len p.first p.last p.suffix_len) in
    let fits : unsatisfiable m.size (eff_range m.size p) ≡ false =
      subst (λ n. unsatisfiable n (eff_range m.size p) ≡ false) (sym none_left) (ground arith) in
    rw (fits, serve_meta) (rw e refl)

-- Cached metadata of an empty object is never looked up again: a GET answers with it and an empty
-- body, whatever object the database holds under the key by then.
pub get_body_stale_empty :
    (accepts : ℕ → Bool) (bucket key : Text) (p : RangeParams) (dbs : ℕ → Db)
    (fetch : ℕ → Piece → List (Option Row)) (c : MetaCache) (m : Meta)
    → meta_get (cache_key bucket key) c ≡ some m
    → m.size ≡ 0
    → (get_body accepts bucket key p dbs fetch c).0
      ≡ found (slice_meta m (eff_range m.size p)) (one_shot [])
get_body_stale_empty accepts bucket key p dbs fetch c m hit none_left =
    get_body-first accepts bucket key p dbs fetch c _ (
      attempt-found accepts bucket key p dbs fetch 0 false c m (one_shot [])
        (ap (λ r. r.0) (meta_of-cached bucket key (dbs 0) c m hit))
        (serve_meta_empty accepts false p (fetch 0) m none_left))
