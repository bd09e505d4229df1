-- ===== src/Store/Sound/Puts.antt =====
-- The database behind a PUT that `ingest_writer` of crates/pgvs3/src/db.rs publishes, and the file ids
-- that are used by then.
use lakewing.Prelude.{
  ℕ, ◌+◌, ◌≤◌, ◌≡◌, refl, sym, ap, subst, ◌∙◌, Option, List, [], ◌∷◌, ◌++◌, arith, length,
  slice_all, append-nil, ◌==◌, if◌then◌else◌, Bool-cases, inl, inr, false,
}
use lakewing.Prelude.Text.{Text}
use lakewing.Cache.Meta.{Meta, segments, segments_of}
use lakewing.Ingest.{Digest}
use lakewing.Ingest.Format.{file_rows}
use lakewing.Store.Tables.{Db, find_object, upsert_object, mem_id}
use lakewing.Store.Objects.{PutCondition, written_meta}
use lakewing.Store.Published.{put_write, after_put, objects-reap_old}
use lakewing.Store.Owners.{count_id, ids_of, count_objects, count_parts, owners}
use lakewing.Store.Held.{Held, Held-append}
use lakewing.Store.Sound.{IsLaid, IsSound}
use lakewing.Store.Sound.Swaps.{swapped-IsSound, upload_parts-reap_old}

-- One more file, not owned yet.
pub one_more :
    (files : ℕ → List ℕ) (used : List ℕ) (db : Db) (f n : ℕ)
    → mem_id f used ≡ false
    → IsSound files used db
    → owners db n + (if f == n then 1 else 0) ≤ 1
one_more files used db f n new s = elim (Bool-cases (f == n)) [
  | inl here ↦
      (let e : owners db f ≡ 0 = s.fresh f new in
        let same : f ≡ n = ground (arith, here) in
        let e' : owners db n ≡ 0 = ap (owners db) (sym same) ∙ e in rw here (omega (arith, e')))
  | inr other ↦ rw other (omega (arith, s.once n))
]

-- A file id that is used, though nothing came of it.
pub used-IsSound :
    (files : ℕ → List ℕ) (used : List ℕ) (f : ℕ) (db : Db)
    → IsSound files used db
    → IsSound files (f ∷ used) db
unfolding mem_id
used-IsSound files used f db s = record {
  once = s.once;
  fresh = λ n above. s.fresh n (ground (arith, above));
  held = s.held;
  laid = s.laid;
  sized = s.sized;
  distinct = s.distinct;
}

module _ (files : ℕ → List ℕ) (d : Digest) (condition : PutCondition) (f now : ℕ) (obj : List ℕ)
    (same : files f ≡ obj) where
  pub put-IsLaid : IsLaid files (written_meta (put_write d f condition obj) now)
  unfolding written_meta segments segments_of mem_id
  put-IsLaid =
      let whole : files f ++ [] ≡ obj = append-nil (files f) ∙ same in
      record {
        headed = ground arith;
        laid = rw whole (
          refl,
          (let e : 0 + length obj ≤ length obj = omega arith in e),
          same ∙ sym (slice_all obj (0 + length obj) (omega arith)),
          (let e : 0 + length obj ≡ length obj = omega arith in e),
        );
        named = (ground arith, tt);
        size_ok = sym (ap length whole);
      }

pub older : (used : List ℕ) (f n : ℕ) → mem_id n (f ∷ used) ≡ false → mem_id n used ≡ false
unfolding mem_id
older used f n above = ground (arith, above)

pub not_new : (used : List ℕ) (f n : ℕ) → mem_id n (f ∷ used) ≡ false → (f == n) ≡ false
unfolding mem_id
not_new used f n above = ground (arith, above)

count_new : (used : List ℕ) (f n : ℕ) → mem_id n (f ∷ used) ≡ false → count_id n (f ∷ []) ≡ 0
count_new used f n above = let e : (f == n) ≡ false = not_new used f n above in ground (arith, e)

module _ (files : ℕ → List ℕ) (d : Digest) (bucket key : Text) (condition : PutCondition) (now : ℕ)
    (obj : List ℕ) (used : List ℕ) (f : ℕ) (db : Db) (same : files f ≡ obj)
    (new : mem_id f used ≡ false) (s : IsSound files used db) where
  -- A PUT that commits leaves a sound database.
  pub after_put-IsSound : IsSound files (f ∷ used) (after_put d bucket key condition f now obj db)
  unfolding after_put written_meta
  after_put-IsSound =
      let m : Meta = written_meta (put_write d f condition obj) now in
      let written : Db = record db { chunks = db.chunks ++ file_rows f obj } in
      let behind : Db = record written { objects = upsert_object bucket key m db.objects } in
      let old : Option Meta = find_object bucket key db.objects in
      swapped-IsSound files bucket key written m db.upload_parts (f ∷ used)
        (after_put d bucket key condition f now obj db)
        (record {
          once = λ n. omega (arith, one_more files used db f n new s);
          held =
              subst
                (λ b. Held files (db.chunks ++ file_rows f b) (λ n.
                  count_objects n db.objects
                  + count_id n (ids_of m)
                  + count_parts n db.upload_parts))
                same
                (Held-append files db.chunks (owners db) _ f (s.fresh f new) (λ n. omega arith)
                  s.held);
          laid = s.laid;
          new = put-IsLaid files d condition f now obj same;
          distinct = s.distinct;
        })
        (objects-reap_old old behind) (upload_parts-reap_old old behind) refl
        (λ n above. omega (arith, s.fresh n (older used f n above), count_new used f n above))
        s.sized
