-- ===== src/Store/Sound/Swaps.antt =====
-- `swap_object`, `reap` and `delete` of crates/pgvs3/src/db.rs, and the soundness of the database.
use lakewing.Prelude.{
  ℕ, ◌+◌, ◌≤◌, ◌≡◌, refl, sym, ap₂, subst, Option, none, some, List, arith, false,
}
use lakewing.Prelude.Text.{Text}
use lakewing.Cache.Meta.{Meta}
use lakewing.Store.Tables.{Db, UploadPart, find_object, upsert_object, delete_object_row, mem_id}
use lakewing.Store.Objects.{dead_files, reap_old, delete}
use lakewing.Store.Published.{objects-reap_old}
use lakewing.Store.Owners.{
  count_id, ids_of, count_old, count_objects, count_parts, owners, dead_files-count,
  count_objects-upsert_object, count_objects-delete_object_row,
}
use lakewing.Store.Held.{Held, Held-same, Held-delete_chunks}
use lakewing.Store.Multipart.{AllSized}
use lakewing.Store.Sound.{IsLaid, AllLaid, AreDistinct, IsSound, find_object-IsLaid}
use lakewing.Store.Sound.Rows.{
  AllLaid-upsert_object, AllLaid-delete_object_row, AreDistinct-upsert_object,
  AreDistinct-delete_object_row,
}

pub upload_parts-reap_old :
    (old : Option Meta) (db : Db) → (reap_old old db).upload_parts ≡ db.upload_parts
unfolding reap_old
upload_parts-reap_old none db = refl
upload_parts-reap_old (some m) db = refl

module _ (files : ℕ → List ℕ) where
  -- Reaping the files of an object takes its share of the owners away.
  reap_old-Held :
      (old : Option Meta) (db : Db) (own own' : ℕ → ℕ)
      → ((m : Meta) → old ≡ some m → IsLaid files m)
      → ((n : ℕ) → own n ≤ 1)
      → ((n : ℕ) → own' n + count_old n old ≡ own n)
      → Held files db.chunks own
      → Held files (reap_old old db).chunks own'
  unfolding reap_old
  reap_old-Held none db own own' laid once left held =
      Held-same files db.chunks own own' (λ n. omega (arith, left n)) held
  reap_old-Held (some m) db own own' laid once left held =
      Held-delete_chunks files (dead_files m) db.chunks own own'
        (λ n. ground (arith, dead_files-count n m (laid m refl).headed, once n, left n)) held

-- A sound database but for the files of metadata that is still to be published: they are held and
-- no one else's. `rest` are the parts that stay.
pub record IsPending (files : ℕ → List ℕ) (db : Db) (m : Meta) (rest : List UploadPart)
    : Type 0 where
  pub once : (n : ℕ) → count_objects n db.objects + count_id n (ids_of m) + count_parts n rest ≤ 1
  pub held :
      Held files db.chunks
        (λ n. count_objects n db.objects + count_id n (ids_of m) + count_parts n rest)
  pub laid : AllLaid files db.objects
  pub new : IsLaid files m
  pub distinct : AreDistinct db.objects

module _ (files : ℕ → List ℕ) (bucket key : Text) (db : Db) (m : Meta)
    (rest : List UploadPart) where
  abbrev pub swapped : Db
  swapped =
      reap_old (find_object bucket key db.objects)
        (record db { objects = upsert_object bucket key m db.objects })

  pub swapped-once :
      IsPending files db m rest
      → (n : ℕ) → count_objects n (upsert_object bucket key m db.objects) + count_parts n rest ≤ 1
  swapped-once p n = omega (arith, p.once n, count_objects-upsert_object n bucket key m db.objects)

  pub swapped-Held :
      IsPending files db m rest
      → Held files swapped.chunks
          (λ n. count_objects n (upsert_object bucket key m db.objects) + count_parts n rest)
  swapped-Held p =
      reap_old-Held files (find_object bucket key db.objects)
        (record db { objects = upsert_object bucket key m db.objects })
        (λ n. count_objects n db.objects + count_id n (ids_of m) + count_parts n rest) _
        (λ r there. find_object-IsLaid files bucket key r db.objects p.laid there) p.once
        (λ n. omega (arith, count_objects-upsert_object n bucket key m db.objects)) p.held

-- Deleting an object keeps the database sound: its files are no one's, and their rows are gone.
pub delete-IsSound :
    (files : ℕ → List ℕ) (used : List ℕ) (bucket key : Text) (db : Db)
    → IsSound files used db
    → IsSound files used (delete bucket key db).1
unfolding delete
delete-IsSound files used bucket key db s =
    let old : Option Meta = find_object bucket key db.objects in
    let db' : Db = record db { objects = delete_object_row bucket key db.objects } in
    let after : Db = reap_old old db' in
    let objects : after.objects ≡ delete_object_row bucket key db.objects =
      objects-reap_old old db' in
    let parts : after.upload_parts ≡ db.upload_parts = upload_parts-reap_old old db' in
    let own : (n : ℕ)
        → owners after n
          ≡ count_objects n (delete_object_row bucket key db.objects)
            + count_parts n db.upload_parts =
      λ n. ap₂ (λ os ps. count_objects n os + count_parts n ps) objects parts in
    let fewer : (n : ℕ)
        → count_objects n (delete_object_row bucket key db.objects) + count_old n old
          ≡ count_objects n db.objects =
      λ n. count_objects-delete_object_row n bucket key db.objects in
    record {
      once = λ n. omega (arith, own n, fewer n, s.once n);
      fresh = λ n above. omega (arith, own n, fewer n, s.fresh n above);
      held = Held-same files after.chunks _ (owners after) own (
          reap_old-Held files old db' (owners db)
            (λ n.
              count_objects n (delete_object_row bucket key db.objects)
              + count_parts n db.upload_parts)
            (λ r there. find_object-IsLaid files bucket key r db.objects s.laid there) s.once
            (λ n. omega (arith, fewer n)) s.held);
      laid =
          subst (AllLaid files) (sym objects)
            (AllLaid-delete_object_row files bucket key db.objects s.laid);
      sized = subst (AllSized files) (sym parts) s.sized;
      distinct =
          subst AreDistinct (sym objects)
            (AreDistinct-delete_object_row bucket key db.objects s.distinct);
    }

module _ (files : ℕ → List ℕ) (bucket key : Text) (db : Db) (m : Meta)
    (rest : List UploadPart) where
  -- A database behind a swap, with `rest` as its parts.
  pub swapped-IsSound :
      (used : List ℕ) (db' : Db)
      → IsPending files db m rest
      → db'.objects ≡ upsert_object bucket key m db.objects
      → db'.upload_parts ≡ rest
      → db'.chunks ≡ (swapped files bucket key db m rest).chunks
      → ((n : ℕ)
          → mem_id n used ≡ false
          → count_objects n db.objects + count_id n (ids_of m) + count_parts n rest ≡ 0)
      → AllSized files rest
      → IsSound files used db'
  swapped-IsSound used db' p objects parts chunks fresh sized =
      let own : (n : ℕ)
          → owners db' n
            ≡ count_objects n (upsert_object bucket key m db.objects) + count_parts n rest =
        λ n. ap₂ (λ os ps. count_objects n os + count_parts n ps) objects parts in
      record {
        once = λ n. omega (arith, own n, swapped-once files bucket key db m rest p n);
        fresh = λ n above.
            omega
              (arith, own n, fresh n above, count_objects-upsert_object n bucket key m db.objects);
        held = Held-same files db'.chunks _ (owners db') own (
            subst
              (λ cs.
                Held files cs (λ n.
                  count_objects n (upsert_object bucket key m db.objects) + count_parts n rest))
              (sym chunks) (swapped-Held files bucket key db m rest p));
        laid =
            subst (AllLaid files) (sym objects)
              (AllLaid-upsert_object files bucket key m db.objects p.new p.laid);
        sized = subst (AllSized files) (sym parts) sized;
        distinct =
            subst AreDistinct (sym objects)
              (AreDistinct-upsert_object bucket key m db.objects p.distinct);
      }
