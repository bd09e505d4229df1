-- ===== src/Server/Batches.antt =====
-- The batch deletion of crates/pgvs3/src/server.rs: its checks, and what its loop then does.
use lakewing.Prelude.{
  ℕ, ◌≡◌, ◌⊎◌, refl, Bool, true, false, ◌&&◌, not, List, length, ltb, leb, arith, Bool-cases, inl,
  inr,
}
use lakewing.Prelude.Text.{Text}
use lakewing.Cache.Fifo.{MetaCache}
use lakewing.Store.Tables.{Db}
use lakewing.Store.Buckets.{bucket_exists}
use lakewing.Server.Objects.{
  S3Error, S3Result, err, internal_error, no_such_bucket, invalid_request, not_implemented,
  ObjectIdentifier, any_conditional, Deletion, delete_objects,
}
use lakewing.Server.Deletions.{answer_with, IsWhole, IsCut, delete_all-cases}

-- The queries before the loop are answered and its checks pass: the bucket is there, the batch has
-- at most 1000 objects and none has a version or a condition.
abbrev pub is_accepted : Bool → Text → List ObjectIdentifier → Db → Bool
is_accepted reads bucket objects db =
    reads
    && (bucket_exists bucket db && (leb (length objects) 1000 && not (any_conditional objects)))

-- The batch is refused before the loop: nothing is deleted.
pub record IsRefused (reads : Bool) (bucket : Text) (objects : List ObjectIdentifier)
    (s : Db × MetaCache) (r : S3Result (List Text) × Db × MetaCache) : Type 0 where
  pub error : S3Error
  pub checked : is_accepted reads bucket objects s.0 ≡ false
  pub result : r ≡ answer_with (err error) s

-- A batch deletion does one of three things. If the bucket cannot be looked up or is not there, the
-- batch has more than 1000 objects or one of them has a version or a condition, it answers with an
-- error and changes neither the database nor the cache. Otherwise, it deletes every object in the
-- order of the batch and answers with their keys, or with none if it is quiet; or a deletion fails,
-- and it answers with InternalError: the objects before the failing one are then deleted, that one
-- only if its transaction committed before the answer was lost, and those behind it are not touched.
pub delete_objects-cases :
    (reads : Bool) (ends : ℕ → Deletion) (bucket : Text) (quiet : Bool)
    (objects : List ObjectIdentifier) (db : Db) (c : MetaCache)
    → IsRefused reads bucket objects (db, c) (delete_objects reads ends bucket quiet objects db c)
      ⊎ ((is_accepted reads bucket objects db ≡ true)
          × (IsWhole ends bucket quiet objects
                (db, c)
                (delete_objects reads ends bucket quiet objects db c)
              ⊎ IsCut ends bucket objects
                  (db, c)
                  (delete_objects reads ends bucket quiet objects db c)))
unfolding delete_objects
delete_objects-cases false ends bucket quiet objects db c =
    inl (record { error = internal_error; checked = refl; result = refl })
delete_objects-cases true ends bucket quiet objects db c =
    elim (Bool-cases (bucket_exists bucket db)) [
      | inr gone ↦ inl (record {
        error = no_such_bucket;
        checked = rw gone refl;
        result = rw (gone, delete_objects) refl;
      })
      | inl there ↦ elim (Bool-cases (ltb 1000 (length objects))) [
        | inl many ↦ inl (record {
          error = invalid_request;
          checked = ground (arith, there, many);
          result = rw (there, delete_objects, many) refl;
        })
        | inr few ↦ elim (Bool-cases (any_conditional objects)) [
          | inl some_conditional ↦ inl (record {
            error = not_implemented;
            checked = ground (arith, there, some_conditional);
            result = rw (there, delete_objects, few, some_conditional) refl;
          })
          | inr plain ↦ inr (
            ground (arith, there, few, plain),
            rw (there, delete_objects, few, plain)
                (delete_all-cases bucket quiet ends objects db c),
          )
        ]
      ]
    ]
