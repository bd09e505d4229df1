-- ===== src/Server/Objects.antt =====
-- The object and bucket handlers of crates/pgvs3/src/server.rs. A handler's own queries run one
-- after the other, and here with nothing between them. Its lookups and deletions are answered, but
-- for those of the batch deletion, each of which may fail.
use lakewing.Prelude.{
  ℕ, suc, Option, none, some, Bool, true, false, ◌&&◌, ◌||◌, not, List, [], ◌∷◌, ◌++◌, length, ltb,
  leb, ◌==◌, if◌then◌else◌,
}
use lakewing.Prelude.Int.{ℤ}
use lakewing.Prelude.Text.{Text}
use lakewing.Cache.Fifo.{MetaCache}
use lakewing.Ingest.{Digest}
use lakewing.Ingest.Format.{CopyRow}
use lakewing.Read.Plan.{Piece}
use lakewing.Read.Span.{Row}
use lakewing.Read.Request.{Range, range_params, slice_len, unsatisfiable}
use lakewing.Store.Tables.{Db}
use lakewing.Store.Objects.{
  Tx, commit, rollback, precondition_failed, PutCondition, unconditional, if_absent, if_match, hex,
  delete,
}
use lakewing.Store.Write.{object, run_writer, body_messages}
use lakewing.Store.Buckets.{bucket_exists, BucketDeletion, deleted, not_empty, not_found}
use lakewing.Store.Cached.{
  PieceBody, GetResult, absent, found, failed, ended_early, get_body, meta_fresh, delete_cached,
  publish_cache,
}

-- The S3 errors that the handlers answer with.
pub data S3Error : Type 0 where
  no_such_key : S3Error
  no_such_bucket : S3Error
  s3_no_such_upload : S3Error
  invalid_range : S3Error
  invalid_request : S3Error
  s3_invalid_part : S3Error
  not_implemented : S3Error
  s3_precondition_failed : S3Error
  bucket_not_empty : S3Error
  internal_error : S3Error

pub data S3Result {ℓ} (A : Type ℓ) : Type ℓ where
  ok : A → S3Result A
  err : S3Error → S3Result A

-- The quoted hexadecimal of `etag`.
unfoldable pub etag : List ℕ → Text
etag raw = 34 ∷ (hex raw ++ (34 ∷ []))

-- `u8::is_ascii_hexdigit`
unfoldable pub is_hexdigit : ℕ → Bool
is_hexdigit b = (leb 48 b && leb b 57) || ((leb 65 b && leb b 70) || (leb 97 b && leb b 102))

unfoldable pub all_hexdigits : Text → Bool
all_hexdigits [] = true
all_hexdigits (b ∷ bs) = is_hexdigit b && all_hexdigits bs

unfoldable pub valid_etag : Text → Bool
valid_etag value = length value == 64 && all_hexdigits value

-- A missing key's error: NoSuchKey if the bucket is there.
unfoldable pub missing : Text → Db → S3Error
missing bucket db = if bucket_exists bucket db then no_such_key else no_such_bucket

pub record HeadObjectOutput : Type 0 where
  pub content_length : ℕ
  pub e_tag : Text
  pub last_modified : ℕ

-- `head_object`
unfoldable pub head_object : Text → Text → Db → MetaCache → S3Result HeadObjectOutput × MetaCache
head_object bucket key db c =
    let (m, c') = meta_fresh bucket key db c in
    (
      elim m [
        | none ↦ err (missing bucket db)
        | some meta ↦ ok (record {
          content_length = meta.size;
          e_tag = etag meta.etag;
          last_modified = meta.created_at;
        })
      ],
      c',
    )

pub record GetObjectOutput : Type 0 where
  pub body : PieceBody
  pub content_length : ℕ
  pub content_range : Option (ℤ × ℤ × ℕ)
  pub e_tag : Text
  pub last_modified : ℕ

-- What `get_object` answers once `get_body` returned; `db` is what `bucket_exists` reads.
unfoldable pub get_response : Bool → Text → Db → GetResult → S3Result GetObjectOutput
get_response ranged bucket db absent = err (missing bucket db)
get_response ranged bucket db (failed e) = err internal_error
get_response ranged bucket db ended_early = err internal_error
get_response ranged bucket db (found s body) =
    if unsatisfiable s.size (s.start, s.end)
    then err invalid_range
    else ok (record {
      body = body;
      content_length = slice_len s.start s.end;
      content_range = if ranged then some (s.start, s.end, s.size) else none;
      e_tag = etag s.etag;
      last_modified = s.created_at;
    })

abbrev is_some {ℓ} : {A : Type ℓ} → Option A → Bool
is_some none = false
is_some (some a) = true

-- `get_object`
unfoldable pub get_object :
    (ℕ → Bool)
    → Text
    → Text
    → Option Range
    → (ℕ → Db)
    → (ℕ → Piece → List (Option Row))
    → MetaCache
    → S3Result GetObjectOutput × MetaCache
get_object accepts bucket key range dbs fetch c =
    let (r, c') = get_body accepts bucket key (range_params range) dbs fetch c in
    (get_response (is_some range) bucket (dbs 2) r, c')

-- `s3s::dto::ETagCondition`, with the weak and strong tags of `ETag`.
pub data ETagCondition : Type 0 where
  any : ETagCondition
  strong : Text → ETagCondition
  weak : Text → ETagCondition

-- The `match` of `put_object` on If-Match and If-None-Match; `none` is InvalidRequest.
unfoldable pub put_condition : Option ETagCondition → Option ETagCondition → Option PutCondition
put_condition none none = some unconditional
put_condition none (some any) = some if_absent
put_condition none (some (strong v)) = none
put_condition none (some (weak v)) = none
put_condition (some (strong value)) none = if valid_etag value then some (if_match value) else none
put_condition (some any) none = none
put_condition (some (weak v)) none = none
put_condition (some c) (some c') = none

-- The answer of `put_object` once the transaction ended.
unfoldable pub put_response : Text → Db → Tx (ℕ × List ℕ) → S3Result Text
put_response bucket db (commit (size, sum) db') = ok (etag sum)
put_response bucket db (rollback precondition_failed) = err s3_precondition_failed
put_response bucket db (rollback e) =
    err (if bucket_exists bucket db then internal_error else no_such_bucket)

-- The metadata that a committed PUT publishes to the cache.
unfoldable pub published :
    Text → Text → ℕ → PutCondition → ℕ → Tx (ℕ × List ℕ) → MetaCache → MetaCache
published bucket key file_id condition now (rollback e) c = c
published bucket key file_id condition now (commit (size, sum) db) c =
    publish_cache bucket key
      (record { file_id = file_id; size = size; etag = sum; parts = none; condition = condition })
      now c

-- `put_object`, for a body that arrives as `chunks` and then ends or, if `cut`, fails.
module _ (d : Digest) (copy_in : List ℕ → Option (List CopyRow)) (bucket key : Text) where
  unfoldable pub put_object :
      Option ETagCondition
      → Option ETagCondition
      → List (List ℕ)
      → Bool
      → ℕ
      → Db
      → MetaCache
      → S3Result Text × Db × MetaCache
  put_object ifm ifn chunks cut now db c = elim (put_condition ifm ifn) [
    | none ↦ (err invalid_request, db, c)
    | some condition ↦
        if bucket_exists bucket db
        then (let (r, db') =
              run_writer d copy_in (object bucket key condition) now (body_messages chunks cut)
                db in
            (put_response bucket db' r, db', published bucket key db.next_file condition now r c))
        else (err no_such_bucket, db, c)
  ]

-- `delete_object`; `conditional` says that a condition or a version was given.
unfoldable pub delete_object :
    Bool → Text → Text → Db → MetaCache → S3Result (Unit {0}) × Db × MetaCache
delete_object conditional bucket key db c =
    if conditional
    then (err not_implemented, db, c)
    else if bucket_exists bucket db
    then (let (f, db', c') = delete_cached bucket key db c in (ok tt, db', c'))
    else (err no_such_bucket, db, c)

-- `ObjectIdentifier`, and whether it has a version or a condition.
pub record ObjectIdentifier : Type 0 where
  pub key : Text
  pub conditional : Bool

unfoldable pub any_conditional : List ObjectIdentifier → Bool
any_conditional [] = false
any_conditional (o ∷ os) = o.conditional || any_conditional os

-- How a call of `delete` ends: with its answer; with an error and its transaction rolled back; or
-- with an error although its transaction committed, when the connection is lost before the answer.
-- After an error the cache is not invalidated.
pub data Deletion : Type 0 where
  answered : Deletion
  rolled_back : Deletion
  answer_lost : Deletion

unfoldable pub try_delete : Deletion → Text → Text → Db → MetaCache → Option Bool × Db × MetaCache
try_delete answered bucket key db c =
    let (f, db', c') = delete_cached bucket key db c in (some f, db', c')
try_delete rolled_back bucket key db c = (none, db, c)
try_delete answer_lost bucket key db c = (none, (delete bucket key db).1, c)

-- The second loop of `delete_objects`; `ends n` is how its n-th call of `delete` ends.
unfoldable pub delete_all :
    (ℕ → Deletion)
    → Text
    → Bool
    → List ObjectIdentifier
    → Db
    → MetaCache
    → S3Result (List Text) × Db × MetaCache
delete_all ends bucket quiet [] db c = (ok [], db, c)
delete_all ends bucket quiet (o ∷ os) db c =
    let (answer, db', c') = try_delete (ends 0) bucket o.key db c in
    let (r, db'', c'') = delete_all (λ n. ends (suc n)) bucket quiet os db' c' in
    elim answer [
      | none ↦ (err internal_error, db', c')
      | some f ↦ (elim r [
        | err e ↦ (err e, db'', c'')
        | ok keys ↦ (ok (if quiet then keys else o.key ∷ keys), db'', c'')
      ])
    ]

-- `delete_objects`; `reads` says whether the query of `bucket_exists` is answered.
unfoldable pub delete_objects :
    Bool
    → (ℕ → Deletion)
    → Text
    → Bool
    → List ObjectIdentifier
    → Db
    → MetaCache
    → S3Result (List Text) × Db × MetaCache
delete_objects reads ends bucket quiet objects db c =
    let done = delete_all ends bucket quiet objects db c in
    if not reads
    then (err internal_error, db, c)
    else if not (bucket_exists bucket db)
    then (err no_such_bucket, db, c)
    else if ltb 1000 (length objects)
    then (err invalid_request, db, c)
    else if any_conditional objects
    then (err not_implemented, db, c)
    else done

-- `head_bucket`
unfoldable pub head_bucket : Text → Db → S3Result (Unit {0})
head_bucket bucket db = if bucket_exists bucket db then ok tt else err no_such_bucket

-- The `match` of `delete_bucket`.
unfoldable pub bucket_response : BucketDeletion → S3Result (Unit {0})
bucket_response deleted = ok tt
bucket_response not_empty = err bucket_not_empty
bucket_response not_found = err no_such_bucket
