-- ===== src/Store/Objects.antt =====
-- `swap_object`, `reap`, `delete`, `hex` and the object lookups of crates/pgvs3/src/db.rs. A
-- transaction that fails leaves the database as it was, so a failure carries no database. The
-- advisory lock makes transactions on one key run one after the other, so each runs whole here.
use lakewing.Prelude.{
  ℕ, ◌+◌, ◌/◌, ◌%◌, Option, none, some, Bool, true, false, List, [], ◌∷◌, ◌++◌, ltb, if◌then◌else◌,
}
use lakewing.Prelude.Text.{Text, text_eq}
use lakewing.Cache.Meta.{Meta}
use lakewing.Store.Tables.{
  Db, has_bucket, find_object, upsert_object, delete_object_row, delete_chunks,
}

-- Why a transaction rolls back.
pub data TxError : Type 0 where
  precondition_failed : TxError
  bucket_missing : TxError
  ingest_aborted : TxError
  copy_failed : TxError
  foreign_key : TxError

pub data Tx {ℓ} (A : Type ℓ) : Type ℓ where
  commit : A → Db → Tx A
  rollback : TxError → Tx A

-- `{b:02x}`
unfoldable pub hex_digit : ℕ → ℕ
hex_digit n = if ltb n 10 then 48 + n else 87 + n

-- `hex`
unfoldable pub hex : List ℕ → Text
unfolding hex_digit
hex [] = []
hex (b ∷ bs) = hex_digit (b / 16) ∷ hex_digit (b % 16) ∷ hex bs

pub data PutCondition : Type 0 where
  unconditional : PutCondition
  if_absent : PutCondition
  if_match : Text → PutCondition

-- `ObjectWrite`
pub record ObjectWrite : Type 0 where
  pub file_id : ℕ
  pub size : ℕ
  pub etag : List ℕ
  pub parts : Option (List ℕ × List ℕ)
  pub condition : PutCondition

-- `allowed` in `swap_object`
unfoldable pub allowed : PutCondition → Option Meta → Bool
allowed unconditional old = true
allowed if_absent none = true
allowed if_absent (some m) = false
allowed (if_match want) none = false
allowed (if_match want) (some m) = text_eq (hex m.etag) want

-- `write.parts.unzip()`
abbrev pub parts_of : Option (List ℕ × List ℕ) → Option (List ℕ)
parts_of none = none
parts_of (some (ids, ends)) = some ids

abbrev pub ends_of : Option (List ℕ × List ℕ) → Option (List ℕ)
ends_of none = none
ends_of (some (ids, ends)) = some ends

-- The row that `swap_object` writes, at time `now`.
unfoldable pub written_meta : ObjectWrite → ℕ → Meta
written_meta w now = record {
  size = w.size;
  etag = w.etag;
  created_at = now;
  file_id = w.file_id;
  parts = parts_of w.parts;
  part_ends = ends_of w.parts;
}

-- The files that `reap` deletes: `parts.unwrap_or_default()` and the file itself.
unfoldable pub dead_files : Meta → List ℕ
dead_files m = (elim m.parts [ none ↦ [] | some ids ↦ ids ]) ++ (m.file_id ∷ [])

-- `reap`, for the object that a write replaces or a delete removes, if there was one
unfoldable pub reap_old : Option Meta → Db → Db
reap_old none db = db
reap_old (some m) db = record db { chunks = delete_chunks (dead_files m) db.chunks }

-- `swap_object`. The INSERT fails if the bucket is not there: it is a foreign key.
unfoldable pub swap_object : Text → Text → ObjectWrite → ℕ → Db → Tx (Unit {0})
swap_object bucket key w now db =
    let old = find_object bucket key db.objects in
    if allowed w.condition old
    then (if has_bucket bucket db.buckets
        then commit tt (
            reap_old old
              (record db { objects = upsert_object bucket key (written_meta w now) db.objects }))
        else rollback foreign_key)
    else rollback precondition_failed

-- `delete`: whether there was an object, and the database behind it.
unfoldable pub delete : Text → Text → Db → Bool × Db
delete bucket key db =
    let old = find_object bucket key db.objects in
    (
      (elim old [ none ↦ false | some m ↦ true ]),
      reap_old old (record db { objects = delete_object_row bucket key db.objects }),
    )
