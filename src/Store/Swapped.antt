-- ===== src/Store/Swapped.antt =====
-- What `swap_object` of crates/pgvs3/src/db.rs publishes, and when it refuses.
use lakewing.Prelude.{
  ℕ, ◌≡◌, refl, sym, ap, ◌∙◌, Option, none, some, true, false, if◌then◌else◌, Bool-cases, inl, inr,
}
use lakewing.Prelude.Text.{Text, text_eq, text_eq_refl, text_eq→eq}
use lakewing.Cache.Meta.{Meta}
use lakewing.Store.Tables.{Db, has_bucket, find_object, upsert_object}
use lakewing.Store.Objects.{
  Tx, commit, rollback, precondition_failed, foreign_key, bucket_missing, ingest_aborted,
  copy_failed, hex, PutCondition, unconditional, if_absent, if_match, ObjectWrite, allowed,
  parts_of, ends_of, written_meta, swap_object,
}
use lakewing.Store.Lookups.{same_key, find_object-upsert_object}
use lakewing.Store.Published.{objects-reap_old}
use lakewing.Store.Sound.Swaps.{upload_parts-reap_old}
use lakewing.Store.Removed.{files_of, AreReaped, reap_old-AreReaped}

-- The precondition holds of what the key names.
abbrev pub Permits : PutCondition → Option Meta → Type 0
Permits unconditional old = Unit
Permits if_absent old = old ≡ none
Permits (if_match want) old = (m : Meta) × (old ≡ some m) × (hex m.etag ≡ want)

allowed-Permits : (c : PutCondition) (old : Option Meta) → allowed c old ≡ true → Permits c old
unfolding allowed
allowed-Permits unconditional old h = tt
allowed-Permits if_absent none h = refl
allowed-Permits if_absent (some m) h = absurd cc
allowed-Permits (if_match want) none h = absurd cc
allowed-Permits (if_match want) (some m) h = (m, refl, text_eq→eq (hex m.etag) want h)

Permits-allowed : (c : PutCondition) (old : Option Meta) → Permits c old → allowed c old ≡ true
unfolding allowed
Permits-allowed unconditional old h = refl
Permits-allowed if_absent old h = rw h refl
Permits-allowed (if_match want) old (m, e, same) =
    rw e (ap (λ t. text_eq t want) same ∙ text_eq_refl want)

-- What a swap answered and left.
abbrev pub IsSwapped : Text → Text → ObjectWrite → ℕ → Db → Tx (Unit {0}) → Type 0
IsSwapped bucket key w now db (rollback precondition_failed) =
    ¬ Permits w.condition (find_object bucket key db.objects)
IsSwapped bucket key w now db (rollback foreign_key) =
    Permits w.condition (find_object bucket key db.objects) × (has_bucket bucket db.buckets ≡ false)
IsSwapped bucket key w now db (rollback bucket_missing) = ⊥
IsSwapped bucket key w now db (rollback ingest_aborted) = ⊥
IsSwapped bucket key w now db (rollback copy_failed) = ⊥
IsSwapped bucket key w now db (commit u db') =
    Permits w.condition (find_object bucket key db.objects)
    × (has_bucket bucket db.buckets ≡ true)
    × ((b k : Text)
        → find_object b k db'.objects ≡ (
            if same_key bucket key b k
            then some (record {
              size = w.size;
              etag = w.etag;
              created_at = now;
              file_id = w.file_id;
              parts = parts_of w.parts;
              part_ends = ends_of w.parts;
            })
            else find_object b k db.objects))
    × AreReaped (files_of (find_object bucket key db.objects)) db.chunks db'.chunks
    × (db'.upload_parts ≡ db.upload_parts)

-- Publishing an object commits exactly if its precondition holds of what the key names and the
-- bucket is there, and otherwise fails with the error of the first of the two that does not hold.
-- When it commits, the key names the size, digest, file and parts that were written and every other
-- key what it named before; the rows of the files that the key named before are gone, and those of
-- every other file and the parts of uploads are as they were.
pub swap_object-IsSwapped :
    (bucket key : Text) (w : ObjectWrite) (now : ℕ) (db : Db)
    → IsSwapped bucket key w now db (swap_object bucket key w now db)
unfolding swap_object written_meta
swap_object-IsSwapped bucket key w now db =
    let old : Option Meta = find_object bucket key db.objects in
    elim (Bool-cases (allowed w.condition old)) [
      | inr refused ↦
          rw (refused, swap_object)
            (λ h.
              let e : false ≡ true = sym refused ∙ Permits-allowed w.condition old h in absurd cc)
      | inl granted ↦
          let holds = allowed-Permits w.condition old granted in
          elim (Bool-cases (has_bucket bucket db.buckets)) [
            | inr gone ↦ rw (granted, swap_object, gone) (holds, gone)
            | inl there ↦
                let db' : Db = record db {
                  objects = upsert_object bucket key (written_meta w now) db.objects;
                } in
                rw (granted, swap_object, there)
                  (
                    holds,
                    there,
                    (λ b k.
                        ap (find_object b k) (objects-reap_old old db')
                        ∙ find_object-upsert_object bucket key b k (written_meta w now) db.objects),
                    reap_old-AreReaped old db',
                    upload_parts-reap_old old db',
                  )
          ]
    ]
