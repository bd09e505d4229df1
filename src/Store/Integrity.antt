-- ===== src/Store/Integrity.antt =====
-- Every object's bucket exists: the foreign key of `s3p.objects`, and `delete_bucket` of
-- crates/pgvs3/src/db.rs.
use lakewing.Prelude.{
  ◌≡◌, refl, sym, ap, ◌∙◌, true, false, List, [], ◌∷◌, arith, Bool-cases, inl, inr,
}
use lakewing.Prelude.Text.{Text, text_eq, text_eq_refl, text_eq→eq}
use lakewing.Store.Tables.{Bucket, Object, Db, has_bucket}
use lakewing.Store.Objects.{Tx, commit, rollback}
use lakewing.Store.Buckets.{delete_bucket_row, has_objects, has_uploads, delete_bucket}

abbrev pub AllBucketed : List Bucket → List Object → Type 0
AllBucketed bs [] = Unit
AllBucketed bs (o ∷ os) = (has_bucket o.bucket bs ≡ true) × AllBucketed bs os

-- Every object's bucket exists.
abbrev pub IsIntact : Db → Type 0
IsIntact db = AllBucketed db.buckets db.objects

text_eq_sym : (a b : Text) → text_eq a b ≡ true → text_eq b a ≡ true
text_eq_sym a b h = ap (λ t. text_eq t a) (sym (text_eq→eq a b h)) ∙ text_eq_refl a

text_eq_same : (a b c : Text) → text_eq a b ≡ true → text_eq a c ≡ text_eq b c
text_eq_same a b c h = ap (λ t. text_eq t c) (text_eq→eq a b h)

has_bucket-delete_bucket_row :
    (name b : Text) (bs : List Bucket)
    → text_eq b name ≡ false
    → has_bucket b (delete_bucket_row name bs) ≡ has_bucket b bs
unfolding has_bucket delete_bucket_row
has_bucket-delete_bucket_row name b [] other = refl
has_bucket-delete_bucket_row name b (c ∷ cs) other = elim (Bool-cases (text_eq c.name name)) [
  | inl here ↦ ground (arith, text_eq_same c.name name b here, text_eq_sym name b)
  | inr later ↦ ground (arith, has_bucket-delete_bucket_row name b cs other)
]

AllBucketed-delete_bucket_row :
    (name : Text) (bs : List Bucket) (os : List Object)
    → has_objects name os ≡ false
    → AllBucketed bs os
    → AllBucketed (delete_bucket_row name bs) os
unfolding has_objects
AllBucketed-delete_bucket_row name bs [] free all = tt
AllBucketed-delete_bucket_row name bs (o ∷ os) free (here, more) =
    let other : text_eq o.bucket name ≡ false = ground (arith, free) in
    let rest : has_objects name os ≡ false = ground (arith, free) in
    (
      has_bucket-delete_bucket_row name o.bucket bs other ∙ here,
      AllBucketed-delete_bucket_row name bs os rest more,
    )

-- Deleting a bucket leaves every object's bucket in place.
pub delete_bucket-IsIntact :
    (name : Text) (db : Db) → IsIntact db → IsIntact (delete_bucket name db).1
unfolding delete_bucket
delete_bucket-IsIntact name db all = elim (Bool-cases (has_bucket name db.buckets)) [
  | inr gone ↦ rw (gone, delete_bucket) all
  | inl there ↦ elim (Bool-cases (has_objects name db.objects)) [
    | inl occupied ↦ rw (there, delete_bucket, occupied) all
    | inr empty ↦ elim (Bool-cases (has_uploads name db.uploads)) [
      | inl open_upload ↦ rw (there, delete_bucket, empty, open_upload) all
      | inr free ↦
          rw (there, delete_bucket, empty, free)
            (AllBucketed-delete_bucket_row name db.buckets db.objects empty all)
    ]
  ]
]

-- What holds of the database behind a transaction that commits.
abbrev pub AfterCommit {ℓ} : {A : Type ℓ} → (Db → Type 0) → Tx A → Type 0
AfterCommit P (commit a db) = P db
AfterCommit P (rollback e) = Unit
