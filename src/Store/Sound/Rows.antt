-- ===== src/Store/Sound/Rows.antt =====
-- The object rows under an upsert and a delete: they stay laid out, and no key is there twice.
use lakewing.Prelude.{◌≡◌, refl, sym, ap, ◌∙◌, none, List, [], ◌∷◌, arith, Bool-cases, inl, inr, ℕ}
use lakewing.Prelude.Text.{Text, text_eq_comm, text_eq→eq}
use lakewing.Cache.Meta.{Meta}
use lakewing.Store.Tables.{Object, is_at, find_object, upsert_object, delete_object_row}
use lakewing.Store.Lookups.{same_key, find_object-upsert_object, find_object-delete_object_row}
use lakewing.Store.Sound.{IsLaid, AllLaid, AreDistinct}

pub AllLaid-upsert_object :
    (files : ℕ → List ℕ) (bucket key : Text) (m : Meta) (os : List Object)
    → IsLaid files m
    → AllLaid files os
    → AllLaid files (upsert_object bucket key m os)
unfolding upsert_object
AllLaid-upsert_object files bucket key m [] new laid = (new, tt)
AllLaid-upsert_object files bucket key m (o ∷ os) new laid =
    elim (Bool-cases (is_at bucket key o)) [
      | inl here ↦ rw (here, upsert_object) (new, laid.1)
      | inr later ↦
          rw (later, upsert_object) (laid.0, AllLaid-upsert_object files bucket key m os new laid.1)
    ]

pub AllLaid-delete_object_row :
    (files : ℕ → List ℕ) (bucket key : Text) (os : List Object)
    → AllLaid files os
    → AllLaid files (delete_object_row bucket key os)
unfolding delete_object_row
AllLaid-delete_object_row files bucket key [] laid = tt
AllLaid-delete_object_row files bucket key (o ∷ os) laid = elim (Bool-cases (is_at bucket key o)) [
  | inl here ↦ rw (here, delete_object_row) laid.1
  | inr later ↦
      rw (later, delete_object_row) (laid.0, AllLaid-delete_object_row files bucket key os laid.1)
]

-- The row of an object is not a row of another key.
same_key-is_at :
    (bucket key : Text) (o : Object) → same_key bucket key o.bucket o.key ≡ is_at bucket key o
same_key-is_at bucket key o = ground (arith, text_eq_comm bucket o.bucket, text_eq_comm key o.key)

pub AreDistinct-upsert_object :
    (bucket key : Text) (m : Meta) (os : List Object)
    → AreDistinct os
    → AreDistinct (upsert_object bucket key m os)
unfolding upsert_object find_object
AreDistinct-upsert_object bucket key m [] d = (refl, tt)
AreDistinct-upsert_object bucket key m (o ∷ os) d = elim (Bool-cases (is_at bucket key o)) [
  | inl here ↦ rw (here, upsert_object) d
  | inr later ↦
      rw (later, upsert_object)
        (
          find_object-upsert_object bucket key o.bucket o.key m os
              ∙ rw (same_key-is_at bucket key o, later) d.0,
          AreDistinct-upsert_object bucket key m os d.1,
        )
]

pub AreDistinct-delete_object_row :
    (bucket key : Text) (os : List Object)
    → AreDistinct os
    → AreDistinct (delete_object_row bucket key os)
unfolding delete_object_row
AreDistinct-delete_object_row bucket key [] d = tt
AreDistinct-delete_object_row bucket key (o ∷ os) d = elim (Bool-cases (is_at bucket key o)) [
  | inl here ↦ rw (here, delete_object_row) d.1
  | inr later ↦
      rw (later, delete_object_row)
        (
          find_object-delete_object_row bucket key o.bucket o.key os
                (same_key-is_at bucket key o ∙ later)
              ∙ d.0,
          AreDistinct-delete_object_row bucket key os d.1,
        )
]

-- With distinct keys, a deleted key is gone.
pub find_object-delete_object_row_self :
    (bucket key : Text) (os : List Object)
    → AreDistinct os
    → find_object bucket key (delete_object_row bucket key os) ≡ none
unfolding delete_object_row find_object
find_object-delete_object_row_self bucket key [] d = refl
find_object-delete_object_row_self bucket key (o ∷ os) d = elim (Bool-cases (is_at bucket key o)) [
  | inl here ↦
      (let b : o.bucket ≡ bucket = text_eq→eq o.bucket bucket (ground (arith, here)) in
        let k : o.key ≡ key = text_eq→eq o.key key (ground (arith, here)) in
        rw (here, delete_object_row)
          (ap (λ t. find_object t key os) (sym b)
            ∙ ap (λ t. find_object o.bucket t os) (sym k)
            ∙ d.0))
  | inr later ↦
      rw (later, delete_object_row)
        (rw (later, find_object) (find_object-delete_object_row_self bucket key os d.1))
]
