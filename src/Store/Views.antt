-- ===== src/Store/Views.antt =====
-- What a client sees of the database: a map from keys to bytes. The calls of
-- crates/pgvs3/src/db.rs as updates of that map.
use lakewing.Prelude.{
  ℕ, ap₂, ◌≡◌, refl, sym, ap, ◌∙◌, Option, none, some, true, List, if◌then◌else◌, Bool-cases, inl,
  inr, arith,
}
use lakewing.Prelude.Text.{Text, text_eq→eq}
use lakewing.Cache.Meta.{Meta}
use lakewing.Store.Tables.{Db, Object, find_object, upsert_object, delete_object_row}
use lakewing.Store.Objects.{delete}
use lakewing.Store.Lookups.{same_key, find_object-upsert_object, find_object-delete_object_row}
use lakewing.Store.Published.{objects-reap_old}
use lakewing.Store.Sound.{IsSound, bytes_of, AreDistinct}
use lakewing.Store.Sound.Rows.{find_object-delete_object_row_self}

abbrev pub View : Type 0
View = Text → Text → Option (List ℕ)

abbrev pub body_at : (ℕ → List ℕ) → Option Meta → Option (List ℕ)
body_at files none = none
body_at files (some m) = some (bytes_of files m)

abbrev pub look : (ℕ → List ℕ) → List Object → View
look files os bucket key = body_at files (find_object bucket key os)

-- The bytes of the object at a key.
abbrev pub view : (ℕ → List ℕ) → Db → View
view files db = look files db.objects

abbrev pub set : Text → Text → Option (List ℕ) → View → View
set bucket key v old b k = if same_key bucket key b k then v else old b k

module _ (files : ℕ → List ℕ) (bucket key b k : Text) where
  pub look-upsert_object :
      (m : Meta) (os : List Object)
      → look files (upsert_object bucket key m os) b k
        ≡ set bucket key (some (bytes_of files m)) (look files os) b k
  look-upsert_object m os =
      ap (body_at files) (find_object-upsert_object bucket key b k m os)
      ∙ elim (Bool-cases (same_key bucket key b k)) [ inl h ↦ rw h refl | inr h ↦ rw h refl ]

  gone :
      same_key bucket key b k ≡ true
      → (os : List Object) → AreDistinct os
      → find_object b k (delete_object_row bucket key os) ≡ none
  gone h os d =
      let e : b ≡ bucket = sym (text_eq→eq bucket b (ground (arith, h))) in
      let f : k ≡ key = sym (text_eq→eq key k (ground (arith, h))) in
      ap₂ (λ x y. find_object x y (delete_object_row bucket key os)) e f
      ∙ find_object-delete_object_row_self bucket key os d

  look-delete_object_row :
      (os : List Object)
      → AreDistinct os
      → look files (delete_object_row bucket key os) b k ≡ set bucket key none (look files os) b k
  look-delete_object_row os d = elim (Bool-cases (same_key bucket key b k)) [
    | inl h ↦ rw h (ap (body_at files) (gone h os d))
    | inr h ↦ rw h (ap (body_at files) (find_object-delete_object_row bucket key b k os h))
  ]

  -- A deletion takes the key away and no other.
  pub view-delete :
      (used : List ℕ) (db : Db)
      → IsSound files used db
      → view files (delete bucket key db).1 b k ≡ set bucket key none (view files db) b k
  unfolding delete
  view-delete used db s =
      ap (λ os. look files os b k) (objects-reap_old (find_object bucket key db.objects) _)
      ∙ look-delete_object_row db.objects s.distinct
