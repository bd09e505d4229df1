-- ===== src/Store/Sound.antt =====
-- The invariant of the database that the operations of crates/pgvs3/src/db.rs keep: who owns which
-- file, what the chunk table holds, and how objects lie in their files. `files n` is the body that
-- the writer of file `n` was given.
pub mod Rows
pub mod Swaps
pub mod Puts
pub mod Parts
pub mod Completes
pub mod Runs
use lakewing.Prelude.{
  ℕ, ◌+◌, ◌≤◌, ◌<◌, ◌≡◌, refl, sym, ap, subst, ◌∙◌, Option, none, some, Bool, true, false, List, [],
  ◌∷◌, ◌++◌, arith, length, ltb, if◌then◌else◌, Bool-cases, inl, inr,
}
use lakewing.Prelude.Text.{Text}
use lakewing.Cache.Meta.{Meta, Segment, segments}
use lakewing.Ingest.Format.{CopyRow}
use lakewing.Read.Cover.{IsStoredFrom}
use lakewing.Store.Tables.{Db, Object, UploadPart, is_at, find_object, mem_id}
use lakewing.Store.Stored.{HoldsSegments, IsStored}
use lakewing.Store.Multipart.{AllSized}
use lakewing.Store.Owners.{
  count_id, ids_of, count_old, count_objects, owners, mem_id-count_id, IsHeaded,
}
use lakewing.Store.Held.{Held, Held-HoldsFile}

abbrev pub file_bytes : (ℕ → List ℕ) → List ℕ → List ℕ
file_bytes files [] = []
file_bytes files (id ∷ ids) = files id ++ file_bytes files ids

-- The bytes of an object.
abbrev pub bytes_of : (ℕ → List ℕ) → Meta → List ℕ
bytes_of files m = file_bytes files (ids_of m)

-- The segments lie in the named files.
abbrev pub NamedIn : List ℕ → List Segment → Type 0
NamedIn ids [] = Unit
NamedIn ids (g ∷ gs) = (mem_id g.file_id ids ≡ true) × NamedIn ids gs

-- The metadata lays the object's bytes out in its files.
pub record IsLaid (files : ℕ → List ℕ) (m : Meta) : Type 0 where
  pub headed : IsHeaded m
  pub laid : IsStoredFrom (bytes_of files m) files 0 (segments m)
  pub named : NamedIn (ids_of m) (segments m)
  pub size_ok : m.size ≡ length (bytes_of files m)

abbrev pub AllLaid : (ℕ → List ℕ) → List Object → Type 0
AllLaid files [] = Unit
AllLaid files (o ∷ os) = IsLaid files o.meta × AllLaid files os

-- No two objects have the same key.
abbrev pub AreDistinct : List Object → Type 0
AreDistinct [] = Unit
AreDistinct (o ∷ os) = (find_object o.bucket o.key os ≡ none) × AreDistinct os

-- `used` are the file ids that writers have used.
pub record IsSound (files : ℕ → List ℕ) (used : List ℕ) (db : Db) : Type 0 where
  pub once : (n : ℕ) → owners db n ≤ 1
  pub fresh : (n : ℕ) → mem_id n used ≡ false → owners db n ≡ 0
  pub held : Held files db.chunks (owners db)
  pub laid : AllLaid files db.objects
  pub sized : AllSized files db.upload_parts
  pub distinct : AreDistinct db.objects

pub find_object-IsLaid :
    (files : ℕ → List ℕ) (bucket key : Text) (m : Meta) (os : List Object)
    → AllLaid files os
    → find_object bucket key os ≡ some m
    → IsLaid files m
unfolding find_object
find_object-IsLaid files bucket key m [] laid h = cc
find_object-IsLaid files bucket key m (o ∷ os) laid h = elim (Bool-cases (is_at bucket key o)) [
  | inl here ↦ (let e : o.meta ≡ m = ground (arith, h, here) in subst (IsLaid files) e laid.0)
  | inr later ↦ find_object-IsLaid files bucket key m os laid.1 (ground (arith, h, later))
]

pub count_old-le :
    (n : ℕ) (bucket key : Text) (os : List Object)
    → count_old n (find_object bucket key os) ≤ count_objects n os
unfolding find_object
count_old-le n bucket key [] = omega arith
count_old-le n bucket key (o ∷ os) = elim (Bool-cases (is_at bucket key o)) [
  | inl here ↦ rw (here, find_object) (omega arith)
  | inr later ↦ rw (later, find_object) (omega (arith, count_old-le n bucket key os))
]

module _ (files : ℕ → List ℕ) where
  named-HoldsSegments :
      (cs : List CopyRow) (own : ℕ → ℕ) (ids : List ℕ) (gs : List Segment)
      → NamedIn ids gs
      → ((n : ℕ) → mem_id n ids ≡ true → 0 < own n)
      → Held files cs own
      → HoldsSegments cs files gs
  named-HoldsSegments cs own ids [] named owned held = tt
  named-HoldsSegments cs own ids (g ∷ gs) (here, more) owned held = (
    Held-HoldsFile files cs own g.file_id (owned g.file_id here) held,
    named-HoldsSegments cs own ids gs more owned held,
  )

  -- Every object of a sound database is stored.
  pub find_object-IsStored :
      (used : List ℕ) (bucket key : Text) (db : Db) (m : Meta)
      → IsSound files used db
      → find_object bucket key db.objects ≡ some m
      → IsStored db.chunks m (bytes_of files m)
  find_object-IsStored used bucket key db m s there =
      let l : IsLaid files m = find_object-IsLaid files bucket key m db.objects s.laid there in
      record {
        files = files;
        laid = l.laid;
        held =
            named-HoldsSegments db.chunks (owners db) (ids_of m) (segments m) l.named
              (λ n here.
                let a : count_old n (find_object bucket key db.objects)
                    ≤ count_objects n db.objects =
                  count_old-le n bucket key db.objects in
                let b : count_old n (find_object bucket key db.objects) ≡ count_id n (ids_of m) =
                  ap (count_old n) there in
                let c : ltb 0 (count_id n (ids_of m)) ≡ true =
                  sym (mem_id-count_id n (ids_of m)) ∙ here in
                ground (arith, a, b, c))
              s.held;
        size_ok = l.size_ok;
      }
