-- ===== src/Store/Isolation.antt =====
-- `delete` of crates/pgvs3/src/db.rs, and the stored objects of the other keys.
use lakewing.Prelude.{ℕ, ◌≡◌, refl, ap, ◌∙◌, Option, none, some, false, List, [], ◌∷◌}
use lakewing.Prelude.Text.{Text}
use lakewing.Cache.Meta.{Meta, Segment, segments}
use lakewing.Ingest.Format.{CopyRow}
use lakewing.Store.Tables.{Db, find_object, delete_object_row, delete_chunks, mem_id}
use lakewing.Store.Objects.{dead_files, reap_old, delete}
use lakewing.Store.Files.{HoldsFile-delete_chunks}
use lakewing.Store.Lookups.{same_key, find_object-delete_object_row}
use lakewing.Store.Stored.{HoldsSegments, IsStored}
use lakewing.Store.Published.{objects-reap_old}

-- No segment is in one of the files.
abbrev pub Avoids : List ℕ → List Segment → Type 0
Avoids dead [] = Unit
Avoids dead (g ∷ gs) = (mem_id g.file_id dead ≡ false) × Avoids dead gs

HoldsSegments-delete_chunks :
    (dead : List ℕ) (cs : List CopyRow) (files : ℕ → List ℕ) (gs : List Segment)
    → Avoids dead gs
    → HoldsSegments cs files gs
    → HoldsSegments (delete_chunks dead cs) files gs
HoldsSegments-delete_chunks dead cs files [] a h = tt
HoldsSegments-delete_chunks dead cs files (g ∷ gs) (other, later) (held, more) = (
  HoldsFile-delete_chunks dead cs g.file_id (files g.file_id) other held,
  HoldsSegments-delete_chunks dead cs files gs later more,
)

reap_old-IsStored :
    (old : Option Meta) (db : Db) (m : Meta) (obj : List ℕ)
    → ((r : Meta) → old ≡ some r → Avoids (dead_files r) (segments m))
    → IsStored db.chunks m obj
    → IsStored (reap_old old db).chunks m obj
unfolding reap_old
reap_old-IsStored none db m obj other s = s
reap_old-IsStored (some r) db m obj other s = record {
  files = s.files;
  laid = s.laid;
  held =
      HoldsSegments-delete_chunks (dead_files r) db.chunks s.files (segments m) (other r refl)
        s.held;
  size_ok = s.size_ok;
}

-- Deleting a key leaves every other key's object findable and its bytes stored, if the two objects
-- have no file in common.
pub delete-IsStored :
    (bucket key b k : Text) (db : Db) (m : Meta) (obj : List ℕ)
    → same_key bucket key b k ≡ false
    → find_object b k db.objects ≡ some m
    → ((r : Meta) → find_object bucket key db.objects ≡ some r → Avoids (dead_files r) (segments m))
    → IsStored db.chunks m obj
    → (find_object b k (delete bucket key db).1.objects ≡ some m)
      × IsStored (delete bucket key db).1.chunks m obj
unfolding delete
delete-IsStored bucket key b k db m obj different there other s =
    let old = find_object bucket key db.objects in
    let db' : Db = record db { objects = delete_object_row bucket key db.objects } in
    (
      ap (find_object b k) (objects-reap_old old db')
          ∙ find_object-delete_object_row bucket key b k db.objects different
          ∙ there,
      reap_old-IsStored old db' m obj other s,
    )
