-- ===== src/Store/Reached.antt =====
-- The databases that calls of the operations of crates/pgvs3/src/db.rs reach from the empty layout.
use lakewing.Store.Sound.Puts.{older, not_new}
use lakewing.Prelude.{ℕ, ◌≡◌, ◌==◌, ◌∙◌, refl, Option, true, false, List, [], ◌∷◌, arith}
use lakewing.Ingest.{Digest}
use lakewing.Ingest.Format.{CopyRow}
use lakewing.Store.Tables.{select_rows, mem_id}
use lakewing.Store.Sound.{IsSound}
use lakewing.Store.Calls.{
  Call, creates_bucket, deletes_bucket, writes, deletes, creates_upload, completes, aborts, calls,
  body_of, empty_db, AllNew,
}
use lakewing.Store.Kept.{AllReadable, AllGiven, calls-IsSound, used_by_all}

module _ (d : Digest) (copy_in : List ℕ → Option (List CopyRow)) where
  -- No id is used twice, so each file is that of one writer.
  pub AllGiven-body_of :
      (files : ℕ → List ℕ) (used : List ℕ) (cs : List Call)
      → AllNew used cs
      → ((n : ℕ) → mem_id n used ≡ false → files n ≡ body_of cs n)
      → AllGiven d copy_in files cs
  unfolding body_of mem_id
  AllGiven-body_of files used [] new same = tt
  AllGiven-body_of files used (writes file_id target now chunks failed ∷ cs) new same = (
    (let here : (file_id == file_id) ≡ true = ground arith in
        same file_id new.0 ∙ rw (here, body_of) refl),
    AllGiven-body_of files (file_id ∷ used) cs new.1 (λ n later.
        let other : (file_id == n) ≡ false = not_new used file_id n later in
        same n (older used file_id n later) ∙ rw (other, body_of) refl),
  )
  AllGiven-body_of files used (creates_bucket name now ∷ cs) new same =
      (tt, AllGiven-body_of files used cs new same)
  AllGiven-body_of files used (deletes_bucket name ∷ cs) new same =
      (tt, AllGiven-body_of files used cs new same)
  AllGiven-body_of files used (deletes bucket key ∷ cs) new same =
      (tt, AllGiven-body_of files used cs new same)
  AllGiven-body_of files used (creates_upload uuid bucket key now ∷ cs) new same =
      (tt, AllGiven-body_of files used cs new same)
  AllGiven-body_of files used (completes upload_id bucket key listed now ∷ cs) new same =
      (tt, AllGiven-body_of files used cs new same)
  AllGiven-body_of files used (aborts upload_id bucket key ∷ cs) new same =
      (tt, AllGiven-body_of files used cs new same)

  pub empty_db-IsSound : (files : ℕ → List ℕ) → IsSound files [] empty_db
  unfolding select_rows
  empty_db-IsSound files = record {
    once = λ n. omega arith;
    fresh = λ n above. refl;
    held = λ p. ground arith;
    laid = tt;
    sized = tt;
    distinct = tt;
  }

  -- Every database that calls reach from the empty layout is sound, if no file id is given twice,
  -- every body has at most 2^31 rows and PostgreSQL reads the COPY stream of these rows as these
  -- rows: no two objects or parts share a file, the chunk table holds exactly the files that they
  -- own, and the metadata of every object lays out the bodies that its writers were given.
  pub calls-IsSound_empty :
      (cs : List Call)
      → AllNew [] cs
      → AllReadable d copy_in cs
      → IsSound (body_of cs) (used_by_all d copy_in cs []) (calls d copy_in cs empty_db)
  calls-IsSound_empty cs new reads =
      calls-IsSound d copy_in (body_of cs) [] cs empty_db reads
        (AllGiven-body_of (body_of cs) [] cs new (λ n above. refl)) new
        (empty_db-IsSound (body_of cs))
