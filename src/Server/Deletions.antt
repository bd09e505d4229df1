-- ===== src/Server/Deletions.antt =====
-- The loop of deletions of `delete_objects` of crates/pgvs3/src/server.rs, each of which may fail.
use lakewing.Prelude.{
  ℕ, suc, ◌≡◌, ◌≢◌, ◌⊎◌, refl, ap, sym, ◌∙◌, Bool, none, some, List, [], ◌∷◌, ◌++◌, length,
  if◌then◌else◌, Option-cases, inl, inr,
}
use lakewing.Prelude.Text.{Text}
use lakewing.Cache.Fifo.{MetaCache}
use lakewing.Store.Tables.{Db}
use lakewing.Store.Objects.{delete}
use lakewing.Store.Cached.{delete_cached}
use lakewing.Server.Objects.{
  S3Result, ok, err, internal_error, ObjectIdentifier, Deletion, answered, rolled_back, answer_lost,
  try_delete, delete_all,
}

-- The database and the cache after the objects were deleted one after the other.
abbrev pub each_deleted : Text → List ObjectIdentifier → Db × MetaCache → Db × MetaCache
each_deleted bucket [] s = s
each_deleted bucket (o ∷ os) (db, c) =
    let (f, db', c') = delete_cached bucket o.key db c in each_deleted bucket os (db', c')

abbrev pub keys_of : Bool → List ObjectIdentifier → List Text
keys_of quiet [] = []
keys_of quiet (o ∷ os) = if quiet then keys_of quiet os else o.key ∷ keys_of quiet os

-- The first `n` deletions are answered.
abbrev pub AllAnswered : (ℕ → Deletion) → List ObjectIdentifier → Type 0
AllAnswered ends [] = Unit
AllAnswered ends (o ∷ os) = (ends 0 ≡ answered) × AllAnswered (λ n. ends (suc n)) os

abbrev pub answer_with :
    S3Result (List Text) → Db × MetaCache → S3Result (List Text) × Db × MetaCache
answer_with r (db, c) = (r, db, c)

-- Every deletion was answered and took place.
pub record IsWhole (ends : ℕ → Deletion) (bucket : Text) (quiet : Bool)
    (objects : List ObjectIdentifier) (s : Db × MetaCache)
    (r : S3Result (List Text) × Db × MetaCache) : Type 0 where
  pub went : AllAnswered ends objects
  pub result : r ≡ answer_with (ok (keys_of quiet objects)) (each_deleted bucket objects s)

-- What a deletion that fails leaves.
abbrev pub failed_at : Deletion → Text → ObjectIdentifier → Db × MetaCache → Db × MetaCache
failed_at answered bucket o (db, c) = (db, c)
failed_at rolled_back bucket o (db, c) = (db, c)
failed_at answer_lost bucket o (db, c) = ((delete bucket o.key db).1, c)

-- The deletion of `at` failed and those before it were answered; none behind it was tried.
pub record IsCut (ends : ℕ → Deletion) (bucket : Text) (objects : List ObjectIdentifier)
    (s : Db × MetaCache) (r : S3Result (List Text) × Db × MetaCache) : Type 0 where
  pub before : List ObjectIdentifier
  pub at : ObjectIdentifier
  pub behind : List ObjectIdentifier
  pub split : objects ≡ before ++ (at ∷ behind)
  pub went : AllAnswered ends before
  pub fails : ends (length before) ≢ answered
  pub result :
      r
      ≡ answer_with
          (err internal_error)
          (failed_at (ends (length before)) bucket at (each_deleted bucket before s))

Deletion-cases : (e : Deletion) → (e ≡ answered) ⊎ (e ≡ rolled_back) ⊎ (e ≡ answer_lost)
Deletion-cases answered = inl refl
Deletion-cases rolled_back = inr (inl refl)
Deletion-cases answer_lost = inr (inr refl)

abbrev behind_first : (ℕ → Deletion) → ℕ → Deletion
behind_first ends n = ends (suc n)

-- What the loop makes of the rest of its work, when a deletion was answered.
abbrev kept :
    Bool → Text → S3Result (List Text) × Db × MetaCache → S3Result (List Text) × Db × MetaCache
kept quiet key (ok keys, db, c) = (ok (if quiet then keys else key ∷ keys), db, c)
kept quiet key (err e, db, c) = (err e, db, c)

module _ (bucket : Text) (quiet : Bool) where
  -- A round of the loop whose deletion ends as `d`.
  abbrev round :
      (ℕ → Deletion)
      → ObjectIdentifier
      → List ObjectIdentifier
      → Db
      → MetaCache
      → Deletion
      → S3Result (List Text) × Db × MetaCache
  round ends o os db c d =
      let (answer, db', c') = try_delete d bucket o.key db c in
      elim answer [
        | none ↦ (err internal_error, db', c')
        | some f ↦ kept quiet o.key (delete_all (behind_first ends) bucket quiet os db' c')
      ]

  delete_all-round :
      (ends : ℕ → Deletion) (o : ObjectIdentifier) (os : List ObjectIdentifier) (db : Db)
      (c : MetaCache)
      → delete_all ends bucket quiet (o ∷ os) db c ≡ round ends o os db c (ends 0)
  unfolding delete_all try_delete
  delete_all-round ends o os db c = elim (Option-cases (try_delete (ends 0) bucket o.key db c).0) [
    | inl e ↦ rw (e, delete_all, round) refl
    | inr (f, e) ↦
        rw (e, delete_all, round)
          (settle (
            delete_all (behind_first ends) bucket quiet os (try_delete (ends 0) bucket o.key db c).1
              (try_delete (ends 0) bucket o.key db c).2))
  ]
    where
      settle :
          (t : S3Result (List Text) × Db × MetaCache)
          → elim t.0 [
            | err e ↦ (err e, t.1, t.2)
            | ok keys ↦ (ok (if quiet then keys else o.key ∷ keys), t.1, t.2)
          ]
            ≡ kept quiet o.key t
      settle (ok keys, db', c') = refl
      settle (err e, db', c') = refl

  delete_all-kept :
      (ends : ℕ → Deletion) (o : ObjectIdentifier) (os : List ObjectIdentifier) (db : Db)
      (c : MetaCache)
      → ends 0 ≡ answered
      → delete_all ends bucket quiet (o ∷ os) db c
        ≡ kept quiet o.key (
            delete_all
              (behind_first ends)
              bucket
              quiet
              os
              (delete_cached bucket o.key db c).1
              (delete_cached bucket o.key db c).2)
  unfolding try_delete
  delete_all-kept ends o os db c e = delete_all-round ends o os db c ∙ ap (round ends o os db c) e

  delete_all-answered :
      (ends : ℕ → Deletion) (o : ObjectIdentifier) (os : List ObjectIdentifier) (db : Db)
      (c : MetaCache)
      → ends 0 ≡ answered
      → IsWhole (behind_first ends) bucket quiet os (each_deleted bucket (o ∷ []) (db, c)) (
          delete_all
            (behind_first ends)
            bucket
            quiet
            os
            (delete_cached bucket o.key db c).1
            (delete_cached bucket o.key db c).2)
        ⊎ IsCut (behind_first ends) bucket os (each_deleted bucket (o ∷ []) (db, c)) (
            delete_all
              (behind_first ends)
              bucket
              quiet
              os
              (delete_cached bucket o.key db c).1
              (delete_cached bucket o.key db c).2)
      → IsWhole ends bucket quiet (o ∷ os) (db, c) (delete_all ends bucket quiet (o ∷ os) db c)
        ⊎ IsCut ends bucket (o ∷ os) (db, c) (delete_all ends bucket quiet (o ∷ os) db c)
  delete_all-answered ends o os db c e (inl whole) = inl (record {
    went = (e, whole.went);
    result = delete_all-kept ends o os db c e ∙ ap (kept quiet o.key) whole.result;
  })
  delete_all-answered ends o os db c e (inr cut) = inr (record {
    before = o ∷ cut.before;
    at = cut.at;
    behind = cut.behind;
    split = ap (λ t. o ∷ t) cut.split;
    went = (e, cut.went);
    fails = cut.fails;
    result = delete_all-kept ends o os db c e ∙ ap (kept quiet o.key) cut.result;
  })

  delete_all-failed :
      (ends : ℕ → Deletion) (o : ObjectIdentifier) (os : List ObjectIdentifier) (db : Db)
      (c : MetaCache) (d : Deletion)
      → d ≢ answered
      → ends 0 ≡ d
      → delete_all ends bucket quiet (o ∷ os) db c
        ≡ answer_with (err internal_error) (failed_at (ends 0) bucket o (db, c))
  unfolding try_delete
  delete_all-failed ends o os db c answered fails e = absurd (fails refl)
  delete_all-failed ends o os db c rolled_back fails e =
      delete_all-round ends o os db c
      ∙ ap (round ends o os db c) e
      ∙ ap (λ d. answer_with (err internal_error) (failed_at d bucket o (db, c))) (sym e)
  delete_all-failed ends o os db c answer_lost fails e =
      delete_all-round ends o os db c
      ∙ ap (round ends o os db c) e
      ∙ ap (λ d. answer_with (err internal_error) (failed_at d bucket o (db, c))) (sym e)

  delete_all-IsCut :
      (ends : ℕ → Deletion) (o : ObjectIdentifier) (os : List ObjectIdentifier) (db : Db)
      (c : MetaCache) (d : Deletion)
      → d ≢ answered
      → ends 0 ≡ d
      → IsCut ends bucket (o ∷ os) (db, c) (delete_all ends bucket quiet (o ∷ os) db c)
  delete_all-IsCut ends o os db c d fails e = record {
    before = [];
    at = o;
    behind = os;
    split = refl;
    went = tt;
    fails = λ h. fails (sym e ∙ h);
    result = delete_all-failed ends o os db c d fails e;
  }

  -- The loop deletes every object, or stops at the first deletion that fails.
  pub delete_all-cases :
      (ends : ℕ → Deletion) (objects : List ObjectIdentifier) (db : Db) (c : MetaCache)
      → IsWhole ends bucket quiet objects (db, c) (delete_all ends bucket quiet objects db c)
        ⊎ IsCut ends bucket objects (db, c) (delete_all ends bucket quiet objects db c)
  unfolding delete_all
  delete_all-cases ends [] db c = inl (record { went = tt; result = refl })
  delete_all-cases ends (o ∷ os) db c = elim (Deletion-cases (ends 0)) [
    | inl e ↦ delete_all-answered ends o os db c e (
        delete_all-cases (behind_first ends) os (delete_cached bucket o.key db c).1
          (delete_cached bucket o.key db c).2)
    | inr (inl e) ↦ inr (delete_all-IsCut ends o os db c rolled_back (λ h. cc) e)
    | inr (inr e) ↦ inr (delete_all-IsCut ends o os db c answer_lost (λ h. cc) e)
  ]
