-- ===== src/Store/Lookups.antt =====
-- Lookups after writes in `s3p.objects`.
use lakewing.Prelude.{
  ◌≡◌, refl, ap, ap₂, sym, some, Bool, true, false, ◌&&◌, List, [], ◌∷◌, arith, if◌then◌else◌,
  Bool-cases, inl, inr,
}
use lakewing.Prelude.Text.{Text, text_eq, text_eq_refl, text_eq→eq}
use lakewing.Cache.Meta.{Meta}
use lakewing.Store.Tables.{Object, is_at, find_object, upsert_object, delete_object_row}

abbrev pub same_key : Text → Text → Text → Text → Bool
same_key bucket key b k = text_eq bucket b && text_eq key k

text_eq_trans : (a b c : Text) → text_eq a b ≡ true → text_eq b c ≡ text_eq a c
text_eq_trans a b c h = ap (λ t. text_eq t c) (sym (text_eq→eq a b h))

-- A row of one key is a row of another exactly if the keys are equal.
is_at_same :
    (bucket key b k : Text) (o : Object)
    → is_at bucket key o ≡ true
    → is_at b k o ≡ same_key bucket key b k
is_at_same bucket key b k o h =
    ground (arith, text_eq_trans o.bucket bucket b, text_eq_trans o.key key k)

is_at_cong :
    (bucket key b k : Text) (o : Object)
    → same_key bucket key b k ≡ true
    → is_at bucket key o ≡ is_at b k o
is_at_cong bucket key b k o h =
    ap₂ (λ s t. text_eq o.bucket s && text_eq o.key t) (text_eq→eq bucket b (ground arith))
      (text_eq→eq key k (ground arith))

pub find_object-upsert_object :
    (bucket key b k : Text) (m : Meta) (os : List Object)
    → find_object b k (upsert_object bucket key m os)
      ≡ (if same_key bucket key b k then some m else find_object b k os)
unfolding find_object upsert_object
find_object-upsert_object bucket key b k m [] = refl
find_object-upsert_object bucket key b k m (o ∷ os) = elim (Bool-cases (is_at bucket key o)) [
  | inl here ↦ ground (arith, is_at_same bucket key b k o here)
  | inr later ↦
      ground (arith, is_at_cong bucket key b k o, find_object-upsert_object bucket key b k m os)
]

pub find_object-upsert_object_self :
    (bucket key : Text) (m : Meta) (os : List Object)
    → find_object bucket key (upsert_object bucket key m os) ≡ some m
find_object-upsert_object_self bucket key m os = ground (
  arith,
  find_object-upsert_object bucket key bucket key m os,
  text_eq_refl bucket,
  text_eq_refl key,
)

pub find_object-delete_object_row :
    (bucket key b k : Text) (os : List Object)
    → same_key bucket key b k ≡ false
    → find_object b k (delete_object_row bucket key os) ≡ find_object b k os
unfolding find_object delete_object_row
find_object-delete_object_row bucket key b k [] other = refl
find_object-delete_object_row bucket key b k (o ∷ os) other =
    elim (Bool-cases (is_at bucket key o)) [
      | inl here ↦ ground (arith, is_at_same bucket key b k o here)
      | inr later ↦ ground (arith, find_object-delete_object_row bucket key b k os other)
    ]
