-- ===== src/Server/Keys.antt =====
-- What the query of `list` of crates/pgvs3/src/db.rs selects after a key.
use lakewing.Prelude.{
  ℕ, zero, suc, ◌≡◌, refl, ap, ◌∙◌, Bool, false, ◌||◌, List, [], ◌∷◌, take, arith, Bool-cases, inl,
  inr,
}
use lakewing.Prelude.Text.{Text, text_eq, text_lt, text_eq→eq}
use lakewing.Store.Tables.{Object, Db}
use lakewing.Server.Listing.{Listed, in_range, select_keys, insert_key, sort_keys, list}

text_lt_irrefl : (a : Text) → text_lt a a ≡ false
unfolding text_lt
text_lt_irrefl [] = refl
text_lt_irrefl (c ∷ cs) = ground (arith, text_lt_irrefl cs)

-- Some row has the key.
unfoldable pub has_key : Text → List Listed → Bool
has_key key [] = false
has_key key (r ∷ rs) = text_eq r.key key || has_key key rs

has_key-select_keys :
    (bucket prefix bound key : Text) (os : List Object)
    → has_key key (select_keys bucket prefix bound key os) ≡ false
unfolding has_key select_keys in_range
has_key-select_keys bucket prefix bound key [] = refl
has_key-select_keys bucket prefix bound key (o ∷ os) = elim (Bool-cases (text_eq o.key key)) [
  | inl same ↦
      let later : text_lt key o.key ≡ false =
        ap (text_lt key) (text_eq→eq o.key key same) ∙ text_lt_irrefl key in
      ground (arith, later, has_key-select_keys bucket prefix bound key os)
  | inr other ↦ ground (arith, other, has_key-select_keys bucket prefix bound key os)
]

has_key-insert_key :
    (key : Text) (r : Listed) (rs : List Listed)
    → has_key key (insert_key r rs) ≡ (text_eq r.key key || has_key key rs)
unfolding has_key insert_key
has_key-insert_key key r [] = refl
has_key-insert_key key r (s ∷ ss) = ground (arith, has_key-insert_key key r ss)

has_key-sort_keys : (key : Text) (rs : List Listed) → has_key key (sort_keys rs) ≡ has_key key rs
unfolding has_key sort_keys
has_key-sort_keys key [] = refl
has_key-sort_keys key (r ∷ rs) =
    has_key-insert_key key r (sort_keys rs)
    ∙ ap (λ b. text_eq r.key key || b) (has_key-sort_keys key rs)

has_key-take :
    (key : Text) (n : ℕ) (rs : List Listed)
    → has_key key rs ≡ false
    → has_key key (take n rs) ≡ false
unfolding has_key
has_key-take key zero rs h = refl
has_key-take key (suc n) [] h = refl
has_key-take key (suc n) (r ∷ rs) h = ground (arith, h, has_key-take key n rs)

-- A query that starts after a key does not select the key.
pub has_key-list :
    (bucket prefix bound key : Text) (limit : ℕ) (db : Db)
    → has_key key (list bucket prefix bound key limit db) ≡ false
unfolding list
has_key-list bucket prefix bound key limit db =
    has_key-take key limit (sort_keys (select_keys bucket prefix bound key db.objects)) (
      has_key-sort_keys key (select_keys bucket prefix bound key db.objects)
      ∙ has_key-select_keys bucket prefix bound key db.objects)
