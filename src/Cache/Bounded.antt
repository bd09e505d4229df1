-- ===== src/Cache/Bounded.antt =====
-- The size of the cache of crates/pgvs3/src/cache.rs, and its queue against its keys.
use lakewing.Prelude.{
  suc, ◌≤◌, ◌≡◌, refl, sym, ap, ◌∙◌, inl, inr, none, some, Bool, true, false, ◌||◌, List, [], ◌∷◌,
  ◌++◌, arith, length, Bool-cases,
}
use lakewing.Prelude.Text.{text_eq_refl, text_eq→eq}
use lakewing.Cache.Meta.{Meta}
use lakewing.Cache.Fifo.{
  meta_cap, CacheKey, key_eq, Entry, MetaCache, find_entry, insert_entry, remove_entry, retain,
}

pub key_eq_refl : (a : CacheKey) → key_eq a a ≡ true
unfolding key_eq
key_eq_refl a = ground (arith, text_eq_refl a.bucket, text_eq_refl a.key)

pub key_eq→eq : (a b : CacheKey) → key_eq a b ≡ true → a ≡ b
unfolding key_eq
key_eq→eq a b h = ground (arith, text_eq→eq a.bucket b.bucket, text_eq→eq a.key b.key)

abbrev pub mem_key : CacheKey → List CacheKey → Bool
mem_key k [] = false
mem_key k (a ∷ as') = key_eq a k || mem_key k as'

abbrev pub Distinct : List CacheKey → Type 0
Distinct [] = Unit
Distinct (a ∷ as') = (mem_key a as' ≡ false) × Distinct as'

abbrev pub keys : List Entry → List CacheKey
keys [] = []
keys (e ∷ es) = e.key ∷ keys es

-- The queue is the list of the cached keys, oldest first, with no key twice, and holds at most
-- META_CAP of them.
pub record IsBounded (c : MetaCache) : Type 0 where
  pub queued : keys c.entries ≡ c.order
  pub distinct : Distinct c.order
  pub bounded : length c.entries ≤ meta_cap

key_eq_sym : (a b : CacheKey) → key_eq a b ≡ true → key_eq b a ≡ true
key_eq_sym a b h = ap (λ t. key_eq t a) (sym (key_eq→eq a b h)) ∙ key_eq_refl a

pub length-keys : (es : List Entry) → length (keys es) ≡ length es
length-keys [] = refl
length-keys (e ∷ es) = ap suc (length-keys es)

pub keys-insert_old :
    (k : CacheKey) (m old : Meta) (es : List Entry)
    → find_entry k es ≡ some old
    → keys (insert_entry k m es) ≡ keys es
unfolding find_entry insert_entry
keys-insert_old k m old [] h = cc
keys-insert_old k m old (e ∷ es) h = ground (arith, keys-insert_old k m old es)

pub keys-insert_new :
    (k : CacheKey) (m : Meta) (es : List Entry)
    → find_entry k es ≡ none
    → keys (insert_entry k m es) ≡ keys es ++ (k ∷ [])
unfolding find_entry insert_entry
keys-insert_new k m [] h = refl
keys-insert_new k m (e ∷ es) h = ground (arith, keys-insert_new k m es)

pub mem_key-find_none :
    (k : CacheKey) (es : List Entry) → find_entry k es ≡ none → mem_key k (keys es) ≡ false
unfolding find_entry
mem_key-find_none k [] h = refl
mem_key-find_none k (e ∷ es) h = ground (arith, mem_key-find_none k es)

pub keys-remove_entry :
    (k : CacheKey) (es : List Entry) → keys (remove_entry k es) ≡ retain k (keys es)
unfolding remove_entry retain
keys-remove_entry k [] = refl
keys-remove_entry k (e ∷ es) = ground (arith, keys-remove_entry k es)

pub retain_absent : (k : CacheKey) (ks : List CacheKey) → mem_key k ks ≡ false → retain k ks ≡ ks
unfolding retain
retain_absent k [] h = refl
retain_absent k (a ∷ as') h = ground (arith, retain_absent k as')

mem_key-retain :
    (j k : CacheKey) (ks : List CacheKey) → mem_key j ks ≡ false → mem_key j (retain k ks) ≡ false
unfolding retain
mem_key-retain j k [] h = refl
mem_key-retain j k (a ∷ as') h = ground (arith, mem_key-retain j k as')

pub Distinct-retain : (k : CacheKey) (ks : List CacheKey) → Distinct ks → Distinct (retain k ks)
unfolding retain
Distinct-retain k [] d = tt
Distinct-retain k (a ∷ as') d = elim (Bool-cases (key_eq a k)) [
  | inl gone ↦ rw (gone, retain) (Distinct-retain k as' d.1)
  | inr kept ↦ rw (kept, retain) (mem_key-retain a k as' d.0, Distinct-retain k as' d.1)
]

pub length-retain-le : (k : CacheKey) (ks : List CacheKey) → length (retain k ks) ≤ length ks
unfolding retain
length-retain-le k [] = omega arith
length-retain-le k (a ∷ as') = ground (arith, length-retain-le k as')

mem_key-append_last :
    (j k : CacheKey) (ks : List CacheKey)
    → mem_key j (ks ++ (k ∷ [])) ≡ (mem_key j ks || key_eq k j)
mem_key-append_last j k [] = ground arith
mem_key-append_last j k (a ∷ as') = ground (arith, mem_key-append_last j k as')

pub Distinct-append_last :
    (k : CacheKey) (ks : List CacheKey)
    → mem_key k ks ≡ false
    → Distinct ks
    → Distinct (ks ++ (k ∷ []))
Distinct-append_last k [] h d = (refl, tt)
Distinct-append_last k (a ∷ as') h d = (
  ground (arith, mem_key-append_last a k as', key_eq_sym k a),
  Distinct-append_last k as' (ground arith) d.1,
)
