-- ===== src/Cache/Fifo.antt =====
-- `MetaCache` of crates/pgvs3/src/cache.rs. The lock makes each of the three operations run whole.
-- The source never iterates over its map, so the entries are kept in the order of their insertion.
use lakewing.Prelude.{
  ℕ, ◌^◌, Option, none, some, Bool, ◌&&◌, List, [], ◌∷◌, ◌++◌, length, ltb, if◌then◌else◌,
}
use lakewing.Prelude.Text.{Text, text_eq}
use lakewing.Cache.Meta.{Meta}

-- `META_CAP`
unfoldable pub meta_cap : ℕ
meta_cap = 2 ^ 18

-- `(bucket, key)`
pub record CacheKey : Type 0 where
  pub bucket : Text
  pub key : Text

unfoldable pub key_eq : CacheKey → CacheKey → Bool
key_eq a b = text_eq a.bucket b.bucket && text_eq a.key b.key

pub record Entry : Type 0 where
  pub key : CacheKey
  pub meta : Meta

pub record MetaCache : Type 0 where
  pub entries : List Entry
  pub order : List CacheKey

abbrev pub empty_cache : MetaCache
empty_cache = record { entries = []; order = [] }

-- `map.get`
unfoldable pub find_entry : CacheKey → List Entry → Option Meta
find_entry k [] = none
find_entry k (e ∷ es) = if key_eq e.key k then some e.meta else find_entry k es

-- `map.insert`
unfoldable pub insert_entry : CacheKey → Meta → List Entry → List Entry
insert_entry k m [] = record { key = k; meta = m } ∷ []
insert_entry k m (e ∷ es) =
    if key_eq e.key k then record e { meta = m } ∷ es else e ∷ insert_entry k m es

-- `map.remove`
unfoldable pub remove_entry : CacheKey → List Entry → List Entry
remove_entry k [] = []
remove_entry k (e ∷ es) = let rest = remove_entry k es in if key_eq e.key k then rest else e ∷ rest

-- `order.retain(|entry| entry != &k)`
unfoldable pub retain : CacheKey → List CacheKey → List CacheKey
retain k [] = []
retain k (a ∷ as') = let rest = retain k as' in if key_eq a k then rest else a ∷ rest

-- `meta_get`
unfoldable pub meta_get : CacheKey → MetaCache → Option Meta
meta_get k c = find_entry k c.entries

-- The eviction in `meta_put`.
unfoldable pub evict : MetaCache → MetaCache
evict c =
    if ltb meta_cap (length c.entries)
    then (elim c.order [
      | [] ↦ c
      | old ∷ rest ↦ record { entries = remove_entry old c.entries; order = rest }
    ])
    else c

-- `meta_put`
unfoldable pub meta_put : CacheKey → Meta → MetaCache → MetaCache
meta_put k m c =
    let entries = insert_entry k m c.entries in
    elim (find_entry k c.entries) [
      | some old ↦ record c { entries = entries }
      | none ↦ evict (record { entries = entries; order = c.order ++ (k ∷ []) })
    ]

-- `meta_invalidate`
unfoldable pub meta_invalidate : CacheKey → MetaCache → MetaCache
meta_invalidate k c = elim (find_entry k c.entries) [
  | none ↦ c
  | some old ↦ record { entries = remove_entry k c.entries; order = retain k c.order }
]
