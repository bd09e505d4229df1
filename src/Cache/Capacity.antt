-- ===== src/Cache/Capacity.antt =====
-- `meta_put` and `meta_invalidate` of crates/pgvs3/src/cache.rs on the size and the queue of the
-- cache.
use lakewing.Prelude.{
  suc, ◌≤◌, ◌≡◌, refl, sym, ap, ◌∙◌, subst, inl, inr, none, some, false, List, [], ◌∷◌, ◌++◌, arith,
  length, Bool-cases, Option-cases, ltb,
}
use lakewing.Cache.Meta.{Meta}
use lakewing.Cache.Fifo.{
  meta_cap, CacheKey, Entry, MetaCache, find_entry, insert_entry, remove_entry, retain, evict,
  meta_put, meta_get, meta_invalidate,
}
use lakewing.Cache.Bounded.{
  key_eq_refl, Distinct, keys, IsBounded, length-keys, keys-insert_old, keys-insert_new,
  mem_key-find_none, keys-remove_entry, retain_absent, Distinct-retain, length-retain-le,
  Distinct-append_last, mem_key,
}

length_same :
    (es fs : List Entry) (ks : List CacheKey) → keys fs ≡ ks → keys es ≡ ks → length es ≡ length fs
length_same es fs ks f e = sym (length-keys es) ∙ ap length (e ∙ sym f) ∙ length-keys fs

retain_first : (k : CacheKey) (ks : List CacheKey) → mem_key k ks ≡ false → retain k (k ∷ ks) ≡ ks
unfolding retain
retain_first k ks h = rw (key_eq_refl k) (retain_absent k ks h)

evict-IsBounded :
    (es : List Entry) (ks : List CacheKey)
    → keys es ≡ ks
    → Distinct ks
    → length es ≤ suc meta_cap
    → IsBounded (evict (record { entries = es; order = ks }))
unfolding evict
evict-IsBounded es [] q d b = elim (Bool-cases (ltb meta_cap (length es))) [
  | inl over ↦ rw over (record {
    queued = q;
    distinct = d;
    bounded = (let e : length es ≡ 0 = sym (length-keys es) ∙ ap length q in omega (arith, e));
  })
  | inr fits ↦ rw fits (record { queued = q; distinct = d; bounded = ground arith })
]
evict-IsBounded es (old ∷ rest) q d b = elim (Bool-cases (ltb meta_cap (length es))) [
  | inl over ↦
      let left : keys (remove_entry old es) ≡ rest =
        keys-remove_entry old es ∙ ap (retain old) q ∙ retain_first old rest d.0 in
      let n : length (remove_entry old es) ≡ length rest =
        sym (length-keys (remove_entry old es)) ∙ ap length left in
      let m : length es ≡ suc (length rest) = sym (length-keys es) ∙ ap length q in
      rw over (record { queued = left; distinct = d.1; bounded = omega arith })
  | inr fits ↦ rw fits (record { queued = q; distinct = d; bounded = ground arith })
]

length-append_last : (k : CacheKey) (ks : List CacheKey) → length (ks ++ (k ∷ [])) ≡ suc (length ks)
length-append_last k [] = refl
length-append_last k (a ∷ as') = ap suc (length-append_last k as')

-- Putting an entry keeps the cache within META_CAP entries, its queue listing exactly its keys,
-- each once.
pub meta_put-IsBounded :
    (k : CacheKey) (m : Meta) (c : MetaCache) → IsBounded c → IsBounded (meta_put k m c)
unfolding meta_put
meta_put-IsBounded k m c w = elim (Option-cases (find_entry k c.entries)) [
  | inl new ↦
      let q : keys (insert_entry k m c.entries) ≡ c.order ++ (k ∷ []) =
        keys-insert_new k m c.entries new ∙ ap (λ t. t ++ (k ∷ [])) w.queued in
      let absent : mem_key k c.order ≡ false =
        ap (mem_key k) (sym w.queued) ∙ mem_key-find_none k c.entries new in
      let n : length (insert_entry k m c.entries) ≡ suc (length c.order) =
        sym (length-keys (insert_entry k m c.entries))
        ∙ ap length q
        ∙ length-append_last k c.order in
      let o : length c.order ≡ length c.entries =
        ap length (sym w.queued) ∙ length-keys c.entries in
      let bound : length c.entries ≤ meta_cap = w.bounded in
      rw (new, meta_put)
        (evict-IsBounded (insert_entry k m c.entries) (c.order ++ (k ∷ [])) q
          (Distinct-append_last k c.order absent w.distinct) (omega arith))
  | inr (old, held) ↦
      let q : keys (insert_entry k m c.entries) ≡ c.order =
        keys-insert_old k m old c.entries held ∙ w.queued in
      rw (held, meta_put)
        (record {
          queued = q;
          distinct = w.distinct;
          bounded =
              subst (λ n. n ≤ meta_cap)
                (sym (length_same (insert_entry k m c.entries) c.entries c.order w.queued q))
                w.bounded;
        })
]

-- Invalidating a key keeps the cache within META_CAP entries, its queue listing exactly its keys,
-- each once.
pub meta_invalidate-IsBounded :
    (k : CacheKey) (c : MetaCache) → IsBounded c → IsBounded (meta_invalidate k c)
unfolding meta_invalidate
meta_invalidate-IsBounded k c w = elim (Option-cases (find_entry k c.entries)) [
  | inl absent ↦ rw (absent, meta_invalidate) w
  | inr (old, held) ↦
      let q : keys (remove_entry k c.entries) ≡ retain k c.order =
        keys-remove_entry k c.entries ∙ ap (retain k) w.queued in
      let n : length (remove_entry k c.entries) ≡ length (retain k c.order) =
        sym (length-keys (remove_entry k c.entries)) ∙ ap length q in
      let o : length c.order ≡ length c.entries =
        ap length (sym w.queued) ∙ length-keys c.entries in
      let shorter : length (retain k c.order) ≤ length c.order = length-retain-le k c.order in
      let bound : length c.entries ≤ meta_cap = w.bounded in
      rw (held, meta_invalidate)
        (record {
          queued = q;
          distinct = Distinct-retain k c.order w.distinct;
          bounded = omega arith;
        })
]

find-insert_entry :
    (k : CacheKey) (m : Meta) (es : List Entry) → find_entry k (insert_entry k m es) ≡ some m
unfolding find_entry insert_entry
find-insert_entry k m [] = ground (arith, key_eq_refl k)
find-insert_entry k m (e ∷ es) = ground (arith, find-insert_entry k m es)

find-remove_entry : (k : CacheKey) (es : List Entry) → find_entry k (remove_entry k es) ≡ none
unfolding find_entry remove_entry
find-remove_entry k [] = refl
find-remove_entry k (e ∷ es) = ground (arith, find-remove_entry k es)

-- An invalidated key is not in the cache.
pub meta_get-meta_invalidate :
    (k : CacheKey) (c : MetaCache) → meta_get k (meta_invalidate k c) ≡ none
unfolding meta_get meta_invalidate
meta_get-meta_invalidate k c = elim (Option-cases (find_entry k c.entries)) [
  | inl absent ↦ rw (absent, meta_invalidate, meta_get) absent
  | inr (old, held) ↦ rw (held, meta_invalidate, meta_get) (find-remove_entry k c.entries)
]
