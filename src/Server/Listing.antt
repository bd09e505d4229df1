-- ===== src/Server/Listing.antt =====
-- `list_objects_v2`, `listing_step` and `prefix_end` of crates/pgvs3/src/server.rs, and `list` of
-- crates/pgvs3/src/db.rs. Keys are their UTF-8 bytes, whose order is that of COLLATE "C".
use lakewing.Prelude.{
  ℕ, zero, suc, ◌+◌, ◌/◌, ◌%◌, Option, none, some, Bool, true, false, ◌&&◌, ◌||◌, not, List, [],
  ◌∷◌, ◌++◌, length, take, drop, ltb, leb, ◌==◌, min, if◌then◌else◌,
}
use lakewing.Prelude.Text.{Text, text_eq, text_lt}
use lakewing.Store.Tables.{Object, Db, has_bucket}

-- `char::from_u32`, which refuses surrogates and what is past U+10FFFF.
unfoldable pub from_u32 : ℕ → Option ℕ
from_u32 n = if ltb n 55296 || (ltb 57343 n && ltb n 1114112) then some n else none

-- `char::encode_utf8`
unfoldable pub utf8 : ℕ → Text
utf8 c =
    if ltb c 128
    then c ∷ []
    else if ltb c 2048
    then (192 + c / 64) ∷ (128 + c % 64) ∷ []
    else if ltb c 65536
    then (224 + c / 4096) ∷ (128 + c / 64 % 64) ∷ (128 + c % 64) ∷ []
    else (240 + c / 262144) ∷ (128 + c / 4096 % 64) ∷ (128 + c / 64 % 64) ∷ (128 + c % 64) ∷ []

unfoldable pub encode : List ℕ → Text
encode [] = []
encode (c ∷ cs) = utf8 c ++ encode cs

-- The loop of `prefix_end` on the characters popped so far, last first: what is left is given
-- reversed.
unfoldable pub bump_last : List ℕ → Option (List ℕ)
bump_last [] = none
bump_last (last ∷ before) =
    let rest = bump_last before in
    elim (from_u32 (last + 1)) [ some next ↦ some (next ∷ before) | none ↦ rest ]

unfoldable pub reverse_onto : List ℕ → List ℕ → List ℕ
reverse_onto [] out = out
reverse_onto (c ∷ cs) out = reverse_onto cs (c ∷ out)

-- `prefix_end`, on the characters of the prefix.
unfoldable pub prefix_end : List ℕ → Text
prefix_end prefix = elim (bump_last (reverse_onto prefix [])) [
  | some s ↦ encode (reverse_onto s [])
  | none ↦ utf8 1114111
]

-- `db::Listed`
pub record Listed : Type 0 where
  pub key : Text
  pub size : ℕ
  pub etag : List ℕ
  pub created_at : ℕ

abbrev pub listed_of : Object → Listed
listed_of o = record {
  key = o.key;
  size = o.meta.size;
  etag = o.meta.etag;
  created_at = o.meta.created_at;
}

-- The WHERE clause of `list`.
unfoldable pub in_range : Text → Text → Text → Text → Object → Bool
in_range bucket prefix bound after o =
    text_eq o.bucket bucket
    && (not (text_lt o.key prefix) && (text_lt o.key bound && text_lt after o.key))

unfoldable pub select_keys : Text → Text → Text → Text → List Object → List Listed
select_keys bucket prefix bound after [] = []
select_keys bucket prefix bound after (o ∷ os) =
    let rest = select_keys bucket prefix bound after os in
    if in_range bucket prefix bound after o then listed_of o ∷ rest else rest

-- `ORDER BY key COLLATE "C"`
unfoldable pub insert_key : Listed → List Listed → List Listed
insert_key r [] = r ∷ []
insert_key r (s ∷ ss) =
    let rest = insert_key r ss in if text_lt s.key r.key then s ∷ rest else r ∷ s ∷ ss

unfoldable pub sort_keys : List Listed → List Listed
sort_keys [] = []
sort_keys (r ∷ rs) = insert_key r (sort_keys rs)

unfoldable pub list : Text → Text → Text → Text → ℕ → Db → List Listed
list bucket prefix bound after limit db =
    take limit (sort_keys (select_keys bucket prefix bound after db.objects))

unfoldable pub starts_with : Text → Text → Bool
starts_with [] text = true
starts_with (c ∷ cs) [] = false
starts_with (c ∷ cs) (d ∷ ds) = c == d && starts_with cs ds

-- `rest.find(delimiter)`
unfoldable pub find_text : Text → Text → Option ℕ
find_text delimiter [] = if starts_with delimiter [] then some 0 else none
find_text delimiter (c ∷ cs) =
    let later = find_text delimiter cs in
    if starts_with delimiter (c ∷ cs)
    then some 0
    else elim later [ none ↦ none | some i ↦ some (suc i) ]

unfoldable pub seen_prefix : Text → List Text → Bool
seen_prefix cp [] = false
seen_prefix cp (p ∷ ps) = text_eq p cp || seen_prefix cp ps

-- `contents`, `common` and `seen`. The set's order is never used.
pub record Page : Type 0 where
  pub contents : List Listed
  pub common : List Text
  pub seen : List Text

abbrev pub empty_page : Page
empty_page = record { contents = []; common = []; seen = [] }

unfoldable pub page_len : Page → ℕ
page_len s = length s.contents + length s.common

-- The end of `listing_step`: a key that is listed itself.
unfoldable pub push_key : ℕ → Listed → Page → Bool × Page
push_key max r s =
    if leb max (page_len s)
    then (true, s)
    else (false, record s { contents = s.contents ++ (r ∷ []) })

-- A key whose name past the prefix has the delimiter at `idx`.
unfoldable pub push_common : ℕ → Text → Page → Bool × Page
push_common max cp s =
    if seen_prefix cp s.seen
    then (false, s)
    else (let s' = record s { seen = cp ∷ s.seen } in
        if leb max (page_len s)
        then (true, s')
        else (false, record s' { common = s.common ++ (cp ∷ []) }))

-- `listing_step`: whether the listing is full. The new cursor is the key in each case.
unfoldable pub listing_step : Text → Text → ℕ → Listed → Page → Bool × Page
listing_step prefix delimiter max r s =
    let rest = drop (length prefix) r.key in
    if length delimiter == 0 then push_key max r s else elim (find_text delimiter rest) [
      | none ↦ push_key max r s
      | some idx ↦ push_common max (prefix ++ take (idx + length delimiter) rest) s
    ]

-- `for r in rows`: the cursor, whether the listing is full, and the page.
unfoldable pub list_rows : Text → Text → ℕ → List Listed → Text → Page → Text × Bool × Page
list_rows prefix delimiter max [] after s = (after, false, s)
list_rows prefix delimiter max (r ∷ rs) after s =
    let (full, s') = listing_step prefix delimiter max r s in
    let rest = list_rows prefix delimiter max rs r.key s' in
    if full then (r.key, true, s') else rest

-- `'outer: loop`, at most `fuel` times. Each round ends the loop or moves the cursor past 1024
-- keys.
unfoldable pub list_loop :
    ℕ → Text → Text → Text → Text → ℕ → Db → Text → Page → Option (Text × Bool × Page)
list_loop zero bucket prefix bound delimiter max db after s = none
list_loop (suc fuel) bucket prefix bound delimiter max db after s =
    let rows = list bucket prefix bound after 1024 db in
    let (after', full, s') = list_rows prefix delimiter max rows after s in
    let rest = list_loop fuel bucket prefix bound delimiter max db after' s' in
    if length rows == 0
    then some (after, false, s)
    else if full
    then some (after', true, s')
    else if ltb (length rows) 1024
    then some (after', false, s')
    else rest

-- `ListObjectsV2Input`; a negative `max_keys` is given as 0, to which it is clamped.
pub record ListInput : Type 0 where
  pub bucket : Text
  pub prefix : List ℕ
  pub delimiter : Text
  pub max_keys : Option ℕ
  pub continuation_token : Option Text
  pub start_after : Option Text

pub record ListOutput : Type 0 where
  pub page : Page
  pub is_truncated : Bool
  pub next_continuation_token : Option Text

-- `input.max_keys.unwrap_or(1000).clamp(0, 1000)`
unfoldable pub max_of : Option ℕ → ℕ
max_of none = 1000
max_of (some n) = min n 1000

-- `continuation_token.or(start_after).unwrap_or_default()`
unfoldable pub after_of : Option Text → Option Text → Text
after_of (some token) start_after = token
after_of none (some key) = key
after_of none none = []

-- `list_objects_v2`, outer `none` for NoSuchBucket.
unfoldable pub list_objects_v2 : ℕ → ListInput → Db → Option (Option ListOutput)
list_objects_v2 fuel input db =
    let max = max_of input.max_keys in
    let after = after_of input.continuation_token input.start_after in
    if has_bucket input.bucket db.buckets
    then some
        (elim (list_loop fuel input.bucket (encode input.prefix) (prefix_end input.prefix)
          input.delimiter max db after empty_page) [
            | none ↦ none
            | some (cursor, truncated, page) ↦ some (record {
              page = page;
              is_truncated = truncated;
              next_continuation_token = if truncated then some cursor else none;
            })
          ])
    else none
