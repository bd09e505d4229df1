-- ===== src/Tests/Caches.antt =====
-- Small runs of the cache, of a full page, of a batch that fails, and of buckets and uploads.
use lakewing.Prelude.{ℕ, zero, suc, ◌≡◌, ◌⊎◌, refl, none, some, true, false, List, [], ◌∷◌, arith}
use lakewing.Prelude.Text.{Text, text_eq}
use lakewing.Cache.Fifo.{empty_cache, meta_put, meta_invalidate, meta_get}
use lakewing.Cache.Bounded.{IsBounded}
use lakewing.Cache.Capacity.{
  meta_put-IsBounded, meta_invalidate-IsBounded, meta_get-meta_invalidate,
}
use lakewing.Store.Tables.{Object, Db, has_bucket}
use lakewing.Store.Buckets.{delete_bucket}
use lakewing.Store.Objects.{if_absent, ObjectWrite, swap_object}
use lakewing.Store.Published.{put_write}
use lakewing.Store.Uploads.{create_upload}
use lakewing.Store.Retried.{create_upload-create_upload}
use lakewing.Store.Integrity.{IsIntact, delete_bucket-IsIntact}
use lakewing.Store.Swapped.{IsSwapped, swap_object-IsSwapped}
use lakewing.Tests.Copy.{identity_digest}
use lakewing.Server.Listing.{Listed, Page, ListInput, ListOutput}
use lakewing.Server.Objects.{delete_objects, ObjectIdentifier, Deletion, answered, rolled_back}
use lakewing.Server.Deletions.{IsWhole, IsCut}
use lakewing.Server.Batches.{is_accepted, IsRefused, delete_objects-cases}
use lakewing.Tests.Puts.{lake, one_bucket}
use lakewing.Tests.Gets.{put_meta, a_key}

empty-IsBounded : IsBounded empty_cache
empty-IsBounded = record { queued = refl; distinct = tt; bounded = omega arith }

meta_put-IsBounded_example : IsBounded (meta_put a_key put_meta empty_cache)
meta_put-IsBounded_example = meta_put-IsBounded a_key put_meta empty_cache empty-IsBounded

meta_invalidate-IsBounded_example :
    IsBounded (meta_invalidate a_key (meta_put a_key put_meta empty_cache))
meta_invalidate-IsBounded_example =
    meta_invalidate-IsBounded a_key (meta_put a_key put_meta empty_cache)
      (meta_put-IsBounded a_key put_meta empty_cache empty-IsBounded)

meta_get-meta_invalidate_example :
    meta_get a_key (meta_invalidate a_key (meta_put a_key put_meta empty_cache)) ≡ none
meta_get-meta_invalidate_example =
    meta_get-meta_invalidate a_key (meta_put a_key put_meta empty_cache)

abbrev key_of : ℕ → Listed
key_of c = record { key = c ∷ []; size = 1; etag = []; created_at = 0 }

-- A page of one key that has it.
abbrev full_page : Page
full_page = record { contents = key_of 97 ∷ []; common = []; seen = [] }

abbrev small_object : ℕ → Object
small_object n = record {
  bucket = lake;
  key = n ∷ [];
  meta = record {
    size = 1;
    etag = [];
    created_at = 0;
    file_id = n;
    parts = none;
    part_ends = none;
  };
}

-- Two objects, one more than fit on a page.
abbrev two_objects : Db
two_objects = record one_bucket { objects = small_object 97 ∷ small_object 98 ∷ [] }

abbrev one_key : ListInput
one_key = record {
  bucket = lake;
  prefix = [];
  delimiter = [];
  max_keys = some 1;
  continuation_token = none;
  start_after = none;
}

abbrev first_page : ListOutput
first_page = record {
  page = full_page;
  is_truncated = true;
  next_continuation_token = some (98 ∷ []);
}

abbrev batch : List ObjectIdentifier
batch =
    record { key = 97 ∷ []; conditional = false }
    ∷ record { key = 98 ∷ []; conditional = false }
    ∷ []

-- The first deletion is answered and the others are rolled back.
abbrev one_answered : ℕ → Deletion
one_answered zero = answered
one_answered (suc n) = rolled_back

delete_objects-cases_example :
    IsRefused true lake batch
      (one_bucket, empty_cache)
      (delete_objects true one_answered lake false batch one_bucket empty_cache)
    ⊎ ((is_accepted true lake batch one_bucket ≡ true)
        × (IsWhole one_answered lake false batch
              (one_bucket, empty_cache)
              (delete_objects true one_answered lake false batch one_bucket empty_cache)
            ⊎ IsCut one_answered lake batch
                (one_bucket, empty_cache)
                (delete_objects true one_answered lake false batch one_bucket empty_cache)))
delete_objects-cases_example =
    delete_objects-cases true one_answered lake false batch one_bucket empty_cache

-- The bucket with an object in it, and an empty one.
abbrev two_buckets : Db
two_buckets = record one_bucket {
  buckets = record { name = 98 ∷ []; created_at = 1 } ∷ record { name = lake; created_at = 0 } ∷ [];
  objects = record { bucket = lake; key = 97 ∷ []; meta = put_meta } ∷ [];
}

two_buckets-IsIntact : IsIntact two_buckets
unfolding has_bucket text_eq
two_buckets-IsIntact = (refl, tt)

delete_bucket-IsIntact_example : IsIntact (delete_bucket (98 ∷ []) two_buckets).1
delete_bucket-IsIntact_example = delete_bucket-IsIntact (98 ∷ []) two_buckets two_buckets-IsIntact

abbrev new_write : ObjectWrite
new_write = put_write identity_digest 9 if_absent (60 ∷ [])

swap_object-IsSwapped_example :
    IsSwapped lake
      (98 ∷ [])
      new_write
      7
      two_buckets
      (swap_object lake (98 ∷ []) new_write 7 two_buckets)
swap_object-IsSwapped_example = swap_object-IsSwapped lake (98 ∷ []) new_write 7 two_buckets

create_upload-create_upload_example :
    create_upload (50 ∷ []) lake (97 ∷ []) 8 (create_upload (49 ∷ []) lake (97 ∷ []) 7 one_bucket).1
    ≡ create_upload (49 ∷ []) lake (97 ∷ []) 7 one_bucket
create_upload-create_upload_example =
    create_upload-create_upload (49 ∷ []) (50 ∷ []) lake (97 ∷ []) 7 8 one_bucket
