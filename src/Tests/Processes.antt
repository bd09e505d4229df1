-- ===== src/Tests/Processes.antt =====
-- Small inputs for the pool, the filler, the layout check, the counters and `put`.
use lakewing.Ingest.Format.{copy_tuple, row_count, file_rows}
use lakewing.Prelude.{
  ℕ, suc, ◌+◌, ◌≤◌, ◌<◌, ◌≡◌, ◌==◌, refl, some, Bool, true, false, List, [], ◌∷◌, arith, length,
  take, slice, ◌%◌,
}
use lakewing.Layout.{row_bytes, row_of}
use lakewing.Pool.{
  Options, pool_options, Conn, Pool, connect, look_up, look_ups, give_back, take_lent, PoolEvent,
  acquires, looks_up, opens, gives_back, releases, pool_run,
}
use lakewing.Pool.Limits.{pool_run-connections}
use lakewing.Pool.Order.{HasOneMore, look_up-give_back, look_ups-end}
use lakewing.Seed.{numbers, written_by, draw_read}
use lakewing.Seed.Split.{written_by_all, draw_read-within}
use lakewing.Schema.{Layout, init_locked, create_layout, ready, refused, other_layout, max_version}
use lakewing.Schema.Versions.{IsCurrent, init_locked-IsCurrent, init_locked-other}
use lakewing.Telemetry.{sum, lat_pct}
use lakewing.Telemetry.Quantiles.{lat_pct-first}
use lakewing.Ingest.{to_be_bytes, div_ceil}
use lakewing.Store.Tables.{has_bucket}
use lakewing.Store.Objects.{commit, unconditional}
use lakewing.Store.Published.{after_put}
use lakewing.Store.Put.{put, put-commit}
use lakewing.Prelude.Text.{text_eq}
use lakewing.Tests.Copy.{identity_digest, read_copy}
use lakewing.Tests.Puts.{lake, one_bucket}

abbrev conn : ℕ → Conn
conn n = record { client = n; idle_since = 0 }

abbrev none_closed : ℕ → Bool
none_closed n = false

abbrev two_open : Options
two_open = pool_options (some 2) (some 3)

abbrev day : List PoolEvent
day =
    acquires
    ∷ looks_up none_closed
    ∷ acquires
    ∷ looks_up (λ n. n == 1)
    ∷ looks_up none_closed
    ∷ opens (some (conn 7))
    ∷ gives_back none_closed 1000 0
    ∷ releases
    ∷ []

pool_run-connections_example :
    length (pool_run two_open day (connect two_open (conn 1 ∷ conn 2 ∷ []))).idle
      + (pool_run two_open day (connect two_open (conn 1 ∷ conn 2 ∷ []))).opening
      + length (pool_run two_open day (connect two_open (conn 1 ∷ conn 2 ∷ []))).lent
    ≤ two_open.max_open
unfolding pool_options
pool_run-connections_example =
    pool_run-connections (some 2) (some 3) (conn 1 ∷ conn 2 ∷ []) day refl

-- One connection is idle and one is lent; a task waits.
abbrev busy : Pool
busy = record {
  idle = conn 1 ∷ [];
  slots = 1;
  acquired = 1;
  opening = 0;
  lent = conn 2 ∷ [];
  returned = 0;
}

look_up-give_back_example :
    (look_up none_closed (give_back two_open none_closed 1000 0 busy)).lent
    ≡ record { client = 2; idle_since = 1000 } ∷ []
unfolding take_lent
look_up-give_back_example =
    look_up-give_back two_open none_closed none_closed 1000 0 busy (conn 2) [] refl refl refl refl

look_ups-end_example : HasOneMore busy (look_ups 2 (λ n. true) busy)
look_ups-end_example = look_ups-end (λ n. true) busy refl

written_by_all_example : written_by 7 3 3 ≡ numbers 0 7
written_by_all_example = written_by_all 7 3

draw_read-within_example :
    ((draw_read 12345 10000 300).0 + (draw_read 12345 10000 300).1 ≤ 10000)
    × ((draw_read 12345 10000 300).0 % 4096 ≡ 0)
    × ((draw_read 12345 10000 300).1 ≡ 300)
draw_read-within_example = draw_read-within 12345 10000 300

abbrev no_layout : Layout
no_layout = record { chunks = false; marked = false; versions = [] }

init_locked-IsCurrent_example :
    IsCurrent (create_layout no_layout)
    × (init_locked (create_layout no_layout) ≡ ready (create_layout no_layout))
unfolding init_locked
init_locked-IsCurrent_example =
    init_locked-IsCurrent no_layout (create_layout no_layout) (λ e. refl) refl

abbrev marker_only : Layout
marker_only = record { chunks = false; marked = true; versions = 2 ∷ [] }

init_locked-other_example :
    (init_locked marker_only ≡ ready (create_layout marker_only))
    × (init_locked (create_layout marker_only) ≡ refused (other_layout 2))
unfolding max_version
init_locked-other_example = init_locked-other marker_only 2 refl refl refl

lat_pct-first_example :
    (k : ℕ) × (lat_pct 3 (1 ∷ 1 ∷ 2 ∷ []) ≡ some k)
    × (sum (take k (1 ∷ 1 ∷ 2 ∷ [])) < 3)
    × (3 ≤ sum (take (suc k) (1 ∷ 1 ∷ 2 ∷ [])))
lat_pct-first_example = lat_pct-first 3 (1 ∷ 1 ∷ 2 ∷ []) (omega arith) (omega arith)

put-commit_example :
    (put identity_digest read_copy lake (97 ∷ []) (10 ∷ 20 ∷ 30 ∷ 40 ∷ []) 5 one_bucket).0
    ≡ commit
        (4, 10 ∷ 20 ∷ 30 ∷ 40 ∷ [])
        (after_put identity_digest lake
          (97 ∷ [])
          unconditional
          7
          5
          (10 ∷ 20 ∷ 30 ∷ 40 ∷ [])
          (record one_bucket { next_file = 8 }))
unfolding row_bytes has_bucket text_eq row_of slice to_be_bytes div_ceil copy_tuple row_count
    file_rows read_copy
put-commit_example =
    put-commit identity_digest read_copy lake (97 ∷ []) (10 ∷ 20 ∷ 30 ∷ 40 ∷ []) 5 one_bucket
      (omega arith) refl refl
