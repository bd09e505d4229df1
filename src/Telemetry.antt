-- ===== src/Telemetry.antt =====
-- The counters of crates/pgvs3/src/stats.rs. A `fetch_add` on an `AtomicU64` wraps around. The
-- floating-point steps are arguments: the bucket of a latency before it is clamped, and the rank of a
-- quantile.
pub mod Quantiles
use lakewing.Prelude.{
  ℕ, zero, suc, ◌+◌, ◌^◌, ◌%◌, min, Option, none, some, Bool, ◌&&◌, List, [], ◌∷◌, ltb, leb,
  if◌then◌else◌,
}

-- `fetch_add` on the n-th counter
unfoldable pub add_at : ℕ → ℕ → List ℕ → List ℕ
add_at i n [] = []
add_at zero n (c ∷ cs) = ((c + n) % 2 ^ 64) ∷ cs
add_at (suc i) n (c ∷ cs) = c ∷ add_at i n cs

pub record Stats : Type 0 where
  pub spans : List ℕ
  pub latencies : List ℕ
  pub gets : List ℕ
  pub ttfb_us : List ℕ
  pub total_us : List ℕ
  pub parts : ℕ
  pub wait_us : ℕ
  pub served : ℕ

-- `T.iter().position(|&t| span < t)`
unfoldable pub position_above : ℕ → List ℕ → ℕ → ℕ
position_above span [] i = i
position_above span (t ∷ ts) i =
    let rest = position_above span ts (i + 1) in if ltb span t then i else rest

-- `span_bucket`; past the last bound it is 4, the number of the bounds.
unfoldable pub span_bucket : ℕ → ℕ
unfolding position_above
span_bucket span = position_above span (65536 ∷ 524288 ∷ 2097152 ∷ 8388608 ∷ []) 0

unfoldable pub span_record : ℕ → Stats → Stats
span_record len s = record s { spans = add_at (span_bucket len) 1 s.spans }

-- `lat_record`, of the latency's bucket
unfoldable pub lat_record : ℕ → Stats → Stats
lat_record idx s = record s { latencies = add_at (min idx 127) 1 s.latencies }

unfoldable pub ttfb_record : ℕ → ℕ → Stats → Stats
ttfb_record class us s = record s { ttfb_us = add_at class us s.ttfb_us }

unfoldable pub get_record : ℕ → ℕ → ℕ → ℕ → Stats → Stats
get_record idx class us bytes s =
    let s' =
      lat_record idx
        (record s { gets = add_at class 1 s.gets; total_us = add_at class us s.total_us }) in
    record s' { served = (s'.served + bytes) % 2 ^ 64 }

unfoldable pub part_record : ℕ → Stats → Stats
part_record waited s = record s {
  parts = (s.parts + 1) % 2 ^ 64;
  wait_us = (s.wait_us + waited) % 2 ^ 64;
}

abbrev pub sum : List ℕ → ℕ
sum [] = 0
sum (c ∷ cs) = c + sum cs

-- The loop of `lat_pct`, from bucket `i`, with `target` the rank of the quantile: the bucket whose
-- upper bound is returned, if there is one.
unfoldable pub pct_loop : ℕ → ℕ → ℕ → ℕ → List ℕ → Option ℕ
pct_loop total target i seen [] = none
pct_loop total target i seen (c ∷ cs) =
    let rest = pct_loop total target (i + 1) (seen + c) cs in
    if ltb 0 total && leb target (seen + c) then some i else rest

-- `lat_pct`
unfoldable pub lat_pct : ℕ → List ℕ → Option ℕ
lat_pct target counts = pct_loop (sum counts) target 0 0 counts
