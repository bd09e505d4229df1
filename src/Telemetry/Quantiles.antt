-- ===== src/Telemetry/Quantiles.antt =====
-- Which bucket the counters of crates/pgvs3/src/stats.rs count in, and which `lat_pct` reads back.
use lakewing.Prelude.{
  ℕ, zero, suc, ◌+◌, ◌≤◌, ◌<◌, ◌≡◌, ◌⊎◌, ◌∙◌, inl, inr, refl, ap, some, true, false, List, [], ◌∷◌,
  ltb, leb, ◌&&◌, arith, take, lt-or-le, subst, sym,
}
use lakewing.Telemetry.{position_above, span_bucket, sum, pct_loop, lat_pct}

-- `lower i` and `upper i` bound the spans of bucket `i`.
abbrev lower : ℕ → ℕ
lower zero = 0
lower (suc zero) = 65536
lower (suc (suc zero)) = 524288
lower (suc (suc (suc zero))) = 2097152
lower (suc (suc (suc (suc n)))) = 8388608

abbrev IsIn : ℕ → ℕ → Type 0
IsIn span n = (lower n ≤ span) × (n ≤ 4) × ((n ≡ 4) ⊎ (span < lower (suc n)))

IsIn-bucket : (span n : ℕ) → span_bucket span ≡ n → IsIn span n → IsIn span (span_bucket span)
IsIn-bucket span n e h = subst (IsIn span) (sym e) h

module _ {span : ℕ} where
  bucket_0 : span < 65536 → span_bucket span ≡ 0
  unfolding span_bucket position_above
  bucket_0 a = ground (arith, a)

  bucket_1 : 65536 ≤ span → span < 524288 → span_bucket span ≡ 1
  unfolding span_bucket position_above
  bucket_1 a b = ground (arith, a, b)

  bucket_2 : 524288 ≤ span → span < 2097152 → span_bucket span ≡ 2
  unfolding span_bucket position_above
  bucket_2 a b = ground (arith, a, b)

  bucket_3 : 2097152 ≤ span → span < 8388608 → span_bucket span ≡ 3
  unfolding span_bucket position_above
  bucket_3 a b = ground (arith, a, b)

  bucket_4 : 8388608 ≤ span → span_bucket span ≡ 4
  unfolding span_bucket position_above
  bucket_4 a = ground (arith, a)

-- A span is counted in the bucket whose bounds it lies in.
pub span_bucket-within :
    (span : ℕ)
    → (lower (span_bucket span) ≤ span)
      × (span_bucket span ≤ 4)
      × ((span_bucket span ≡ 4) ⊎ (span < lower (suc (span_bucket span))))
span_bucket-within span = elim (lt-or-le span 65536) [
  | inl a ↦ IsIn-bucket span 0 (bucket_0 a) (omega arith, omega arith, inr a)
  | inr a ↦ elim (lt-or-le span 524288) [
    | inl b ↦ IsIn-bucket span 1 (bucket_1 a b) (omega (arith, a), omega arith, inr b)
    | inr b ↦ elim (lt-or-le span 2097152) [
      | inl c ↦ IsIn-bucket span 2 (bucket_2 b c) (omega (arith, b), omega arith, inr c)
      | inr c ↦ elim (lt-or-le span 8388608) [
        | inl e ↦ IsIn-bucket span 3 (bucket_3 c e) (omega (arith, c), omega arith, inr e)
        | inr e ↦ IsIn-bucket span 4 (bucket_4 e) (omega (arith, e), omega arith, inl refl)
      ]
    ]
  ]
]

pct_loop-found :
    (total target i seen : ℕ) (counts : List ℕ)
    → 0 < total
    → seen < target
    → target ≤ seen + sum counts
    → (k : ℕ) × (pct_loop total target i seen counts ≡ some (i + k))
      × (seen + sum (take k counts) < target)
      × (target ≤ seen + sum (take (suc k) counts))
unfolding pct_loop
pct_loop-found total target i seen [] some_total below above = absurd (omega (arith, below, above))
pct_loop-found total target i seen (c ∷ cs) some_total below above =
    elim (lt-or-le (seen + c) target) [
      | inr here ↦
          (let e : (ltb 0 total && leb target (seen + c)) ≡ true =
              ground (arith, some_total, here) in
            (
              0,
              rw (e, pct_loop) (ap some (let f : i ≡ i + 0 = omega arith in f)),
              omega (arith, below),
              omega (arith, here),
            ))
      | inl later ↦
          (let e : (ltb 0 total && leb target (seen + c)) ≡ false = ground (arith, later) in
            let (k, found, under, over) =
              pct_loop-found total target (i + 1) (seen + c) cs some_total later
                (omega (arith, above)) in
            (
              suc k,
              rw (e, pct_loop) (found ∙ ap some (let f : i + 1 + k ≡ i + suc k = omega arith in f)),
              omega (arith, under),
              omega (arith, over),
            ))
    ]

-- A quantile of a positive rank, up to the number of the latencies, is read from the first bucket
-- that reaches the rank.
pub lat_pct-first :
    (target : ℕ) (counts : List ℕ)
    → 0 < target
    → target ≤ sum counts
    → (k : ℕ) × (lat_pct target counts ≡ some k)
      × (sum (take k counts) < target)
      × (target ≤ sum (take (suc k) counts))
unfolding lat_pct
lat_pct-first target counts some_rank within =
    let (k, found, under, over) =
      pct_loop-found (sum counts) target 0 0 counts (omega (arith, some_rank, within)) some_rank
        (omega (arith, within)) in
    (
      k,
      found ∙ ap some (let f : 0 + k ≡ k = omega arith in f),
      omega (arith, under),
      omega (arith, over),
    )
