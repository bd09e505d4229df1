-- ===== src/Read/Gaps.antt =====
-- `stream_span` of crates/pgvs3/src/db.rs where the rows of a piece are gone.
use lakewing.Prelude.{
  ℕ, zero, suc, ◌≡◌, ◌⊎◌, inl, inr, refl, ap, Option, Bool, false, List, [], ◌∷◌, ◌++◌, map, arith,
  length, ltb, Bool-cases, subst,
}
use lakewing.Layout.{part_rows, parts_inflight}
use lakewing.Cache.Meta.{Meta}
use lakewing.Read.Plan.{Piece, plan}
use lakewing.Read.Span.{
  Stop, Flow, next, stop, Output, receive, drain_part, fill, span_loop, finish_span, stream_span,
  Row,
}

-- A piece whose rows do not arrive, though it asks for one.
abbrev pub IsGap : Piece × List (Option Row) → Type 0
IsGap (p, rows) = (rows ≡ []) × (ltb p.hi p.lo ≡ false)

abbrev pub AnyGap : List (Piece × List (Option Row)) → Type 0
AnyGap [] = ⊥
AnyGap (part ∷ parts) = IsGap part ⊎ AnyGap parts

abbrev IsStopped {ℓ} : {A : Type ℓ} → Flow A → Type 0
IsStopped (next s) = ⊥
IsStopped (stop r out) = Unit

pub AnyGap-append :
    (parts more : List (Piece × List (Option Row)))
    → AnyGap parts ⊎ AnyGap more
    → AnyGap (parts ++ more)
AnyGap-append [] more (inl a) = absurd a
AnyGap-append [] more (inr b) = b
AnyGap-append (part ∷ parts) more (inl (inl a)) = inl a
AnyGap-append (part ∷ parts) more (inl (inr a)) = inr (AnyGap-append parts more (inl a))
AnyGap-append (part ∷ parts) more (inr b) = inr (AnyGap-append parts more (inr b))

module _ (start end : ℕ) (accepts : ℕ → Bool) (fetch : Piece → List (Option Row)) where
  -- The pieces with what their queries deliver.
  abbrev pub fetched : List Piece → List (Piece × List (Option Row))
  fetched ps = map (λ p. (p, fetch p)) ps

  drain_part_gap :
      (s : Output) (p : Piece) (rows : List (Option Row))
      → IsGap (p, rows)
      → IsStopped (drain_part start end accepts s (p, rows))
  unfolding drain_part receive
  drain_part_gap s p rows gap = rw (gap.0, drain_part) (rw gap.1 tt)

  fill_gap :
      (todo : List Piece) (running : List (Piece × List (Option Row)))
      → AnyGap running ⊎ AnyGap (fetched todo)
      → AnyGap (fill start end accepts fetch todo running).1
        ⊎ AnyGap (fetched (fill start end accepts fetch todo running).0)
  unfolding fill
  fill_gap [] running gap = gap
  fill_gap (p ∷ todo) running gap = elim (Bool-cases (ltb (length running) parts_inflight)) [
    | inl more ↦ rw (more, fill) (fill_gap todo (running ++ ((p, fetch p) ∷ [])) (moved gap))
    | inr full ↦ rw (full, fill) gap
  ]
    where
      moved :
          AnyGap running ⊎ (IsGap (p, fetch p) ⊎ AnyGap (fetched todo))
          → AnyGap (running ++ ((p, fetch p) ∷ [])) ⊎ AnyGap (fetched todo)
      moved (inl a) = inl (AnyGap-append running ((p, fetch p) ∷ []) (inl a))
      moved (inr (inl b)) = inl (AnyGap-append running ((p, fetch p) ∷ []) (inr (inl b)))
      moved (inr (inr c)) = inr c

  -- Nothing waits if nothing runs.
  fill_idle :
      (todo : List Piece) (running : List (Piece × List (Option Row)))
      → (fill start end accepts fetch todo running).1 ≡ []
      → (fill start end accepts fetch todo running).0 ≡ []
  unfolding fill parts_inflight
  fill_idle [] running idle = refl
  fill_idle (p ∷ todo) running idle = elim (Bool-cases (ltb (length running) 8)) [
    | inl more ↦
        rw (more, fill) (fill_idle todo (running ++ ((p, fetch p) ∷ [])) (rw (more, fill) at idle))
    | inr full ↦
        (let e : running ≡ [] = rw (full, fill) at idle in
          absurd (ground (arith, ap length e, full)))
  ]

  module _ (fuel : ℕ)
      (later : (todo : List Piece) (running : List (Piece × List (Option Row))) (s : Output)
        → AnyGap running ⊎ AnyGap (fetched todo)
        → IsStopped (span_loop start end accepts fetch fuel todo running s)) where
    drained :
        (todo : List Piece) (rest : List (Piece × List (Option Row))) (f : Flow Output)
        → IsStopped f ⊎ (AnyGap rest ⊎ AnyGap (fetched todo))
        → IsStopped (elim f [
          | stop r out ↦ stop r out
          | next s ↦ span_loop start end accepts fetch fuel todo rest s
        ])
    drained todo rest (stop r out) gap = tt
    drained todo rest (next s) (inl a) = absurd a
    drained todo rest (next s) (inr b) = later todo rest s b

    round :
        (todo : List Piece) (running : List (Piece × List (Option Row))) (s : Output)
        → (running ≡ [] → todo ≡ [])
        → AnyGap running ⊎ AnyGap (fetched todo)
        → IsStopped (elim running [
          | [] ↦ next s
          | part ∷ rest ↦ elim (drain_part start end accepts s part) [
            | stop r out ↦ stop r out
            | next s' ↦ span_loop start end accepts fetch fuel todo rest s'
          ]
        ])
    round todo [] s idle (inl a) = absurd a
    round todo [] s idle (inr b) = subst (λ t. AnyGap (fetched t)) (idle refl) b
    round todo ((p, rows) ∷ rest) s idle (inl (inl a)) =
        drained todo rest (drain_part start end accepts s (p, rows))
          (inl (drain_part_gap s p rows a))
    round todo (part ∷ rest) s idle (inl (inr a)) =
        drained todo rest (drain_part start end accepts s part) (inr (inl a))
    round todo (part ∷ rest) s idle (inr b) =
        drained todo rest (drain_part start end accepts s part) (inr (inr b))

  span_loop_gap :
      (fuel : ℕ) (todo : List Piece) (running : List (Piece × List (Option Row))) (s : Output)
      → AnyGap running ⊎ AnyGap (fetched todo)
      → IsStopped (span_loop start end accepts fetch fuel todo running s)
  unfolding span_loop
  span_loop_gap zero todo running s gap = tt
  span_loop_gap (suc fuel) todo running s gap =
      round fuel (span_loop_gap fuel) (fill start end accepts fetch todo running).0
        (fill start end accepts fetch todo running).1 s (fill_idle todo running)
        (fill_gap todo running gap)

  -- A span with a gap stops.
  pub stream_span_gap :
      (m : Meta)
      → AnyGap (fetched (plan m start end part_rows))
      → (r : Stop) × (out : List (List ℕ)) × (stream_span start end accepts fetch m ≡ stop r out)
  unfolding stream_span
  stream_span_gap m gap =
      stopped
        (span_loop start end accepts fetch (suc (length (plan m start end part_rows)))
          (plan m start end part_rows) [] (record { chunk = []; sent = 0; out = [] }))
        (span_loop_gap (suc (length (plan m start end part_rows))) (plan m start end part_rows) []
          (record { chunk = []; sent = 0; out = [] }) (inr gap))
    where
      stopped :
          (f : Flow Output)
          → IsStopped f
          → (r : Stop) × (out : List (List ℕ)) × (elim f [
            | stop r' out' ↦ stop r' out'
            | next s ↦ finish_span start end accepts s
          ]
              ≡ stop r out)
      stopped (stop r out) tt' = (r, out, refl)
      stopped (next s) never = absurd never
