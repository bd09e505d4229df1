-- ===== src/Read/Missing.antt =====
-- `stream_span` of crates/pgvs3/src/db.rs on metadata whose rows are gone.
use lakewing.Prelude.{
  ℕ, zero, suc, ◌+◌, ◌-◌, ◌≤◌, ◌≡◌, refl, ap, ◌∙◌, Option, Bool, true, false, List, [], ◌∷◌, ◌++◌,
  map, arith, length, ltb, Bool-cases, inl, inr, ◌==◌,
}
use lakewing.Layout.{part_rows, parts_inflight}
use lakewing.Cache.Meta.{Meta, Segment, segments}
use lakewing.Read.Plan.{Piece, piece, plan, plan_segment, plan_segments, outside}
use lakewing.Read.Span.{
  Row, Stop, client_gone, query_failed, row_missing, short_read, out_of_fuel, Flow, next, stop,
  Output, receive, drain_part, fill, span_loop, finish_span, stream_span,
}

abbrev nothing_sent : Output
nothing_sent = record { chunk = []; sent = 0; out = [] }

-- A stop that is reported to the client.
abbrev pub is_reported : Stop → Bool
is_reported client_gone = false
is_reported query_failed = true
is_reported (row_missing n) = true
is_reported (short_read n) = true
is_reported out_of_fuel = true

abbrev AllEmpty : List (Piece × List (Option Row)) → Type 0
AllEmpty [] = Unit
AllEmpty ((p, rows) ∷ parts) = (rows ≡ []) × AllEmpty parts

-- Nothing was sent, and a stop is reported.
abbrev IsVoid : Flow Output → Type 0
IsVoid (next s) = s ≡ nothing_sent
IsVoid (stop r out) = (out ≡ []) × (is_reported r ≡ true)

AllEmpty-append :
    (parts more : List (Piece × List (Option Row)))
    → AllEmpty parts
    → AllEmpty more
    → AllEmpty (parts ++ more)
AllEmpty-append [] more a b = b
AllEmpty-append ((p, rows) ∷ parts) more a b = (a.0, AllEmpty-append parts more a.1 b)

module _ (fetch : Piece → List (Option Row)) where
  -- The queries of the pieces deliver nothing.
  abbrev pub AllMissing : List Piece → Type 0
  AllMissing [] = Unit
  AllMissing (p ∷ ps) = (fetch p ≡ []) × AllMissing ps

  AllMissing-append : (ps qs : List Piece) → AllMissing ps → AllMissing qs → AllMissing (ps ++ qs)
  AllMissing-append [] qs a b = b
  AllMissing-append (p ∷ ps) qs a b = (a.0, AllMissing-append ps qs a.1 b)

  -- A plan asks for no other files than those of the segments.
  abbrev pub SegmentsMissing : List Segment → Type 0
  SegmentsMissing [] = Unit
  SegmentsMissing (g ∷ gs) =
      ((p : Piece) → p.file_id ≡ g.file_id → fetch p ≡ []) × SegmentsMissing gs

  pieces_missing :
      (g : Segment) (ranges : List (ℕ × ℕ))
      → ((p : Piece) → p.file_id ≡ g.file_id → fetch p ≡ [])
      → AllMissing (map (piece g) ranges)
  unfolding piece
  pieces_missing g [] dead = tt
  pieces_missing g (r ∷ ranges) dead = (dead (piece g r) refl, pieces_missing g ranges dead)

  plan_segments_missing :
      (gs : List Segment) (start end step : ℕ)
      → SegmentsMissing gs
      → AllMissing (plan_segments gs start end step)
  unfolding plan_segments plan_segment
  plan_segments_missing [] start end step dead = tt
  plan_segments_missing (g ∷ gs) start end step dead =
      let rest : AllMissing (plan_segments gs start end step) =
        plan_segments_missing gs start end step dead.1 in
      elim (Bool-cases (outside g start end)) [
        | inl out ↦ rw (out, plan_segments) rest
        | inr inside ↦
            rw (inside, plan_segments) (AllMissing-append _ _ (pieces_missing g _ dead.0) rest)
      ]

module _ (start end : ℕ) (accepts : ℕ → Bool) where
  drain_part_empty :
      (p : Piece) (rows : List (Option Row))
      → rows ≡ []
      → IsVoid (drain_part start end accepts nothing_sent (p, rows))
  unfolding drain_part receive
  drain_part_empty p rows empty =
      rw (empty, drain_part)
        (elim (Bool-cases (ltb p.hi p.lo)) [
          | inl none_asked ↦ rw none_asked refl
          | inr some_asked ↦ rw some_asked (refl, refl)
        ])

  module _ (fetch : Piece → List (Option Row)) where
    fill_empty :
        (todo : List Piece) (running : List (Piece × List (Option Row)))
        → AllMissing fetch todo
        → AllEmpty running
        → AllMissing fetch (fill start end accepts fetch todo running).0
          × AllEmpty (fill start end accepts fetch todo running).1
    unfolding fill
    fill_empty [] running missing empty = (tt, empty)
    fill_empty (p ∷ todo) running missing empty =
        elim (Bool-cases (ltb (length running) parts_inflight)) [
          | inl more ↦
              rw (more, fill)
                (fill_empty todo (running ++ ((p, fetch p) ∷ [])) missing.1
                  (AllEmpty-append running ((p, fetch p) ∷ []) empty (missing.0, tt)))
          | inr full ↦ rw (full, fill) (missing, empty)
        ]

    module _ (fuel : ℕ)
        (later : (todo : List Piece) (running : List (Piece × List (Option Row)))
          → AllMissing fetch todo
          → AllEmpty running
          → IsVoid (span_loop start end accepts fetch fuel todo running nothing_sent)) where
      drained :
          (todo : List Piece) (rest : List (Piece × List (Option Row))) (f : Flow Output)
          → AllMissing fetch todo
          → AllEmpty rest
          → IsVoid f
          → IsVoid (elim f [
            | stop r out ↦ stop r out
            | next s ↦ span_loop start end accepts fetch fuel todo rest s
          ])
      drained todo rest (stop r out) missing empty void = void
      drained todo rest (next s) missing empty void = rw void (later todo rest missing empty)

      round :
          (todo : List Piece) (running : List (Piece × List (Option Row)))
          → AllMissing fetch todo
          → AllEmpty running
          → IsVoid (elim running [
            | [] ↦ next nothing_sent
            | part ∷ rest ↦ elim (drain_part start end accepts nothing_sent part) [
              | stop r out ↦ stop r out
              | next s ↦ span_loop start end accepts fetch fuel todo rest s
            ]
          ])
      round todo [] missing empty = refl
      round todo ((p, rows) ∷ rest) missing empty =
          drained todo rest (drain_part start end accepts nothing_sent (p, rows)) missing empty.1
            (drain_part_empty p rows empty.0)

    span_loop_empty :
        (fuel : ℕ) (todo : List Piece) (running : List (Piece × List (Option Row)))
        → AllMissing fetch todo
        → AllEmpty running
        → IsVoid (span_loop start end accepts fetch fuel todo running nothing_sent)
    unfolding span_loop
    span_loop_empty zero todo running missing empty = (refl, refl)
    span_loop_empty (suc fuel) todo running missing empty =
        let (missing', empty') = fill_empty todo running missing empty in
        round fuel (span_loop_empty fuel) (fill start end accepts fetch todo running).0
          (fill start end accepts fetch todo running).1 missing' empty'

    -- Nothing is too short for a range.
    finish_span_empty :
        start ≤ end → finish_span start end accepts nothing_sent ≡ stop (short_read 0) []
    unfolding finish_span
    finish_span_empty ordered =
        let e : (0 == end + 1 - start) ≡ false = ground arith in rw (e, finish_span) refl

    -- A span of at least a byte whose rows are gone sends nothing and reports an error.
    pub stream_span_missing :
        (m : Meta)
        → start ≤ end
        → SegmentsMissing fetch (segments m)
        → (r : Stop) × (stream_span start end accepts fetch m ≡ stop r []) × (is_reported r ≡ true)
    unfolding stream_span plan
    stream_span_missing m ordered dead =
        let todo : List Piece = plan_segments (segments m) start end part_rows in
        finished (span_loop start end accepts fetch (suc (length todo)) todo [] nothing_sent) (
          span_loop_empty (suc (length todo)) todo []
            (plan_segments_missing fetch (segments m) start end part_rows dead) tt)
      where
        finished :
            (f : Flow Output)
            → IsVoid f
            → (r : Stop) × (elim f [
              | stop r out ↦ stop r out
              | next s ↦ finish_span start end accepts s
            ]
                ≡ stop r [])
              × (is_reported r ≡ true)
        finished (stop r out) void = (r, ap (stop r) void.0, void.1)
        finished (next s) void = (
          short_read 0,
          ap (finish_span start end accepts) void ∙ finish_span_empty ordered,
          refl,
        )
