-- ===== src/Read/Stream.antt =====
-- The loop over the pieces of a span, and what `stream_span` sends.
use lakewing.Prelude.{
  ℕ, zero, suc, ◌+◌, ◌-◌, ◌*◌, ◌^◌, ◌≤◌, ◌<◌, min, ◌≡◌, refl, sym, ap, subst, ◌∙◌, inl, inr, Option,
  some, Bool, true, List, [], ◌∷◌, ◌++◌, map, append_assoc, append-nil, arith, length,
  length-append, concat, concat-append, slice, length-slice, ltb, ◌==◌, Bool-cases,
}
use mathlib.Core.List.{map-append}
use lakewing.Layout.{row_bytes, parts_inflight, part_rows}
use lakewing.Cache.Meta.{Meta, segments}
use lakewing.Read.Plan.{Piece, plan}
use lakewing.Read.Cover.{pieces_part, AllPieces, IsStoredFrom, pieces_part-plan}
use lakewing.Read.Span.{Row, next, Output, fill, span_loop, finish_span, stream_span}
use lakewing.Read.Early.{bytes_of, IsCounted}
use lakewing.Read.Drain.{Arrives, drain_part-next}

module _ (start end : ℕ) (accepts : ℕ → Bool) (rows : Piece → List Row) where
  abbrev fetched : Piece → List (Option Row)
  fetched p = map some (rows p)

  abbrev running : List Piece → List (Piece × List (Option Row))
  running ps = map (λ p. (p, fetched p)) ps

  length-running : (ps : List Piece) → length (running ps) ≡ length ps
  length-running [] = refl
  length-running (p ∷ ps) = ap suc (length-running ps)

  -- Filling the window moves pieces from the queue into it, in order, and leaves it empty only
  -- if no piece is left.
  record Filled (ps todo qs todo' : List Piece) : Type 0 where
    same : fill start end accepts fetched todo (running ps) ≡ (todo', running qs)
    kept : qs ++ todo' ≡ ps ++ todo
    idle : length qs ≡ 0 → todo' ≡ []

  fill_lem : (todo ps : List Piece) → (qs todo' : List Piece) × Filled ps todo qs todo'
  unfolding fill parts_inflight
  fill_lem [] ps = (ps, [], record { same = refl; kept = refl; idle = λ _. refl })
  fill_lem (p ∷ todo) ps = elim (Bool-cases (ltb (length (running ps)) 8)) [
    | inl room ↦
        let (qs, todo', f) = fill_lem todo (ps ++ (p ∷ [])) in
        (
          qs,
          todo',
          record {
            same =
                rw (room, fill)
                  (ap (fill start end accepts fetched todo) (sym (map-append _ ps (p ∷ [])))
                    ∙ f.same);
            kept = f.kept ∙ append_assoc ps (p ∷ []) todo;
            idle = f.idle;
          },
        )
    | inr full ↦ (
      ps,
      p ∷ todo,
      record {
        same = rw (full, fill);
        kept = refl;
        idle = λ h. absurd (ground (arith, length-running ps));
      },
    )
  ]

  module _ (files : ℕ → List ℕ) (all : (n : ℕ) → accepts n ≡ true) where
    abbrev Delivered : Piece → Type 0
    Delivered p = Arrives start end p (files p.file_id) (rows p)

    abbrev LoopNext : ℕ → Type 0
    LoopNext fuel =
        (todo ps : List Piece) (s : Output)
        → length (ps ++ todo) < fuel
        → AllPieces Delivered (ps ++ todo)
        → IsCounted s
        → (s' : Output) × (span_loop start end accepts fetched fuel todo (running ps) s ≡ next s')
          × (bytes_of s' ≡ bytes_of s ++ pieces_part files start end (ps ++ todo))
          × IsCounted s'

    -- One round, with the window full or the queue empty.
    span_round :
        (fuel : ℕ) (todo ps qs todo' : List Piece) (s : Output)
        → LoopNext fuel
        → Filled ps todo qs todo'
        → length (ps ++ todo) < suc fuel
        → AllPieces Delivered (ps ++ todo)
        → IsCounted s
        → (s' : Output) × (span_loop start end accepts fetched (suc fuel) todo (running ps) s
            ≡ next s')
          × (bytes_of s' ≡ bytes_of s ++ pieces_part files start end (ps ++ todo))
          × IsCounted s'
    unfolding span_loop
    span_round fuel todo ps [] todo' s ih f short arrive counted = (
      s,
      rw (f.same, span_loop),
      sym (append-nil (bytes_of s))
          ∙ ap (λ t. bytes_of s ++ pieces_part files start end t) (sym (f.idle refl) ∙ f.kept),
      counted,
    )
    span_round fuel todo ps (q ∷ qs) todo' s ih f short arrive counted =
        let got : AllPieces Delivered (q ∷ (qs ++ todo')) =
          subst (AllPieces Delivered) (sym f.kept) arrive in
        let fewer : length (qs ++ todo') < fuel = omega (arith, ap length f.kept) in
        let (s1, e1, b1, c1) =
          drain_part-next start end q (files q.file_id) accepts s (rows q) all counted got.0 in
        let (s2, e2, b2, c2) = ih todo' qs s1 fewer got.1 c1 in
        (
          s2,
          rw (f.same, span_loop, e1) (rw f.same e2),
          b2
              ∙ ap (λ t. t ++ pieces_part files start end (qs ++ todo')) b1
              ∙ append_assoc (bytes_of s) _ _
              ∙ ap (λ t. bytes_of s ++ pieces_part files start end t) f.kept,
          c2,
        )

    span_loop-next : (fuel : ℕ) → LoopNext fuel
    span_loop-next zero todo ps s short arrive counted = absurd (omega arith)
    span_loop-next (suc fuel) todo ps s short arrive counted =
        let (qs, todo', f) = fill_lem todo ps in
        span_round fuel todo ps qs todo' s (span_loop-next fuel) f short arrive counted

    finish_span-next :
        (s : Output)
        → IsCounted s
        → length (bytes_of s) ≡ end + 1 - start
        → (out : List (List ℕ)) × (finish_span start end accepts s ≡ next out)
          × (concat out ≡ bytes_of s)
    unfolding finish_span
    finish_span-next s counted full =
        go s.chunk refl (ground (arith, length-append (concat s.out) s.chunk))
      where
        go :
            (chunk : List ℕ)
            → s.chunk ≡ chunk
            → (s.sent + length s.chunk == end + 1 - start) ≡ true
            → (out : List (List ℕ)) × (finish_span start end accepts s ≡ next out)
              × (concat out ≡ bytes_of s)
        go [] e test = (
          s.out,
          rw (test, finish_span, e),
          sym (append-nil (concat s.out)) ∙ ap (λ t. concat s.out ++ t) (sym e),
        )
        go (b ∷ bs) e test = (
          s.out ++ (s.chunk ∷ []),
          rw (test, finish_span, e)
              (rw (all (length s.out)) (ap (λ t. next (s.out ++ (t ∷ []))) e)),
          concat-append s.out (s.chunk ∷ []) ∙ ap (λ t. concat s.out ++ t) (append-nil s.chunk),
        )

-- If the object of at most 2^31 rows is laid out in the segments of its metadata, the range lies in
-- it, the rows of every piece arrive, in whatever order within a piece, and the client stays, then
-- `stream_span` ends without an error and its messages hold exactly the requested bytes.
pub stream_span_complete :
    (obj : List ℕ) (files : ℕ → List ℕ) (m : Meta) (start end : ℕ) (accepts : ℕ → Bool)
    (rows : Piece → List Row)
    → length obj ≤ 2 ^ 31 * row_bytes
    → start ≤ end
    → end < length obj
    → IsStoredFrom obj files 0 (segments m)
    → ((n : ℕ) → accepts n ≡ true)
    → AllPieces (λ p. Arrives start end p (files p.file_id) (rows p)) (plan m start end part_rows)
    → (out : List (List ℕ)) × (stream_span start end accepts (λ p. map some (rows p)) m ≡ next out)
      × (concat out ≡ slice obj start (end + 1))
unfolding stream_span
stream_span_complete obj files m start end accepts rows small ordered inside stored all arrive =
    let todo : List Piece = plan m start end part_rows in
    let (s, e, bytes, counted) =
      span_loop-next start end accepts rows files all (suc (length todo)) todo []
        (record { chunk = []; sent = 0; out = [] }) (omega arith) arrive refl in
    let served : bytes_of s ≡ slice obj start (end + 1) =
      bytes ∙ pieces_part-plan obj files m start end part_rows small ordered inside stored in
    let (out, f, same) = finish_span-next start end accepts rows files all s counted (
      ap length served
      ∙ length-slice obj start (end + 1)
      ∙ (let q : min (end + 1) (length obj) - start ≡ end + 1 - start = omega arith in q)) in
    (out, rw (e, stream_span) f, same ∙ served)
