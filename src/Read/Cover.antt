-- ===== src/Read/Cover.antt =====
-- The pieces of `plan` of crates/pgvs3/src/db.rs, and the bytes of the request.
use lakewing.Prelude.{
  ℕ, ◌+◌, ◌-◌, ◌*◌, ◌/◌, ◌^◌, ◌≤◌, ◌<◌, min, max, ◌≡◌, refl, sym, ap, ap₂, ◌∙◌, inl, inr, true,
  false, List, [], ◌∷◌, ◌++◌, map, append_assoc, append-nil, arith, length, slice, slice_none,
  slice_join, lt-or-le, Bool-cases,
}
use lakewing.Layout.{row_bytes, row_of, as_i32, i32_max}
use lakewing.Cache.Meta.{Meta, Segment, segments}
use lakewing.Read.Plan.{Piece, part_ranges, outside, piece, plan_segment, plan_segments, plan}
use lakewing.Read.Ranges.{ranges_concat, ranges_concat-part_ranges, EndBy, part_ranges-EndBy}
use lakewing.Read.RowSlices.{row_part, range_part, cut, range_part-eq-slice}

abbrev pub ranges_part : List ℕ → ℕ → ℕ → ℕ → List (ℕ × ℕ) → List ℕ
ranges_part file base start end [] = []
ranges_part file base start end (r ∷ rs) =
    range_part file base start end r ++ ranges_part file base start end rs

-- What the rows of the pieces add, in the order of the pieces, given the content of each file.
abbrev pub pieces_part : (ℕ → List ℕ) → ℕ → ℕ → List Piece → List ℕ
pieces_part files start end [] = []
pieces_part files start end (p ∷ ps) =
    range_part (files p.file_id) p.base start end (p.lo, p.hi) ++ pieces_part files start end ps

ranges_part-eq-concat :
    (base start end : ℕ) (file : List ℕ) (rs : List (ℕ × ℕ))
    → ranges_part file base start end rs
      ≡ ranges_concat (λ n. row_part base n (row_of file n) start end) rs
ranges_part-eq-concat base start end file [] = refl
ranges_part-eq-concat base start end file (r ∷ rs) =
    ap (λ t. range_part file base start end r ++ t) (ranges_part-eq-concat base start end file rs)

-- The rows of the pieces that `plan` makes for one segment add the segment's part of the request.
pieces_part-map :
    (files : ℕ → List ℕ) (start end : ℕ) (g : Segment) (rs : List (ℕ × ℕ))
    → pieces_part files start end (map (piece g) rs)
      ≡ ranges_part (files g.file_id) g.base start end rs
unfolding piece
pieces_part-map files start end g [] = refl
pieces_part-map files start end g (r ∷ rs) =
    ap (λ t. range_part (files g.file_id) g.base start end r ++ t)
      (pieces_part-map files start end g rs)

pieces_part-append :
    (files : ℕ → List ℕ) (start end : ℕ) (ps qs : List Piece)
    → pieces_part files start end (ps ++ qs)
      ≡ pieces_part files start end ps ++ pieces_part files start end qs
pieces_part-append files start end [] qs = refl
pieces_part-append files start end (p ∷ ps) qs =
    ap (λ t. range_part (files p.file_id) p.base start end (p.lo, p.hi) ++ t)
      (pieces_part-append files start end ps qs)
    ∙ sym (append_assoc _ (pieces_part files start end ps) (pieces_part files start end qs))

first_row : ℕ → Segment → ℕ
first_row start g = as_i32 ((max start g.base - g.base) / row_bytes)

last_row : ℕ → Segment → ℕ
last_row end g = as_i32 ((min end (g.base + g.len - 1) - g.base) / row_bytes)

module _ (size start end : ℕ) (g : Segment) where
  outside_empty : outside g start end ≡ true → min (end + 1) (g.base + g.len) ≤ max start g.base
  unfolding outside
  outside_empty h = ground arith

  -- The guard of `plan` is false.
  record IsInside : Type 0 where
    some_bytes : 0 < g.len
    not_before : start < g.base + g.len
    not_after : g.base ≤ end

  not_outside : outside g start end ≡ false → IsInside
  unfolding outside
  not_outside h = record {
    some_bytes = ground arith;
    not_before = ground arith;
    not_after = ground arith;
  }

  module _ (fits : g.base + g.len ≤ size) (small : size ≤ 2 ^ 31 * row_bytes) (inside : IsInside)
      (ordered : start ≤ end) where
    last_row-le : last_row end g ≤ i32_max
    unfolding last_row row_bytes
    last_row-le = omega (arith, inside.some_bytes)

    cut-first_row :
        cut g.base (max start g.base) (min (end + 1) (g.base + g.len)) (first_row start g)
        ≡ max start g.base
    unfolding first_row row_bytes
    cut-first_row = omega (arith, inside.some_bytes, inside.not_before, inside.not_after)

    cut-last_row :
        cut g.base
          (max start g.base)
          (min (end + 1) (g.base + g.len))
          (first_row start g + (last_row end g + 1 - first_row start g))
        ≡ min (end + 1) (g.base + g.len)
    unfolding first_row last_row row_bytes
    cut-last_row = omega (arith, inside.some_bytes, inside.not_before, inside.not_after)

-- Two neighbouring segments add what one segment would.
slices_meet :
    (xs : List ℕ) (s base q e : ℕ)
    → base ≤ q
    → slice xs (max s base) (min e q) ++ slice xs (max s q) e ≡ slice xs (max s base) e
slices_meet xs s base q e h = elim (lt-or-le s q) [
  | inr before ↦
      ap (λ t. t ++ slice xs (max s q) e) (slice_none xs (max s base) (min e q) (omega arith))
      ∙ ap (λ a. slice xs a e) (let p : max s q ≡ max s base = omega arith in p)
  | inl after ↦ elim (lt-or-le q e) [
    | inl split ↦
        ap₂ (λ a b. slice xs (max s base) a ++ slice xs b e)
          (let p : min e q ≡ q = omega arith in p) (let p : max s q ≡ q = omega arith in p)
        ∙ slice_join xs (max s base) q e (omega arith) (omega arith)
    | inr last ↦
        ap₂ (λ a t. slice xs (max s base) a ++ t) (let p : min e q ≡ e = omega arith in p)
          (slice_none xs (max s q) e (omega arith))
        ∙ append-nil _
  ]
]

-- Where the segments of an object lie: one after the other from `prev` up to the object's end,
-- each with its file's content.
abbrev pub IsStoredFrom : List ℕ → (ℕ → List ℕ) → ℕ → List Segment → Type 0
IsStoredFrom obj files prev [] = prev ≡ length obj
IsStoredFrom obj files prev (g ∷ gs) =
    (g.base ≡ prev)
    × (g.base + g.len ≤ length obj)
    × (files g.file_id ≡ slice obj g.base (g.base + g.len))
    × IsStoredFrom obj files (g.base + g.len) gs

module _ (obj : List ℕ) (files : ℕ → List ℕ) (start end step : ℕ)
    (small : length obj ≤ 2 ^ 31 * row_bytes) (ordered : start ≤ end) where
  pieces_part-plan_segment :
      (g : Segment)
      → g.base + g.len ≤ length obj
      → files g.file_id ≡ slice obj g.base (g.base + g.len)
      → pieces_part files start end (plan_segment g start end step)
        ≡ slice obj (max start g.base) (min (end + 1) (g.base + g.len))
  unfolding plan_segment first_row last_row row_bytes
  pieces_part-plan_segment g fits stored = elim (Bool-cases (outside g start end)) [
    | inl out ↦
        rw (out, plan_segment)
          (sym (slice_none obj _ _ (outside_empty (length obj) start end g out)))
    | inr ins ↦
        let i : IsInside (length obj) start end g = not_outside (length obj) start end g ins in
        let lo : ℕ = first_row start g in
        let hi : ℕ = last_row end g in
        rw (ins, plan_segment)
          (pieces_part-map files start end g (part_ranges lo hi step)
            ∙ ranges_part-eq-concat g.base start end (files g.file_id) (part_ranges lo hi step)
            ∙ ranges_concat-part_ranges _ lo hi step
                (last_row-le (length obj) start end g fits small i ordered)
            ∙ range_part-eq-slice obj g.base g.len start end fits (files g.file_id) lo hi stored
            ∙ ap₂ (slice obj) (cut-first_row (length obj) start end g fits small i ordered)
                (cut-last_row (length obj) start end g fits small i ordered))
  ]

  pieces_part-plan_segments :
      (prev : ℕ) (gs : List Segment)
      → end < length obj
      → IsStoredFrom obj files prev gs
      → pieces_part files start end (plan_segments gs start end step)
        ≡ slice obj (max start prev) (end + 1)
  unfolding plan_segments
  pieces_part-plan_segments prev [] inside stored = sym (slice_none obj _ _ (omega arith))
  pieces_part-plan_segments prev (g ∷ gs) inside (at, fits, stored, rest) =
      pieces_part-append files start end (plan_segment g start end step) _
      ∙ ap₂ (λ s t. s ++ t) (pieces_part-plan_segment g fits stored)
          (pieces_part-plan_segments (g.base + g.len) gs inside rest)
      ∙ slices_meet obj start g.base (g.base + g.len) (end + 1) (omega arith)
      ∙ ap (λ b. slice obj (max start b) (end + 1)) at

-- For a whole object: the rows that `plan` asks for hold the requested bytes.
pub pieces_part-plan :
    (obj : List ℕ) (files : ℕ → List ℕ) (m : Meta) (start end step : ℕ)
    → length obj ≤ 2 ^ 31 * row_bytes
    → start ≤ end
    → end < length obj
    → IsStoredFrom obj files 0 (segments m)
    → pieces_part files start end (plan m start end step) ≡ slice obj start (end + 1)
unfolding plan
pieces_part-plan obj files m start end step small ordered inside stored =
    pieces_part-plan_segments obj files start end step small ordered 0 (segments m) inside stored
    ∙ ap (λ a. slice obj a (end + 1)) (let e : max start 0 ≡ start = omega arith in e)

abbrev pub AllPieces : (Piece → Type 0) → List Piece → Type 0
AllPieces P [] = Unit
AllPieces P (p ∷ ps) = P p × AllPieces P ps

pub AllPieces-append :
    (P : Piece → Type 0) (ps qs : List Piece)
    → AllPieces P ps
    → AllPieces P qs
    → AllPieces P (ps ++ qs)
AllPieces-append P [] qs hp hq = hq
AllPieces-append P (p ∷ ps) qs hp hq = (hp.0, AllPieces-append P ps qs hp.1 hq)

-- A piece of the segment, with no row behind its last one.
abbrev pub IsPieceOf : Segment → Piece → Type 0
IsPieceOf g p = (p.file_id ≡ g.file_id) × (p.hi * row_bytes < g.len)

AllPieces-map :
    (g : Segment) (last : ℕ) (rs : List (ℕ × ℕ))
    → last * row_bytes < g.len
    → EndBy last rs
    → AllPieces (IsPieceOf g) (map (piece g) rs)
unfolding piece row_bytes
AllPieces-map g last [] h ends = tt
AllPieces-map g last (r ∷ rs) h ends =
    ((refl, omega (arith, ends.0)), AllPieces-map g last rs h ends.1)

-- `plan` asks for no row that the segment lacks.
pub plan_segment-AllPieces :
    (size start end step : ℕ) (g : Segment)
    → g.base + g.len ≤ size
    → size ≤ 2 ^ 31 * row_bytes
    → start ≤ end
    → AllPieces (IsPieceOf g) (plan_segment g start end step)
unfolding plan_segment row_bytes
plan_segment-AllPieces size start end step g fits small ordered =
    elim (Bool-cases (outside g start end)) [
      | inl out ↦ rw (out, plan_segment) tt
      | inr ins ↦
          let i : IsInside size start end g = not_outside size start end g ins in
          rw (ins, plan_segment)
            (AllPieces-map g _ _ (omega (arith, i.some_bytes, i.not_after))
              (part_ranges-EndBy _ _ step))
    ]
