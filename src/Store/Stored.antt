-- ===== src/Store/Stored.antt =====
-- An object that is stored: its segments lie one after the other, and the chunk table holds their
-- files; and a span of it.
use mathlib.Core.List.{Permᴰ}
use lakewing.Prelude.{
  ℕ, ◌+◌, ◌-◌, ◌*◌, ◌^◌, ◌≤◌, ◌<◌, ◌≡◌, refl, sym, ap, ap₂, subst, ◌∙◌, some, Bool, true, ◌||◌,
  List, [], ◌∷◌, map, arith, length, length-slice, min, slice, concat, ◌==◌,
}
use lakewing.Layout.{row_bytes, part_rows}
use lakewing.Cache.Meta.{Meta, Segment, segments}
use lakewing.Ingest.{div_ceil}
use lakewing.Ingest.Format.{CopyRow, row_count, file_rows}
use lakewing.Read.Plan.{Piece, plan, plan_segment, plan_segments}
use lakewing.Read.Cover.{
  AllPieces, AllPieces-append, IsPieceOf, plan_segment-AllPieces, IsStoredFrom,
}
use lakewing.Read.Span.{Row, next, stream_span}
use lakewing.Read.Early.{has_row, AllRows}
use lakewing.Read.Drain.{IsRowOf, Arrives}
use lakewing.Read.Stream.{stream_span_complete}
use lakewing.Store.Tables.{select_rows}
use lakewing.Store.Files.{HoldsFile, file_rows-Arrives}

abbrev pub HoldsSegments : List CopyRow → (ℕ → List ℕ) → List Segment → Type 0
HoldsSegments cs files [] = Unit
HoldsSegments cs files (g ∷ gs) =
    HoldsFile cs g.file_id (files g.file_id) × HoldsSegments cs files gs

-- The chunk table stores the bytes `obj` under the metadata `m`.
pub record IsStored (cs : List CopyRow) (m : Meta) (obj : List ℕ) : Type 0 where
  pub files : ℕ → List ℕ
  pub laid : IsStoredFrom obj files 0 (segments m)
  pub held : HoldsSegments cs files (segments m)
  pub size_ok : m.size ≡ length obj

AllRows-perm : (P : Row → Type 0) {xs ys : List Row} → Permᴰ xs ys → AllRows P ys → AllRows P xs
AllRows-perm P Permᴰ.nil all = tt
AllRows-perm P (Permᴰ.cons e p) all = (subst P (sym e) all.0, AllRows-perm P p all.1)
AllRows-perm P (Permᴰ.swap e f) all = (subst P (sym e) all.1.0, (subst P (sym f) all.0, all.1.1))
AllRows-perm P (Permᴰ.trans p q) all = AllRows-perm P p (AllRows-perm P q all)

has_row-perm : (k : ℕ) {xs ys : List Row} → Permᴰ xs ys → has_row k xs ≡ has_row k ys
has_row-perm k Permᴰ.nil = refl
has_row-perm k (Permᴰ.cons e p) = ap₂ (λ (r : Row) b. r.row_no == k || b) e (has_row-perm k p)
has_row-perm k (Permᴰ.swap {l = l} e f) =
    ap₂ (λ (r s : Row). r.row_no == k || (s.row_no == k || has_row k l)) e f ∙ ground arith
has_row-perm k (Permᴰ.trans p q) = has_row-perm k p ∙ has_row-perm k q

Arrives-perm :
    (start end : ℕ) (p : Piece) (file : List ℕ) {xs ys : List Row}
    → Permᴰ xs ys
    → Arrives start end p file ys
    → Arrives start end p file xs
Arrives-perm start end p file perm a = record {
  rows_ok = AllRows-perm (IsRowOf start end p file) perm a.rows_ok;
  complete = λ k lo hi. has_row-perm k perm ∙ a.complete k lo hi;
}

-- A row whose offset is below the length of the file is one of its rows.
row_count_above : (file : List ℕ) (n : ℕ) → n * row_bytes < length file → n < row_count file
unfolding row_count div_ceil row_bytes
row_count_above file n h = ground arith

module _ (cs : List CopyRow) (obj : List ℕ) (files : ℕ → List ℕ) (start end : ℕ)
    (rows : Piece → List Row) (any_order : (p : Piece) → Permᴰ (rows p) (select_rows p cs))
    (small : length obj ≤ 2 ^ 31 * row_bytes) (ordered : start ≤ end) where
  abbrev Delivered : Piece → Type 0
  Delivered p = Arrives start end p (files p.file_id) (rows p)

  pub piece-Delivered :
      (g : Segment) (p : Piece)
      → length (files g.file_id) ≡ g.len
      → HoldsFile cs g.file_id (files g.file_id)
      → IsPieceOf g p
      → Delivered p
  piece-Delivered g p len held is = Arrives-perm start end p (files p.file_id) (any_order p) (
      subst (Arrives start end p (files p.file_id))
        (sym (held p is.0 ∙ ap (λ n. select_rows p (file_rows n (files n))) (sym is.0)))
        (file_rows-Arrives start end p (files p.file_id) (
          row_count_above (files p.file_id) p.hi (
            subst (λ n. p.hi * row_bytes < n) (sym (ap (λ n. length (files n)) is.0 ∙ len)) is.1))))

  pieces-Delivered :
      (g : Segment) (ps : List Piece)
      → length (files g.file_id) ≡ g.len
      → HoldsFile cs g.file_id (files g.file_id)
      → AllPieces (IsPieceOf g) ps
      → AllPieces Delivered ps
  pieces-Delivered g [] len held all = tt
  pieces-Delivered g (p ∷ ps) len held all =
      (piece-Delivered g p len held all.0, pieces-Delivered g ps len held all.1)

  pub segment_length :
      (g : Segment)
      → g.base + g.len ≤ length obj
      → files g.file_id ≡ slice obj g.base (g.base + g.len)
      → length (files g.file_id) ≡ g.len
  segment_length g fits e =
      ap length e
      ∙ length-slice obj g.base (g.base + g.len)
      ∙ (let q : min (g.base + g.len) (length obj) - g.base ≡ g.len = omega arith in q)

  segments-Delivered :
      (prev : ℕ) (gs : List Segment)
      → IsStoredFrom obj files prev gs
      → HoldsSegments cs files gs
      → AllPieces Delivered (plan_segments gs start end part_rows)
  unfolding plan_segments
  segments-Delivered prev [] laid held = tt
  segments-Delivered prev (g ∷ gs) (at, fits, e, rest) (held, more) =
      AllPieces-append Delivered (plan_segment g start end part_rows) _
        (pieces-Delivered g _ (segment_length g fits e) held
          (plan_segment-AllPieces (length obj) start end part_rows g fits small ordered))
        (segments-Delivered (g.base + g.len) gs rest more)

-- A GET of bytes `start` to `end` of a stored object sends exactly those bytes, in whatever order
-- PostgreSQL returns the rows of each query.
pub stream_span-IsStored :
    (cs : List CopyRow) (m : Meta) (obj : List ℕ) (start end : ℕ) (accepts : ℕ → Bool)
    (rows : Piece → List Row)
    → IsStored cs m obj
    → length obj ≤ 2 ^ 31 * row_bytes
    → start ≤ end
    → end < length obj
    → ((n : ℕ) → accepts n ≡ true)
    → ((p : Piece) → Permᴰ (rows p) (select_rows p cs))
    → (out : List (List ℕ)) × (stream_span start end accepts (λ p. map some (rows p)) m ≡ next out)
      × (concat out ≡ slice obj start (end + 1))
unfolding plan
stream_span-IsStored cs m obj start end accepts rows s small ordered inside all any_order =
    stream_span_complete obj s.files m start end accepts rows small ordered inside s.laid all (
      segments-Delivered cs obj s.files start end rows any_order small ordered 0 (segments m) s.laid
        s.held)
