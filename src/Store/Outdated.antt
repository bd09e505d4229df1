-- ===== src/Store/Outdated.antt =====
-- A GET with the metadata of any time, as the cache of another process may still have it. The file
-- ids of crates/pgvs3/src/db.rs are never used again.
use mathlib.Core.List.{Permᴰ, map-append}
use lakewing.Prelude.{
  ℕ, ◌+◌, ◌*◌, ◌^◌, ◌≤◌, ◌<◌, ◌≡◌, ◌⊎◌, ◌∙◌, inl, inr, sym, ap, subst, Option, some, Bool, true,
  List, [], ◌∷◌, ◌++◌, map, length, slice, concat, arith, ltb, Bool-cases, if◌then◌else◌,
}
use lakewing.Layout.{row_bytes, part_rows}
use lakewing.Cache.Meta.{Meta, Segment, segments}
use lakewing.Ingest.Format.{file_rows}
use lakewing.Read.Plan.{Piece, plan, plan_segment, plan_segments}
use lakewing.Read.Cover.{
  AllPieces, AllPieces-append, IsPieceOf, IsStoredFrom, plan_segment-AllPieces,
}
use lakewing.Read.Span.{Row, Stop, next, stop, stream_span}
use lakewing.Read.Gaps.{IsGap, AnyGap, AnyGap-append, fetched, stream_span_gap}
use lakewing.Read.Drain.{Arrives}
use lakewing.Read.Stream.{stream_span_complete}
use lakewing.Store.Tables.{Db, select_rows}
use lakewing.Store.Owners.{owners}
use lakewing.Store.Held.{Held-HoldsFile}
use lakewing.Store.Stored.{piece-Delivered, segment_length}
use lakewing.Store.Stale.{perm_empty}
use lakewing.Store.Sound.{IsLaid, IsSound, bytes_of}

module _ (files : ℕ → List ℕ) (used : List ℕ) (db : Db) (m : Meta) (start end : ℕ)
    (accepts : ℕ → Bool) (rows : Piece → List Row) (s : IsSound files used db)
    (any_order : (p : Piece) → Permᴰ (rows p) (select_rows p db.chunks))
    (small : length (bytes_of files m) ≤ 2 ^ 31 * row_bytes) (ordered : start ≤ end) where
  abbrev delivers : Piece → List (Option Row)
  delivers p = map some (rows p)

  abbrev Delivered : Piece → Type 0
  Delivered p = Arrives start end p (files p.file_id) (rows p)

  abbrev gaps : List Piece → List (Piece × List (Option Row))
  gaps ps = fetched start end accepts delivers ps

  -- The rows of a piece arrive, or it is a gap.
  Delivered-or_IsGap :
      (g : Segment) (p : Piece)
      → length (files g.file_id) ≡ g.len
      → IsPieceOf g p
      → Delivered p ⊎ IsGap (p, delivers p)
  Delivered-or_IsGap g p len is = elim (Bool-cases (ltb 0 (owners db g.file_id))) [
    | inl owned ↦ inl (
        piece-Delivered db.chunks (bytes_of files m) files start end rows any_order small ordered g
          p len
          (Held-HoldsFile files db.chunks (owners db) g.file_id (ground (arith, owned)) s.held) is)
    | inr unowned ↦
        (let none_there : select_rows p db.chunks ≡ [] =
            s.held p
            ∙ ap
                (λ n.
                  if ltb 0 (owners db n)
                  then select_rows p (file_rows p.file_id (files p.file_id))
                  else [])
                is.0
            ∙ ap
                (λ (b : Bool).
                  if b then select_rows p (file_rows p.file_id (files p.file_id)) else [])
                unowned in
          let gone : rows p ≡ [] =
            perm_empty (rows p) (subst (Permᴰ (rows p)) none_there (any_order p)) in
          elim (Bool-cases (ltb p.hi p.lo)) [
            | inr asked ↦ inr (ap (map some) gone, asked)
            | inl none_asked ↦ inl (
                subst (Arrives start end p (files p.file_id)) (sym gone) (record {
                  rows_ok = tt;
                  complete = λ k from upto. absurd (ground (arith, none_asked, from, upto));
                }))
          ])
  ]

  pieces_or_gap :
      (g : Segment) (ps : List Piece)
      → length (files g.file_id) ≡ g.len
      → AllPieces (IsPieceOf g) ps
      → AllPieces Delivered ps ⊎ AnyGap (gaps ps)
  pieces_or_gap g [] len all = inl tt
  pieces_or_gap g (p ∷ ps) len all = elim (Delivered-or_IsGap g p len all.0) [
    | inr gap ↦ inr (inl gap)
    | inl here ↦ elim (pieces_or_gap g ps len all.1) [
      | inr gap ↦ inr (inr gap)
      | inl more ↦ inl (here, more)
    ]
  ]

  AnyGap-gaps :
      (ps qs : List Piece) → AnyGap (gaps ps) ⊎ AnyGap (gaps qs) → AnyGap (gaps (ps ++ qs))
  AnyGap-gaps ps qs gap =
      subst AnyGap (sym (map-append (λ p. (p, delivers p)) ps qs))
        (AnyGap-append (gaps ps) (gaps qs) gap)

  segments_or_gap :
      (prev : ℕ) (gs : List Segment)
      → IsStoredFrom (bytes_of files m) files prev gs
      → AllPieces Delivered (plan_segments gs start end part_rows)
        ⊎ AnyGap (gaps (plan_segments gs start end part_rows))
  unfolding plan_segments
  segments_or_gap prev [] laid = inl tt
  segments_or_gap prev (g ∷ gs) (at, fits, e, rest) =
      elim (pieces_or_gap g (plan_segment g start end part_rows)
        (segment_length db.chunks (bytes_of files m) files start end rows any_order small ordered g
          fits e)
        (plan_segment-AllPieces (length (bytes_of files m)) start end part_rows g fits small
          ordered)) [
            | inr gap ↦ inr (AnyGap-gaps (plan_segment g start end part_rows) _ (inl gap))
            | inl here ↦ elim (segments_or_gap (g.base + g.len) gs rest) [
              | inr gap ↦ inr (AnyGap-gaps (plan_segment g start end part_rows) _ (inr gap))
              | inl more ↦
                  inl (AllPieces-append Delivered (plan_segment g start end part_rows) _ here more)
            ]
          ]

  -- At a sound database, a span of an object whose metadata may be of any time, if it lays out the
  -- object in the files that its writers were given, sends exactly the bytes of the range or stops
  -- with an error: if the object has at most 2^31 rows, the range lies in it and the client takes
  -- every message, in whatever order the rows come back.
  pub stream_span-IsLaid :
      IsLaid files m
      → end < length (bytes_of files m)
      → ((n : ℕ) → accepts n ≡ true)
      → ((out : List (List ℕ)) × (stream_span start end accepts delivers m ≡ next out)
          × (concat out ≡ slice (bytes_of files m) start (end + 1)))
        ⊎ ((r : Stop) × (out : List (List ℕ)) × (stream_span start end accepts delivers m
              ≡ stop r out))
  unfolding plan
  stream_span-IsLaid l inside all = elim (segments_or_gap 0 (segments m) l.laid) [
    | inr gap ↦ inr (stream_span_gap start end accepts delivers m gap)
    | inl arrive ↦ inl (
        stream_span_complete (bytes_of files m) files m start end accepts rows small ordered inside
          l.laid all arrive)
  ]
