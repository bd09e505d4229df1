-- ===== src/Store/Gets.antt =====
-- `get_body` of crates/pgvs3/src/db.rs: what a GET through the cache answers.
use mathlib.Core.List.{Permᴰ}
use lakewing.Prelude.{
  ℕ, ◌+◌, ◌-◌, ◌*◌, ◌^◌, ◌≤◌, ◌<◌, ◌≡◌, refl, sym, ap, subst, ◌∙◌, inl, inr, some, Bool, true,
  false, List, [], ◌∷◌, ◌++◌, map, length, concat, slice, arith, ◌==◌, append_assoc, append-nil,
  length-append, Bool-cases, min, length-slice,
}
use lakewing.Prelude.Int.{pos}
use lakewing.Layout.{row_bytes}
use lakewing.Cache.Meta.{Meta}
use lakewing.Read.Plan.{Piece}
use lakewing.Read.Span.{Row}
use lakewing.Read.Request.{RangeParams, eff_range, SliceMeta, slice_len, unsatisfiable}
use lakewing.Ingest.Format.{CopyRow}
use lakewing.Store.Tables.{select_rows}
use lakewing.Store.Stored.{IsStored, stream_span-IsStored}
use lakewing.Store.Cached.{
  bytes, span_items, PieceBody, one_shot, streamed, found, return, slice_meta, on_head, serve_meta,
  collect, body_bytes,
}

collect-bytes :
    (out : List ℕ) (items : List (List ℕ))
    → collect out (map bytes items) ≡ inr (out ++ concat items)
unfolding collect
collect-bytes out [] = ap inr (sym (append-nil out))
collect-bytes out (b ∷ items) =
    collect-bytes (out ++ b) items ∙ ap inr (append_assoc out b (concat items))

empty-length : (xs : List ℕ) → length xs ≡ 0 → xs ≡ []
empty-length [] h = refl
empty-length (x ∷ xs) h = absurd (omega (arith, h))

-- A channel that delivers `len` bytes, and not none, becomes a response with these bytes.
on_head-bytes :
    (last : Bool) (s : SliceMeta) (len : ℕ) (out : List (List ℕ))
    → 0 < len
    → length (concat out) ≡ len
    → (b : PieceBody) × (on_head last s len (map bytes out) ≡ return (found s b))
      × (body_bytes b ≡ inr (concat out))
unfolding on_head body_bytes
on_head-bytes last s len [] some_bytes n = absurd (omega (arith, n))
on_head-bytes last s len (head ∷ rest) some_bytes n = elim (Bool-cases (length head == len)) [
  | inl whole ↦ (
    one_shot head,
    rw whole refl,
    ap inr (
        sym (
          ap (λ t. head ++ t)
            (empty-length (concat rest) (
              let k : length head + length (concat rest) ≡ len =
                sym (length-append head (concat rest)) ∙ n in
              ground (arith, whole, k)))
          ∙ append-nil head)),
  )
  | inr part_only ↦
      (streamed head (map bytes rest), rw part_only refl, collect-bytes [] (head ∷ rest))
]

pub slice_len_pos :
    (start end : ℕ) → start ≤ end → slice_len (pos start) (pos end) ≡ end + 1 - start
unfolding slice_len
slice_len_pos start end h = ground arith

module _ (accepts : ℕ → Bool) (p : RangeParams) (m : Meta) (obj : List ℕ) (start end : ℕ)
    (cs : List CopyRow) (rows : Piece → List Row) where
  -- One attempt with metadata that is stored.
  pub serve_meta-IsStored :
      (last : Bool)
      → IsStored cs m obj
      → length obj ≤ 2 ^ 31 * row_bytes
      → eff_range m.size p ≡ (pos start, pos end)
      → start ≤ end
      → end < length obj
      → ((n : ℕ) → accepts n ≡ true)
      → ((q : Piece) → Permᴰ (rows q) (select_rows q cs))
      → (b : PieceBody) × (serve_meta accepts last p (λ q. map some (rows q)) m
          ≡ return (found (slice_meta m (pos start, pos end)) b))
        × (body_bytes b ≡ inr (slice obj start (end + 1)))
  unfolding serve_meta unsatisfiable span_items
  serve_meta-IsStored last s small range ordered inside all any_order =
      let (out, sent, same) =
        stream_span-IsStored cs m obj start end accepts rows s small ordered inside all any_order in
      let len : ℕ = slice_len (pos start) (pos end) in
      let len_eq : len ≡ end + 1 - start = slice_len_pos start end ordered in
      let size : m.size ≡ length obj = s.size_ok in
      let n : length (concat out) ≡ len =
        ap length same
        ∙ length-slice obj start (end + 1)
        ∙ (let e : min (end + 1) (length obj) - start ≡ end + 1 - start = omega arith in e)
        ∙ sym len_eq in
      let some_bytes : 0 < len = subst (λ k. 0 < k) (sym len_eq) (omega arith) in
      let (b, served, whole) =
        on_head-bytes last (slice_meta m (pos start, pos end)) len out some_bytes n in
      let fits : unsatisfiable m.size (pos start, pos end) ≡ false = ground (arith, size) in
      let some_len : (len == 0) ≡ false = ground (arith, some_bytes) in
      (b, rw (range, serve_meta, fits, some_len) (rw sent served), whole ∙ ap inr same)
