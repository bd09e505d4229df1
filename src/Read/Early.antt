-- ===== src/Read/Early.antt =====
-- The map of rows that run ahead, and what `put_row` and `flush` do to the response.
use lakewing.Prelude.{
  ℕ, suc, ◌+◌, ◌≡◌, ◌≢◌, refl, sym, ap, subst, ◌∙◌, inl, inr, none, some, Bool, true, false, ◌||◌,
  List, [], ◌∷◌, ◌++◌, append-nil, arith, length, length-append, concat, concat-append, leb, ◌==◌,
  Bool-cases, Option-cases,
}
use lakewing.Layout.{chunk_bytes}
use lakewing.Read.Plan.{Piece, row_slice}
use lakewing.Read.RowSlices.{row_part}
use lakewing.Read.Span.{Row, next, Output, early_insert, early_remove, put_row, flush}

abbrev pub has_row : ℕ → List Row → Bool
has_row n [] = false
has_row n (r ∷ rs) = r.row_no == n || has_row n rs

abbrev pub AllRows : (Row → Type 0) → List Row → Type 0
AllRows P [] = Unit
AllRows P (r ∷ rs) = P r × AllRows P rs

pub has_row-early_insert :
    (n : ℕ) (es : List Row) (r : Row)
    → has_row n (early_insert es r) ≡ (r.row_no == n || has_row n es)
unfolding early_insert
has_row-early_insert n [] r = refl
has_row-early_insert n (e ∷ es) r = ground (arith, has_row-early_insert n es r)

pub AllRows-early_insert :
    (P : Row → Type 0) (es : List Row) (r : Row)
    → AllRows P es
    → P r
    → AllRows P (early_insert es r)
unfolding early_insert
AllRows-early_insert P [] r all p = (p, tt)
AllRows-early_insert P (e ∷ es) r all p = elim (Bool-cases (e.row_no == r.row_no)) [
  | inl same ↦ rw (same, early_insert) (p, all.1)
  | inr other ↦ rw (other, early_insert) (all.0, AllRows-early_insert P es r all.1 p)
]

-- What `early_remove` finds and leaves.
pub record Removed (P : Row → Type 0) (n : ℕ) (es : List Row) (r : Row) (rest : List Row)
    : Type 0 where
  pub named : r.row_no ≡ n
  pub shorter : length es ≡ suc (length rest)
  pub kept : (k : ℕ) → k ≢ n → has_row k es ≡ has_row k rest
  pub all_kept : AllRows P es → P r × AllRows P rest

Removed-head :
    (P : Row → Type 0) (n : ℕ) (e : Row) (es : List Row) {r : Row} {rest : List Row}
    → (e.row_no == n) ≡ true
    → e ≡ r
    → es ≡ rest
    → Removed P n (e ∷ es) r rest
Removed-head P n e es same p q = record {
  named = ground arith;
  shorter = ap (λ t. suc (length t)) q;
  kept = λ k other. ground arith;
  all_kept = λ all. (subst P p all.0, subst (AllRows P) q all.1);
}

Removed-tail :
    (P : Row → Type 0) (n : ℕ) (e : Row) (es : List Row) {r r' : Row} {rest es' : List Row}
    → Removed P n es r' es'
    → r' ≡ r
    → e ∷ es' ≡ rest
    → Removed P n (e ∷ es) r rest
Removed-tail P n e es {r} {r'} {rest} {es'} ih p q = record {
  named = sym (ap (λ (t : Row). t.row_no) p) ∙ ih.named;
  shorter = ap suc (ih.shorter ∙ ap length q);
  kept = λ k other. ap (λ b. e.row_no == k || b) (ih.kept k other) ∙ ap (has_row k) q;
  all_kept = λ all.
      let both : P r' × AllRows P es' = ih.all_kept all.1 in
      (subst P p both.0, subst (AllRows P) q (all.0, both.1));
}

pub early_remove-eq-some :
    (P : Row → Type 0) (n : ℕ) (es : List Row) {r : Row} {rest : List Row}
    → early_remove n es ≡ some (r, rest)
    → Removed P n es r rest
unfolding early_remove
early_remove-eq-some P n [] h = cc
early_remove-eq-some P n (e ∷ es) {r} {rest} h = elim (Bool-cases (e.row_no == n)) [
  | inl same ↦ Removed-head P n e es same (ground arith) (ground arith)
  | inr other ↦ elim (Option-cases (early_remove n es)) [
    | inl missing ↦ absurd (ground arith)
    | inr ((r', es'), found) ↦
        Removed-tail P n e es (early_remove-eq-some P n es found) (ground arith) (ground arith)
  ]
]

pub early_remove-eq-none : (n : ℕ) (es : List Row) → early_remove n es ≡ none → has_row n es ≡ false
unfolding early_remove
early_remove-eq-none n [] h = refl
early_remove-eq-none n (e ∷ es) h = ground (arith, early_remove-eq-none n es)

module _ (start end : ℕ) where
  pub put_row-eq-append :
      (chunk : List ℕ) (p : Piece) (n : ℕ) (bytes : List ℕ)
      → put_row start end chunk p n bytes ≡ chunk ++ row_part p.base n bytes start end
  unfolding put_row row_part
  put_row-eq-append chunk p n bytes = elim (Option-cases (row_slice p.base n bytes start end)) [
    | inl e ↦ rw (e, put_row, row_part) (sym (append-nil chunk))
    | inr (s, e) ↦ rw (e, put_row, row_part)
  ]

-- What has been sent, and what waits in `chunk`.
abbrev pub bytes_of : Output → List ℕ
bytes_of o = concat o.out ++ o.chunk

abbrev pub IsCounted : Output → Type 0
IsCounted o = o.sent ≡ length (concat o.out)

-- A flush that the client takes moves bytes and changes none.
pub flush_lem :
    (start end : ℕ) (accepts : ℕ → Bool) (o : Output)
    → ((n : ℕ) → accepts n ≡ true)
    → IsCounted o
    → (o' : Output) × (flush start end accepts o ≡ next o')
      × (bytes_of o' ≡ bytes_of o)
      × IsCounted o'
unfolding flush
flush_lem start end accepts o all counted = elim (Bool-cases (leb chunk_bytes (length o.chunk))) [
  | inr small ↦ (o, rw (small, flush), refl, counted)
  | inl big ↦ (
    record { chunk = []; sent = o.sent + length o.chunk; out = o.out ++ (o.chunk ∷ []) },
    rw (big, flush, all (length o.out)),
    ap (λ t. t ++ []) (concat-append o.out (o.chunk ∷ [])) ∙ append-nil _ ∙ tail o,
    ap (λ t. t + length o.chunk) counted
        ∙ sym (length-append _ o.chunk)
        ∙ ap length (sym (concat-append o.out (o.chunk ∷ []) ∙ tail o)),
  )
]
  where
    tail : (o : Output) → concat o.out ++ (o.chunk ++ []) ≡ concat o.out ++ o.chunk
    tail o = ap (λ t. concat o.out ++ t) (append-nil o.chunk)
