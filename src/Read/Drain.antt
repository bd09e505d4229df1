-- ===== src/Read/Drain.antt =====
-- The loop over the rows of one piece, which come in any order.
use lakewing.Prelude.{
  ℕ, zero, suc, ◌+◌, ◌-◌, ◌≤◌, ◌<◌, ◌≡◌, ◌≢◌, refl, sym, ap, ap₂, ◌∙◌, inl, inr, some, Bool, true,
  false, ◌||◌, List, [], ◌∷◌, ◌++◌, map, append_assoc, append-nil, arith, length, concat,
  concat_range, concat_range_last, lt-or-le, lt→ltb, ltb, ◌==◌, Bool-cases, Option-cases,
}
use lakewing.Layout.{row_of}
use lakewing.Read.Plan.{Piece}
use lakewing.Read.RowSlices.{row_part, range_part}
use lakewing.Read.Span.{
  Row, next, Output, Drain, early_insert, early_remove, put_next, put_row, take_early, on_row,
  receive, drain_part,
}
use lakewing.Read.Early.{
  has_row, AllRows, has_row-early_insert, AllRows-early_insert, Removed, early_remove-eq-some,
  early_remove-eq-none, put_row-eq-append, bytes_of, IsCounted, flush_lem,
}

module _ (start end : ℕ) (p : Piece) (file : List ℕ) where
  -- A row of the piece, with the bytes that the file has there.
  pub record IsRowOf (r : Row) : Type 0 where
    pub bytes_ok : r.bytes ≡ row_of file r.row_no
    pub from_lo : p.lo ≤ r.row_no
    pub upto_hi : r.row_no ≤ p.hi

  abbrev part : ℕ → List ℕ
  part n = row_part p.base n (row_of file n) start end

  -- Between two arrivals, with `before` sent or waiting when the piece began and `rest` to come.
  record Inv (before : List ℕ) (rest : List Row) (d : Drain) : Type 0 where
    written : bytes_of d.output ≡ before ++ concat_range part p.lo (d.next_no - p.lo)
    counted : IsCounted d.output
    from_lo : p.lo ≤ d.next_no
    upto_hi : d.next_no - p.lo ≤ p.hi + 1 - p.lo
    early_ok : AllRows IsRowOf d.early
    covered :
        (k : ℕ)
        → p.lo ≤ k
        → k ≤ p.hi
        → (ltb k d.next_no || (has_row k d.early || has_row k rest)) ≡ true

  written_next :
      (before : List ℕ) (d : Drain) (bytes : List ℕ)
      → bytes ≡ row_of file d.next_no
      → p.lo ≤ d.next_no
      → bytes_of d.output ≡ before ++ concat_range part p.lo (d.next_no - p.lo)
      → concat d.output.out ++ put_row start end d.output.chunk p d.next_no bytes
        ≡ before ++ concat_range part p.lo (d.next_no + 1 - p.lo)
  written_next before d bytes e le written =
      ap (λ t. concat d.output.out ++ t)
        (put_row-eq-append start end d.output.chunk p d.next_no bytes
          ∙ ap (λ t. d.output.chunk ++ row_part p.base d.next_no t start end) e)
      ∙ sym (append_assoc (concat d.output.out) d.output.chunk (part d.next_no))
      ∙ ap₂ (λ s k. s ++ part k) written
          (let q : d.next_no ≡ p.lo + (d.next_no - p.lo) = omega arith in q)
      ∙ append_assoc before _ _
      ∙ ap (λ t. before ++ t)
          (sym (concat_range_last part p.lo (d.next_no - p.lo))
            ∙ ap (concat_range part p.lo)
                (let q : suc (d.next_no - p.lo) ≡ d.next_no + 1 - p.lo = omega arith in q))

  -- `put_row` of the row that is next, with `early` what is left.
  put_next-Inv :
      (before : List ℕ) (rest rest' early : List Row) (d : Drain) (bytes : List ℕ)
      → Inv before rest d
      → bytes ≡ row_of file d.next_no
      → d.next_no ≤ p.hi
      → AllRows IsRowOf early
      → ((k : ℕ)
          → k ≢ d.next_no
          → (has_row k d.early || has_row k rest) ≡ true
          → (has_row k early || has_row k rest') ≡ true)
      → Inv before rest' (put_next start end p d bytes early)
  unfolding put_next
  put_next-Inv before rest rest' early d bytes inv e le all kept = record {
    written = written_next before d bytes e inv.from_lo inv.written;
    counted = inv.counted;
    from_lo = omega (arith, inv.from_lo);
    upto_hi = omega (arith, inv.from_lo, inv.upto_hi);
    early_ok = all;
    covered = λ k a b. ground (arith, inv.covered k a b, kept k);
  }

  -- After the rows that were early, the row that is next is not among them.
  take_early-Inv :
      (fuel : ℕ) (before : List ℕ) (rest : List Row) (d : Drain)
      → length d.early ≤ fuel
      → Inv before rest d
      → Inv before rest (take_early start end fuel p d)
        × (has_row (take_early start end fuel p d).next_no (take_early start end fuel p d).early
            ≡ false)
  unfolding take_early
  take_early-Inv zero before rest d short inv = (inv, no_rows d.early short)
    where
      no_rows : (es : List Row) → length es ≤ 0 → has_row d.next_no es ≡ false
      no_rows [] h = refl
      no_rows (e ∷ es) h = absurd (omega arith)
  take_early-Inv (suc fuel) before rest d short inv =
      elim (Option-cases (early_remove d.next_no d.early)) [
        | inl missing ↦
            rw (missing, take_early) (inv, early_remove-eq-none d.next_no d.early missing)
        | inr ((row, es), found) ↦
            let out : Removed IsRowOf d.next_no d.early row es =
              early_remove-eq-some IsRowOf d.next_no d.early found in
            let oks : IsRowOf row × AllRows IsRowOf es = out.all_kept inv.early_ok in
            rw (found, take_early)
              (take_early-Inv fuel before rest (put_next start end p d row.bytes es)
                (unfold put_next in omega (arith, out.shorter))
                (put_next-Inv before rest rest es d row.bytes inv
                  (oks.0.bytes_ok ∙ ap (row_of file) out.named)
                  (omega (arith, out.named, oks.0.upto_hi)) oks.1
                  (λ k other h. ground (arith, out.kept k other))))
      ]

  -- A drain between two arrivals: the row that is next is not early.
  abbrev Waits : List ℕ → List Row → Drain → Type 0
  Waits before rest d = Inv before rest d × (has_row d.next_no d.early ≡ false)

  Waits-output :
      (before : List ℕ) (rest : List Row) (d : Drain) (o : Output)
      → Waits before rest d
      → bytes_of o ≡ bytes_of d.output
      → IsCounted o
      → Waits before rest (record d { output = o })
  Waits-output before rest d o (inv, none_next) e counted = (
    record {
      written = e ∙ inv.written;
      counted = counted;
      from_lo = inv.from_lo;
      upto_hi = inv.upto_hi;
      early_ok = inv.early_ok;
      covered = inv.covered;
    },
    none_next,
  )

  -- A row that runs ahead is kept.
  early_insert-Waits :
      (before : List ℕ) (rest : List Row) (d : Drain) (row : Row)
      → Waits before (row ∷ rest) d
      → IsRowOf row
      → (row.row_no == d.next_no) ≡ false
      → Waits before rest (record d { early = early_insert d.early row })
  early_insert-Waits before rest d row (inv, none_next) ok other = (
    record {
      written = inv.written;
      counted = inv.counted;
      from_lo = inv.from_lo;
      upto_hi = inv.upto_hi;
      early_ok = AllRows-early_insert IsRowOf d.early row inv.early_ok ok;
      covered = λ k a b. ground (arith, inv.covered k a b, has_row-early_insert k d.early row);
    },
    ground (arith, has_row-early_insert d.next_no d.early row),
  )

  -- The row that is next, and the early rows behind it.
  take_early-Waits :
      (before : List ℕ) (rest : List Row) (d : Drain) (row : Row)
      → Waits before (row ∷ rest) d
      → IsRowOf row
      → (row.row_no == d.next_no) ≡ true
      → Waits before rest
          (take_early start end (length d.early) p (put_next start end p d row.bytes d.early))
  take_early-Waits before rest d row (inv, none_next) ok same =
      let e : row.row_no ≡ d.next_no = ground arith in
      take_early-Inv (length d.early) before rest (put_next start end p d row.bytes d.early)
        (unfold put_next in omega arith)
        (put_next-Inv before (row ∷ rest) rest d.early d row.bytes inv
          (ok.bytes_ok ∙ ap (row_of file) e) (omega (arith, e, ok.upto_hi)) inv.early_ok
          (λ k other h. ground arith))

  module _ (accepts : ℕ → Bool) (all : (n : ℕ) → accepts n ≡ true) where
    on_row-Waits :
        (before : List ℕ) (rest : List Row) (d : Drain) (row : Row)
        → Waits before (row ∷ rest) d
        → IsRowOf row
        → (d' : Drain) × (on_row start end accepts p d row ≡ next d') × Waits before rest d'
    unfolding on_row
    on_row-Waits before rest d row w ok = elim (Bool-cases (row.row_no == d.next_no)) [
      | inr other ↦ (
        record d { early = early_insert d.early row },
        rw (other, on_row),
        early_insert-Waits before rest d row w ok other,
      )
      | inl same ↦
          let d1 : Drain =
            take_early start end (length d.early) p (put_next start end p d row.bytes d.early) in
          let w1 : Waits before rest d1 = take_early-Waits before rest d row w ok same in
          let (o, e, bytes, counted) = flush_lem start end accepts d1.output all w1.0.counted in
          (
            record d1 { output = o },
            rw (same, on_row, e),
            Waits-output before rest d1 o w1 bytes counted,
          )
    ]

    receive-Waits :
        (before : List ℕ) (rows : List Row) (d : Drain)
        → Waits before rows d
        → AllRows IsRowOf rows
        → (d' : Drain) × (receive start end accepts p d (map some rows) ≡ next d')
          × Waits before [] d'
    unfolding receive
    receive-Waits before [] d w ok = (d, refl, w)
    receive-Waits before (row ∷ rows) d w ok =
        let (d1, e, w1) = on_row-Waits before rows d row w ok.0 in
        let (d2, f, w2) = receive-Waits before rows d1 w1 ok.1 in (d2, rw (e, receive) f, w2)

  -- What the query of the piece delivers: each of its rows, in any order.
  pub record Arrives (rows : List Row) : Type 0 where
    pub rows_ok : AllRows IsRowOf rows
    pub complete : (k : ℕ) → p.lo ≤ k → k ≤ p.hi → has_row k rows ≡ true

  start-Waits :
      (s : Output) (rows : List Row)
      → IsCounted s
      → Arrives rows
      → Waits (bytes_of s) rows (record { next_no = p.lo; early = []; output = s })
  start-Waits s rows counted arrives = (
    record {
      written =
          sym (append-nil (bytes_of s))
          ∙ ap (λ n. bytes_of s ++ concat_range part p.lo n)
              (let e : 0 ≡ p.lo - p.lo = omega arith in e);
      counted = counted;
      from_lo = omega arith;
      upto_hi = omega arith;
      early_ok = tt;
      covered = λ k a b. ground (arith, arrives.complete k a b);
    },
    refl,
  )

  past_hi : (before : List ℕ) (d : Drain) → Waits before [] d → p.hi < d.next_no
  past_hi before d (inv, none_next) = elim (lt-or-le p.hi d.next_no) [
    | inl lt ↦ lt
    | inr le ↦ absurd (ground (arith, inv.covered d.next_no inv.from_lo le))
  ]

  -- A piece whose rows all arrive adds its part of the request, in row order.
  pub drain_part-next :
      (accepts : ℕ → Bool) (s : Output) (rows : List Row)
      → ((n : ℕ) → accepts n ≡ true)
      → IsCounted s
      → Arrives rows
      → (s' : Output) × (drain_part start end accepts s (p, map some rows) ≡ next s')
        × (bytes_of s' ≡ bytes_of s ++ range_part file p.base start end (p.lo, p.hi))
        × IsCounted s'
  unfolding drain_part
  drain_part-next accepts s rows all counted arrives =
      let (d, e, w) =
        receive-Waits accepts all (bytes_of s) rows
          (record { next_no = p.lo; early = []; output = s }) (start-Waits s rows counted arrives)
          arrives.rows_ok in
      let past : p.hi < d.next_no = past_hi (bytes_of s) d w in
      (
        d.output,
        rw (e, drain_part, lt→ltb _ _ past),
        w.0.written
            ∙ ap (λ n. bytes_of s ++ concat_range part p.lo n)
                (let q : d.next_no - p.lo ≡ p.hi + 1 - p.lo = omega (arith, w.0.upto_hi) in q),
        w.0.counted,
      )
