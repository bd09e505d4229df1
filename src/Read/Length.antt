-- ===== src/Read/Length.antt =====
-- What a span of `stream_span` of crates/pgvs3/src/db.rs has sent, whatever the queries deliver.
use lakewing.Prelude.{
  ℕ, zero, suc, ◌+◌, ◌-◌, ◌≡◌, refl, sym, ap, subst, ◌∙◌, inl, inr, Option, none, some, Bool, true,
  List, [], ◌∷◌, ◌++◌, length, leb, ltb, ◌==◌, arith, concat, if◌then◌else◌, Bool-cases,
  length-append, concat-append, Option-cases,
}
use lakewing.Layout.{chunk_bytes, part_rows}
use lakewing.Cache.Meta.{Meta}
use lakewing.Read.Plan.{Piece, plan}
use lakewing.Read.Span.{
  Row, Flow, next, stop, row_missing, Output, Drain, early_remove, put_next, take_early, flush,
  on_row, receive, drain_part, finish_span, fill, span_loop, stream_span,
}

abbrev Tracks : Output → Type 0
Tracks s = s.sent ≡ length (concat s.out)

-- A flow that goes on has the property.
abbrev Holds {ℓ} : {A : Type ℓ} → (A → Type 0) → Flow A → Type 0
Holds P (next a) = P a
Holds P (stop r out) = Unit

length-append_one :
    (out : List (List ℕ)) (c : List ℕ)
    → length (concat (out ++ (c ∷ []))) ≡ length (concat out) + length c
length-append_one out c =
    ap length (concat-append out (c ∷ []))
    ∙ length-append (concat out) (c ++ [])
    ∙ ap (λ n. length (concat out) + n) (length-append c [] ∙ omega arith)

module _ (start end : ℕ) where
  take_early-Tracks :
      (fuel : ℕ) (p : Piece) (d : Drain)
      → Tracks d.output
      → Tracks (take_early start end fuel p d).output
  unfolding take_early put_next
  take_early-Tracks zero p d t = t
  take_early-Tracks (suc fuel) p d t = elim (Option-cases (early_remove d.next_no d.early)) [
    | inl gone ↦ rw (gone, take_early) t
    | inr ((row, rest), held) ↦
        rw (held, take_early) (take_early-Tracks fuel p (put_next start end p d row.bytes rest) t)
  ]

  module _ (accepts : ℕ → Bool) where
    flush-Tracks : (s : Output) → Tracks s → Holds Tracks (flush start end accepts s)
    unfolding flush
    flush-Tracks s t = elim (Bool-cases (leb chunk_bytes (length s.chunk))) [
      | inr small ↦ rw (small, flush) t
      | inl big ↦ elim (Bool-cases (accepts (length s.out))) [
        | inr gone ↦ rw (big, flush, gone) tt
        | inl there ↦
            rw (big, flush, there)
              (ap (λ n. n + length s.chunk) t ∙ sym (length-append_one s.out s.chunk))
      ]
    ]

    on_row_flushed :
        (d : Drain) (o : Flow Output)
        → Holds Tracks o
        → Holds
            (λ (d' : Drain). Tracks d'.output)
            (elim o [ stop r out ↦ stop r out | next o' ↦ next (record d { output = o' }) ])
    on_row_flushed d (stop r out) h = tt
    on_row_flushed d (next o) h = h

    on_row-Tracks :
        (p : Piece) (d : Drain) (row : Row)
        → Tracks d.output
        → Holds (λ (d' : Drain). Tracks d'.output) (on_row start end accepts p d row)
    unfolding on_row put_next
    on_row-Tracks p d row t = elim (Bool-cases (row.row_no == d.next_no)) [
      | inr other ↦ rw (other, on_row) t
      | inl expected ↦
          (let d' : Drain =
              take_early start end (length d.early) p (put_next start end p d row.bytes d.early) in
            rw (expected, on_row)
              (on_row_flushed d' (flush start end accepts d'.output) (
                flush-Tracks d'.output (
                  take_early-Tracks (length d.early) p (put_next start end p d row.bytes d.early)
                    t))))
    ]

    receive_rest :
        (p : Piece) (f : Flow Drain) (rows : List (Option Row))
        → Holds (λ (d : Drain). Tracks d.output) f
        → ((d : Drain)
            → Tracks d.output
            → Holds (λ (e : Drain). Tracks e.output) (receive start end accepts p d rows))
        → Holds
            (λ (d : Drain). Tracks d.output)
            (elim f [ stop r out ↦ stop r out | next d ↦ receive start end accepts p d rows ])
    receive_rest p (stop r out) rows h ih = tt
    receive_rest p (next d) rows h ih = ih d h

    receive-Tracks :
        (p : Piece) (d : Drain) (rows : List (Option Row))
        → Tracks d.output
        → Holds (λ (e : Drain). Tracks e.output) (receive start end accepts p d rows)
    unfolding receive
    receive-Tracks p d [] t = t
    receive-Tracks p d (none ∷ rows) t = tt
    receive-Tracks p d (some row ∷ rows) t =
        receive_rest p (on_row start end accepts p d row) rows (on_row-Tracks p d row t)
          (λ e h. receive-Tracks p e rows h)

    drained-Tracks :
        (p : Piece) (f : Flow Drain)
        → Holds (λ (d : Drain). Tracks d.output) f
        → Holds Tracks (elim f [
          | stop r out ↦ stop r out
          | next d ↦
              if ltb p.hi d.next_no
              then next d.output
              else stop (row_missing d.next_no) d.output.out
        ])
    drained-Tracks p (stop r out) h = tt
    drained-Tracks p (next d) h = elim (Bool-cases (ltb p.hi d.next_no)) [
      | inl all ↦ rw all h
      | inr missing ↦ rw missing tt
    ]

    drain_part-Tracks :
        (s : Output) (part : Piece × List (Option Row))
        → Tracks s
        → Holds Tracks (drain_part start end accepts s part)
    unfolding drain_part
    drain_part-Tracks s (p, rows) t =
        drained-Tracks p
          (receive start end accepts p (record { next_no = p.lo; early = []; output = s }) rows)
          (receive-Tracks p (record { next_no = p.lo; early = []; output = s }) rows t)

    module _ (fetch : Piece → List (Option Row)) where
      span_rest :
          (fuel : ℕ) (todo : List Piece) (running : List (Piece × List (Option Row)))
          (f : Flow Output)
          → Holds Tracks f
          → ((s : Output)
              → Tracks s
              → Holds Tracks (span_loop start end accepts fetch fuel todo running s))
          → Holds Tracks (elim f [
            | stop r out ↦ stop r out
            | next s ↦ span_loop start end accepts fetch fuel todo running s
          ])
      span_rest fuel todo running (stop r out) h ih = tt
      span_rest fuel todo running (next s) h ih = ih s h

      span_pop :
          (fuel : ℕ) (todo : List Piece) (running : List (Piece × List (Option Row))) (s : Output)
          → Tracks s
          → ((todo' : List Piece) (running' : List (Piece × List (Option Row))) (s' : Output)
              → Tracks s'
              → Holds Tracks (span_loop start end accepts fetch fuel todo' running' s'))
          → Holds Tracks (elim running [
            | [] ↦ next s
            | part ∷ rest ↦ elim (drain_part start end accepts s part) [
              | stop r out ↦ stop r out
              | next s' ↦ span_loop start end accepts fetch fuel todo rest s'
            ]
          ])
      span_pop fuel todo [] s t ih = t
      span_pop fuel todo (part ∷ rest) s t ih =
          span_rest fuel todo rest (drain_part start end accepts s part)
            (drain_part-Tracks s part t) (λ s' h. ih todo rest s' h)

      span_loop-Tracks :
          (fuel : ℕ) (todo : List Piece) (running : List (Piece × List (Option Row))) (s : Output)
          → Tracks s
          → Holds Tracks (span_loop start end accepts fetch fuel todo running s)
      unfolding span_loop
      span_loop-Tracks zero todo running s t = tt
      span_loop-Tracks (suc fuel) todo running s t =
          span_pop fuel (fill start end accepts fetch todo running).0
            (fill start end accepts fetch todo running).1 s t
            (λ todo' running' s' h. span_loop-Tracks fuel todo' running' s' h)

    last_message :
        (s : Output)
        → ((n : ℕ) → accepts n ≡ true)
        → Tracks s
        → length (
            concat (elim s.chunk [
              | [] ↦ s.out
              | b ∷ bs ↦ if accepts (length s.out) then s.out ++ (s.chunk ∷ []) else s.out
            ]))
          ≡ s.sent + length s.chunk
    last_message s all t = go s.chunk refl
      where
        go :
            (c : List ℕ)
            → c ≡ s.chunk
            → length (
                concat (elim c [
                  | [] ↦ s.out
                  | b ∷ bs ↦ if accepts (length s.out) then s.out ++ (s.chunk ∷ []) else s.out
                ]))
              ≡ s.sent + length s.chunk
        go [] e = sym t ∙ (let q : 0 ≡ length s.chunk = ap length e in omega (arith, q))
        go (b ∷ bs) e =
            rw (all (length s.out))
              (length-append_one s.out s.chunk ∙ ap (λ n. n + length s.chunk) (sym t))

    finish_span-length :
        (s : Output)
        → ((n : ℕ) → accepts n ≡ true)
        → Tracks s
        → Holds (λ out. length (concat out) ≡ end + 1 - start) (finish_span start end accepts s)
    unfolding finish_span
    finish_span-length s all t = elim (Bool-cases (s.sent + length s.chunk == end + 1 - start)) [
      | inr short ↦ rw (short, finish_span) tt
      | inl full ↦ rw (full, finish_span) (last_message s all t ∙ ground arith)
    ]

    span_finished :
        (f : Flow Output)
        → ((n : ℕ) → accepts n ≡ true)
        → Holds Tracks f
        → Holds
            (λ out. length (concat out) ≡ end + 1 - start)
            (elim f [ stop r out ↦ stop r out | next s ↦ finish_span start end accepts s ])
    span_finished (stop r out) all h = tt
    span_finished (next s) all h = finish_span-length s all h

-- For any rows that the queries may deliver and a client that takes every message, a span that
-- ends without an error has sent exactly as many bytes as its range has.
pub stream_span-length :
    (start end : ℕ) (accepts : ℕ → Bool) (fetch : Piece → List (Option Row)) (m : Meta)
    (out : List (List ℕ))
    → ((n : ℕ) → accepts n ≡ true)
    → stream_span start end accepts fetch m ≡ next out
    → length (concat out) ≡ end + 1 - start
unfolding stream_span
stream_span-length start end accepts fetch m out all e =
    subst (Holds (λ o. length (concat o) ≡ end + 1 - start)) e (
      span_finished start end accepts
        (span_loop start end accepts fetch (suc (length (plan m start end part_rows)))
          (plan m start end part_rows) [] (record { chunk = []; sent = 0; out = [] }))
        all
        (span_loop-Tracks start end accepts fetch (suc (length (plan m start end part_rows)))
          (plan m start end part_rows) [] (record { chunk = []; sent = 0; out = [] }) refl))
