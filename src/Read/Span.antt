-- ===== src/Read/Span.antt =====
-- `stream_span` of crates/pgvs3/src/db.rs: rows to response bytes. `fetch` gives what the query of
-- a piece delivers, in the order of arrival (a `none` is the error that ends it), and `accepts n`
-- says whether the client takes the n-th message.
use lakewing.Prelude.{
  ℕ, zero, suc, ◌+◌, ◌-◌, Option, none, some, Bool, List, [], ◌∷◌, ◌++◌, length, ltb, leb, ◌==◌,
  if◌then◌else◌,
}
use lakewing.Layout.{chunk_bytes, parts_inflight, part_rows}
use lakewing.Cache.Meta.{Meta}
use lakewing.Read.Plan.{Piece, plan, row_slice}

-- A row of `SELECT c.no, c.data`.
pub record Row : Type 0 where
  pub row_no : ℕ
  pub bytes : List ℕ

-- Why a span ends before its last byte.
pub data Stop : Type 0 where
  client_gone : Stop
  query_failed : Stop
  row_missing : ℕ → Stop
  short_read : ℕ → Stop
  out_of_fuel : Stop

-- The messages sent so far stay sent when a span stops.
pub data Flow {ℓ} (A : Type ℓ) : Type ℓ where
  next : A → Flow A
  stop : Stop → List (List ℕ) → Flow A

-- `chunk`, `sent`, and the messages that went through `tx`.
pub record Output : Type 0 where
  pub chunk : List ℕ
  pub sent : ℕ
  pub out : List (List ℕ)

-- The loop over the rows of one piece: `next`, `early`.
pub record Drain : Type 0 where
  pub next_no : ℕ
  pub early : List Row
  pub output : Output

-- `early.insert(no, row)`, on the list of a map's entries
unfoldable pub early_insert : List Row → Row → List Row
early_insert [] r = r ∷ []
early_insert (e ∷ es) r = if e.row_no == r.row_no then r ∷ es else e ∷ early_insert es r

-- `early.remove(&next)`
unfoldable pub early_remove : ℕ → List Row → Option (Row × List Row)
early_remove n [] = none
early_remove n (e ∷ es) =
    let rest = early_remove n es in
    if e.row_no == n
    then some (e, es)
    else elim rest [ none ↦ none | some (r, es') ↦ some (r, e ∷ es') ]

module _ (start end : ℕ) where
  -- `put_row`
  unfoldable pub put_row : List ℕ → Piece → ℕ → List ℕ → List ℕ
  put_row chunk p row_no bytes = elim (row_slice p.base row_no bytes start end) [
    | none ↦ chunk
    | some s ↦ chunk ++ s
  ]

  unfoldable pub put_next : Piece → Drain → List ℕ → List Row → Drain
  put_next p d bytes early = record {
    next_no = d.next_no + 1;
    early = early;
    output = record (d.output) { chunk = put_row d.output.chunk p d.next_no bytes };
  }

  -- `while let Some(row) = early.remove(&next)`. Each round takes a row out of `early`.
  unfoldable pub take_early : ℕ → Piece → Drain → Drain
  take_early zero p d = d
  take_early (suc fuel) p d = elim (early_remove d.next_no d.early) [
    | none ↦ d
    | some (row, rest) ↦ take_early fuel p (put_next p d row.bytes rest)
  ]

  module _ (accepts : ℕ → Bool) where
    -- `if chunk.len() >= CHUNK`
    unfoldable pub flush : Output → Flow Output
    flush s =
        if leb chunk_bytes (length s.chunk)
        then (if accepts (length s.out)
            then next (record {
              chunk = [];
              sent = s.sent + length s.chunk;
              out = s.out ++ (s.chunk ∷ []);
            })
            else stop client_gone s.out)
        else next s

    -- One row that arrives.
    unfoldable pub on_row : Piece → Drain → Row → Flow Drain
    on_row p d row =
        if row.row_no == d.next_no
        then (let d' = take_early (length d.early) p (put_next p d row.bytes d.early) in
            elim (flush d'.output) [
              | stop r out ↦ stop r out
              | next o ↦ next (record d' { output = o })
            ])
        else next (record d { early = early_insert d.early row })

    -- `while let Some(row) = rows.recv().await`
    unfoldable pub receive : Piece → Drain → List (Option Row) → Flow Drain
    receive p d [] = next d
    receive p d (none ∷ rows) = stop query_failed d.output.out
    receive p d (some row ∷ rows) = elim (on_row p d row) [
      | stop r out ↦ stop r out
      | next d' ↦ receive p d' rows
    ]

    -- One piece, up to the check that no row is missing.
    unfoldable pub drain_part : Output → Piece × List (Option Row) → Flow Output
    drain_part s (p, rows) =
        elim (receive p (record { next_no = p.lo; early = []; output = s }) rows) [
          | stop r out ↦ stop r out
          | next d ↦
              if ltb p.hi d.next_no
              then next d.output
              else stop (row_missing d.next_no) d.output.out
        ]

    -- The length check and the last message, whose loss is ignored.
    unfoldable pub finish_span : Output → Flow (List (List ℕ))
    finish_span s =
        if s.sent + length s.chunk == end + 1 - start
        then next (elim s.chunk [
          | [] ↦ s.out
          | b ∷ bs ↦ if accepts (length s.out) then s.out ++ (s.chunk ∷ []) else s.out
        ])
        else stop (short_read (s.sent + length s.chunk)) s.out

    module _ (fetch : Piece → List (Option Row)) where
      -- `while running.len() < PARTS_INFLIGHT`: what is left to do, and what runs.
      unfoldable pub fill :
          List Piece
          → List (Piece × List (Option Row))
          → List Piece × List (Piece × List (Option Row))
      fill [] running = ([], running)
      fill (p ∷ todo) running =
          let rest = fill todo (running ++ ((p, fetch p) ∷ [])) in
          if ltb (length running) parts_inflight then rest else (p ∷ todo, running)

      -- The outer loop. Each round pops one running part.
      unfoldable pub span_loop :
          ℕ → List Piece → List (Piece × List (Option Row)) → Output → Flow Output
      span_loop zero todo running s = stop out_of_fuel s.out
      span_loop (suc fuel) todo running s =
          let (todo', running') = fill todo running in
          elim running' [
            | [] ↦ next s
            | part ∷ rest ↦ elim (drain_part s part) [
              | stop r out ↦ stop r out
              | next s' ↦ span_loop fuel todo' rest s'
            ]
          ]

      -- `stream_span`: the messages that the response gets.
      unfoldable pub stream_span : Meta → Flow (List (List ℕ))
      stream_span m =
          let todo = plan m start end part_rows in
          elim (span_loop (suc (length todo)) todo [] (record { chunk = []; sent = 0; out = [] })) [
            | stop r out ↦ stop r out
            | next s ↦ finish_span s
          ]
