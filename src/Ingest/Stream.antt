-- ===== src/Ingest/Stream.antt =====
-- The framer of crates/pgvs3/src/ingest.rs on a file that is cut into chunks.
use lakewing.Prelude.{
  ℕ, suc, ◌+◌, ◌-◌, ◌*◌, ◌/◌, ◌%◌, ◌^◌, ◌≤◌, ◌≡◌, refl, sym, ap, ap₂, subst, subst₂, ◌∙◌, inl, inr,
  Option, none, some, true, List, [], ◌∷◌, ◌++◌, append_assoc, append-nil, arith, length,
  length-append, length-drop, take, drop, drop-drop, drop-append_le, slice, slice-append_le, concat,
  concat_range, concat_range_ext, concat_range_split, leb, ◌==◌, Bool-cases,
}
use lakewing.Layout.{row_bytes, row_of, send_batch, as_i32}
use lakewing.Ingest.{Digest, frame_rows, RowFramer, new_framer, split_frame, push, push_all}
use lakewing.Ingest.Format.{copy_tuple}
use lakewing.Ingest.Framing.{tuple_at, frame_rows-slice}

-- The rows that are whole once some bytes have come.
abbrev pub whole_rows : List ℕ → ℕ
whole_rows bytes = length bytes / row_bytes

-- What a push sends.
abbrev pub flushed : Option (List ℕ) → List ℕ
flushed none = []
flushed (some b) = b

-- More bytes do not change the rows that were whole.
tuples_grow :
    (file_id : ℕ) (old new : List ℕ)
    → concat_range (tuple_at file_id 0 old) 0 (whole_rows old)
      ≡ concat_range (tuple_at file_id 0 (old ++ new)) 0 (whole_rows old)
unfolding row_of row_bytes
tuples_grow file_id old new = concat_range_ext _ _ 0 (length old / 8120) (λ j _ lt.
    ap (λ t. copy_tuple (record { file_id = file_id; row_no = as_i32 (0 + j); bytes = t }))
      (sym (slice-append_le old new (j * 8120) (suc j * 8120) (omega arith))))

-- How many rows a chunk completes, with `pending` bytes behind row `k`.
abbrev completed : List ℕ → ℕ
completed pending = (length pending - length pending % row_bytes) / row_bytes

completed_lem :
    (old new pending : List ℕ)
    → length pending ≡ length (old ++ new) - whole_rows old * row_bytes
    → whole_rows (old ++ new) ≡ whole_rows old + completed pending
unfolding row_bytes
completed_lem old new pending h = omega (arith, h, length-append old new)

completed_bytes :
    (pending : List ℕ) → length pending - length pending % row_bytes ≡ completed pending * row_bytes
unfolding row_bytes
completed_bytes pending = omega arith

completed_none :
    (pending : List ℕ)
    → (length pending - length pending % row_bytes == 0) ≡ true
    → completed pending ≡ 0
unfolding row_bytes
completed_none pending h = ground arith

module _ (d : Digest) where
  -- The framer after some bytes, with `sent` on its way: whole rows are framed, and less than a
  -- row is pending.
  pub record Framed (file_id : ℕ) (bytes sent : List ℕ) (f : RowFramer d) : Type 0 where
    pub file_ok : f.file_id ≡ file_id
    pub total_ok : f.total ≡ length bytes % 2 ^ 64
    pub hashed_ok : f.hasher ≡ d.update d.new bytes
    pub pending_ok : f.pending ≡ drop (whole_rows bytes * row_bytes) bytes
    pub next_ok : f.next_no ≡ as_i32 (whole_rows bytes)
    pub framed_ok : sent ++ f.frame ≡ concat_range (tuple_at file_id 0 bytes) 0 (whole_rows bytes)

  -- Splitting the frame moves bytes from it to the stream.
  split_frame-Framed :
      (file_id : ℕ) (bytes sent : List ℕ) (f : RowFramer d)
      → Framed file_id bytes sent f
      → Framed file_id bytes (sent ++ flushed (split_frame d f).0) (split_frame d f).1
  unfolding split_frame
  split_frame-Framed file_id bytes sent f i = elim (Bool-cases (leb send_batch (length f.frame))) [
    | inl long ↦
        rw (long, split_frame)
          (record {
            file_ok = i.file_ok;
            total_ok = i.total_ok;
            hashed_ok = i.hashed_ok;
            pending_ok = i.pending_ok;
            next_ok = i.next_ok;
            framed_ok = append-nil (sent ++ f.frame) ∙ i.framed_ok;
          })
    | inr short ↦
        rw (short, split_frame)
          (record {
            file_ok = i.file_ok;
            total_ok = i.total_ok;
            hashed_ok = i.hashed_ok;
            pending_ok = i.pending_ok;
            next_ok = i.next_ok;
            framed_ok = ap (λ t. t ++ f.frame) (append-nil sent) ∙ i.framed_ok;
          })
  ]

  module _ (file_id : ℕ) (bytes sent : List ℕ) (f : RowFramer d) (chunk : List ℕ)
      (i : Framed file_id bytes sent f) where
    abbrev k : ℕ
    k = whole_rows bytes

    -- `pending` after the chunk is what lies behind row `k` of all bytes so far.
    pending_grow : f.pending ++ chunk ≡ drop (k * row_bytes) (bytes ++ chunk)
    unfolding row_bytes
    pending_grow =
        ap (λ t. t ++ chunk) i.pending_ok
        ∙ sym (drop-append_le (k * row_bytes) bytes chunk (omega arith))

    length-pending_grow : length (f.pending ++ chunk) ≡ length (bytes ++ chunk) - k * row_bytes
    length-pending_grow = ap length pending_grow ∙ length-drop (k * row_bytes) (bytes ++ chunk)

    abbrev n : ℕ
    n = completed (f.pending ++ chunk)

    rows_grow : whole_rows (bytes ++ chunk) ≡ k + n
    rows_grow = completed_lem bytes chunk (f.pending ++ chunk) length-pending_grow

    total_grow : (f.total + length chunk) % 2 ^ 64 ≡ length (bytes ++ chunk) % 2 ^ 64
    total_grow = omega (arith, i.total_ok, length-append bytes chunk)

    hashed_grow : d.update f.hasher chunk ≡ d.update d.new (bytes ++ chunk)
    hashed_grow = ap (λ s. d.update s chunk) i.hashed_ok ∙ d.update-append d.new bytes chunk

    framed_grow : sent ++ f.frame ≡ concat_range (tuple_at file_id 0 (bytes ++ chunk)) 0 k
    framed_grow = i.framed_ok ∙ tuples_grow file_id bytes chunk

    -- The whole rows of `pending` are the rows from `k` on.
    take_whole :
        take (n * row_bytes) (f.pending ++ chunk)
        ≡ slice (bytes ++ chunk) (k * row_bytes) ((k + n) * row_bytes)
    unfolding slice row_bytes
    take_whole =
        ap (take (n * row_bytes)) pending_grow
        ∙ ap (λ m. take m (drop (k * row_bytes) (bytes ++ chunk)))
            (let e : n * 8120 ≡ (k + n) * 8120 - k * 8120 = omega arith in e)

    enough : (k + n) * row_bytes ≤ length (bytes ++ chunk)
    unfolding row_bytes
    enough = omega (arith, rows_grow)

    drop_whole :
        drop (n * row_bytes) (f.pending ++ chunk)
        ≡ drop (whole_rows (bytes ++ chunk) * row_bytes) (bytes ++ chunk)
    unfolding row_bytes
    drop_whole =
        ap (drop (n * row_bytes)) pending_grow
        ∙ drop-drop (n * row_bytes) (k * row_bytes) (bytes ++ chunk)
        ∙ ap (λ m. drop m (bytes ++ chunk))
            (let e : k * 8120 + n * 8120 ≡ whole_rows (bytes ++ chunk) * 8120 =
                omega (arith, rows_grow) in
              e)

    -- The framer with its whole rows framed.
    framed_rows :
        (sent
          ++ (f.frame
              ++ frame_rows f.file_id f.next_no (take (n * row_bytes) (f.pending ++ chunk))))
        ≡ concat_range (tuple_at file_id 0 (bytes ++ chunk)) 0 (whole_rows (bytes ++ chunk))
    framed_rows =
        sym (append_assoc sent f.frame _)
        ∙ ap₂ (λ s t. s ++ t) framed_grow
            (ap₂ (λ a t. frame_rows a f.next_no t) i.file_ok take_whole
              ∙ frame_rows-slice file_id (bytes ++ chunk) k n f.next_no enough i.next_ok)
        ∙ ap
            (λ a.
              concat_range (tuple_at file_id 0 (bytes ++ chunk)) 0 k
              ++ concat_range (tuple_at file_id 0 (bytes ++ chunk)) a n)
            (let e : k ≡ 0 + k = omega arith in e)
        ∙ sym (concat_range_split (tuple_at file_id 0 (bytes ++ chunk)) 0 k n)
        ∙ ap (concat_range (tuple_at file_id 0 (bytes ++ chunk)) 0) (sym rows_grow)

    push-Framed :
        Framed file_id (bytes ++ chunk) (sent ++ flushed (push d f chunk).0) (push d f chunk).1
    unfolding push
    push-Framed = elim (Bool-cases (whole == 0)) [
      | inl none_whole ↦
          let idle : n ≡ 0 = completed_none (f.pending ++ chunk) none_whole in
          rw (none_whole, push)
            (record {
              file_ok = i.file_ok;
              total_ok = total_grow;
              hashed_ok = hashed_grow;
              pending_ok =
                  pending_grow ∙ ap (λ m. drop (m * row_bytes) (bytes ++ chunk)) (same idle);
              next_ok = i.next_ok ∙ ap as_i32 (same idle);
              framed_ok =
                  ap (λ t. t ++ f.frame) (append-nil sent)
                  ∙ framed_grow
                  ∙ ap (concat_range (tuple_at file_id 0 (bytes ++ chunk)) 0) (same idle);
            })
      | inr some_whole ↦
          rw (some_whole, push)
            (split_frame-Framed file_id (bytes ++ chunk) sent _ (record {
              file_ok = i.file_ok;
              total_ok = total_grow;
              hashed_ok = hashed_grow;
              pending_ok =
                  ap (λ m. drop m (f.pending ++ chunk)) (completed_bytes (f.pending ++ chunk))
                  ∙ drop_whole;
              next_ok = omega (arith, i.next_ok, rows_grow);
              framed_ok =
                  ap
                    (λ m.
                      sent
                      ++ (f.frame ++ frame_rows f.file_id f.next_no (take m (f.pending ++ chunk))))
                    (completed_bytes (f.pending ++ chunk))
                  ∙ framed_rows;
            }))
    ]
      where
        whole : ℕ
        whole = length (f.pending ++ chunk) - length (f.pending ++ chunk) % row_bytes

        same : n ≡ 0 → k ≡ whole_rows (bytes ++ chunk)
        same h = omega (arith, h, rows_grow)

  pub new_framer-Framed : (file_id : ℕ) → Framed file_id [] [] (new_framer d file_id)
  unfolding new_framer row_bytes
  new_framer-Framed file_id = record {
    file_ok = refl;
    total_ok = refl;
    hashed_ok = sym (d.update-nil d.new);
    pending_ok = refl;
    next_ok = refl;
    framed_ok = refl;
  }

  flushed_lem : (o : Option (List ℕ)) → (elim o [ none ↦ [] | some b ↦ b ]) ≡ flushed o
  flushed_lem none = refl
  flushed_lem (some b) = refl

  pub push_all-Framed :
      (file_id : ℕ) (bytes sent : List ℕ) (f : RowFramer d) (chunks : List (List ℕ))
      → Framed file_id bytes sent f
      → Framed file_id
          (bytes ++ concat chunks)
          (sent ++ (push_all d f chunks).0)
          (push_all d f chunks).1
  unfolding push_all
  push_all-Framed file_id bytes sent f [] i =
      subst (λ b. Framed file_id b (sent ++ []) f) (sym (append-nil bytes))
        (subst (λ t. Framed file_id bytes t f) (sym (append-nil sent)) i)
  push_all-Framed file_id bytes sent f (chunk ∷ chunks) i =
      let ih : Framed file_id ((bytes ++ chunk) ++ concat chunks)
          ((sent ++ flushed (push d f chunk).0) ++ (push_all d (push d f chunk).1 chunks).0)
          (push_all d (push d f chunk).1 chunks).1 =
        push_all-Framed file_id (bytes ++ chunk) (sent ++ flushed (push d f chunk).0)
          (push d f chunk).1 chunks (push-Framed file_id bytes sent f chunk i) in
      subst₂ (λ b t. Framed file_id b t (push_all d (push d f chunk).1 chunks).1)
        (append_assoc bytes chunk (concat chunks))
        (append_assoc sent _ _
          ∙ ap (λ t. sent ++ (t ++ (push_all d (push d f chunk).1 chunks).0))
              (sym (flushed_lem (push d f chunk).0)))
        ih
