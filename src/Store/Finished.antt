-- ===== src/Store/Finished.antt =====
-- The writer task of crates/pgvs3/src/db.rs on a whole body: what `ingest_writer` does for either
-- target once the last message arrived, and what it does when the body fails.
use lakewing.Prelude.{
  ℕ, ◌*◌, ◌^◌, ◌≤◌, ◌≡◌, refl, ap, ◌∙◌, Option, none, some, true, false, List, [], ◌∷◌, ◌++◌, map,
  length, concat,
}
use lakewing.Layout.{row_bytes}
use lakewing.Ingest.{Digest, digest, copy_header, RowFramer, new_framer, push, finish, push_all}
use lakewing.Ingest.Format.{CopyRow, copy_stream, file_rows}
use lakewing.Ingest.Whole.{ingest_stream}
use lakewing.Store.Tables.{Db}
use lakewing.Store.Objects.{Tx, commit, rollback}
use lakewing.Store.Write.{
  WriterTarget, chunk, target_open, ingest_loop, publish, ingest_finish, ingest_writer,
  body_messages,
}
use lakewing.Store.Published.{ingest_loop-push_all}

pub body_messages_whole : (chunks : List (List ℕ)) → body_messages chunks false ≡ map chunk chunks
unfolding body_messages
body_messages_whole [] = refl
body_messages_whole (c ∷ cs) = ap (λ t. chunk c ∷ t) (body_messages_whole cs)

-- The result of the writer, given that of the publication.
abbrev pub written : ℕ × List ℕ → Tx (Unit {0}) → Tx (ℕ × List ℕ)
written totals (rollback e) = rollback e
written totals (commit u db) = commit totals db

module _ (d : Digest) where
  -- A body that fails aborts the loop.
  pub ingest_loop_failed :
      (f : RowFramer d) (chunks : List (List ℕ))
      → ingest_loop d f (body_messages chunks true) ≡ none
  unfolding ingest_loop body_messages
  ingest_loop_failed f [] = refl
  ingest_loop_failed f (c ∷ cs) = rw (ingest_loop_failed (push d f c).1 cs, ingest_loop) refl

  module _ (copy_in : List ℕ → Option (List CopyRow)) (file_id now : ℕ) (target : WriterTarget)
      (chunks : List (List ℕ)) (db : Db) where
    ingest_finish_written :
        (obj stream : List ℕ)
        → copy_in stream ≡ some (file_rows file_id obj)
        → ingest_finish d copy_in target file_id now db stream (length obj, digest d obj)
          ≡ written
              (length obj, digest d obj)
              (publish d target file_id
                (length obj)
                (digest d obj)
                now
                (record db { chunks = db.chunks ++ file_rows file_id obj }))
    unfolding ingest_finish
    ingest_finish_written obj stream reads =
        rw (reads, ingest_finish)
          (match_written (
            publish d target file_id (length obj) (digest d obj) now
              (record db { chunks = db.chunks ++ file_rows file_id obj })))
      where
        match_written :
            (t : Tx (Unit {0}))
            → (elim t [
              | rollback e ↦ rollback e
              | commit u db' ↦ commit (length obj, digest d obj) db'
            ])
              ≡ written (length obj, digest d obj) t
        match_written (rollback e) = refl
        match_written (commit u db') = refl

    -- The writer copies the rows of the body and publishes them.
    pub ingest_writer_written :
        length (concat chunks) ≤ 2 ^ 31 * row_bytes
        → copy_in (copy_stream (file_rows file_id (concat chunks)))
          ≡ some (file_rows file_id (concat chunks))
        → target_open d target db ≡ true
        → ingest_writer d copy_in file_id target now (map chunk chunks) db
          ≡ written
              (length (concat chunks), digest d (concat chunks))
              (publish d target file_id
                (length (concat chunks))
                (digest d (concat chunks))
                now
                (record db { chunks = db.chunks ++ file_rows file_id (concat chunks) }))
    unfolding ingest_writer
    ingest_writer_written small reads open_target =
        let obj : List ℕ = concat chunks in
        let sent : List ℕ = (push_all d (new_framer d file_id) chunks).0 in
        let f : RowFramer d = (push_all d (new_framer d file_id) chunks).1 in
        let (stream, totals) = ingest_stream d file_id chunks small in
        rw (open_target, ingest_loop-push_all d (new_framer d file_id) chunks)
          (ap
              (ingest_finish d copy_in target file_id now db
                (copy_header ++ (sent ++ (finish d f).0)))
              totals
            ∙ ingest_finish_written obj (copy_header ++ (sent ++ (finish d f).0))
                (ap copy_in stream ∙ reads))
