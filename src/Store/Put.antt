-- ===== src/Store/Put.antt =====
-- `put` of crates/pgvs3/src/db.rs: a buffer, sent in batches.
use lakewing.Prelude.{
  ℕ, zero, suc, ◌*◌, ◌^◌, ◌≤◌, ◌<◌, ◌≡◌, ◌∙◌, refl, sym, ap, Option, some, true, false, List, [],
  ◌∷◌, ◌++◌, take, drop, length, concat, length-drop, take-append-drop, arith, subst,
}
use lakewing.Prelude.Text.{Text}
use lakewing.Layout.{row_bytes, send_batch}
use lakewing.Ingest.{Digest, digest}
use lakewing.Ingest.Format.{CopyRow, copy_stream, file_rows}
use lakewing.Store.Tables.{Db, has_bucket}
use lakewing.Store.Objects.{Tx, commit, unconditional, allowed}
use lakewing.Store.Write.{object, run_writer, body_messages, ingest_writer}
use lakewing.Store.Published.{after_put, ingest_writer-object}
use lakewing.Store.Finished.{body_messages_whole}

-- `data.chunks(size)`; each takes a byte at least, so the fuel is enough.
unfoldable pub batches : ℕ → ℕ → List ℕ → List (List ℕ)
batches zero size data_left = []
batches (suc fuel) size [] = []
batches (suc fuel) size (b ∷ bs) = take size (b ∷ bs) ∷ batches fuel size (drop size (b ∷ bs))

-- `put`
unfoldable pub put :
    Digest → (List ℕ → Option (List CopyRow)) → Text → Text → List ℕ → ℕ → Db → Tx (ℕ × List ℕ) × Db
put d copy_in bucket key bytes now db =
    run_writer d copy_in (object bucket key unconditional) now
      (body_messages (batches (length bytes) send_batch bytes) false) db

concat-batches :
    (fuel size : ℕ) (bytes : List ℕ)
    → 0 < size
    → length bytes ≤ fuel
    → concat (batches fuel size bytes) ≡ bytes
unfolding batches
concat-batches zero size [] some_size enough = refl
concat-batches zero size (b ∷ bs) some_size enough = absurd (omega (arith, enough))
concat-batches (suc fuel) size [] some_size enough = refl
concat-batches (suc fuel) size (b ∷ bs) some_size enough =
    ap (λ t. take size (b ∷ bs) ++ t)
      (concat-batches fuel size (drop size (b ∷ bs)) some_size
        (omega (arith, length-drop size (b ∷ bs), enough)))
    ∙ take-append-drop size (b ∷ bs)

-- `put` publishes its whole buffer, if the bucket exists, the buffer has at most 2^31 rows and
-- PostgreSQL reads its COPY stream as its rows.
pub put-commit :
    (d : Digest) (copy_in : List ℕ → Option (List CopyRow)) (bucket key : Text) (bytes : List ℕ)
    (now : ℕ) (db : Db)
    → length bytes ≤ 2 ^ 31 * row_bytes
    → copy_in (copy_stream (file_rows db.next_file bytes)) ≡ some (file_rows db.next_file bytes)
    → has_bucket bucket db.buckets ≡ true
    → (put d copy_in bucket key bytes now db).0
      ≡ commit
          (length bytes, digest d bytes)
          (after_put d bucket key unconditional db.next_file now bytes
            (record db { next_file = suc db.next_file }))
unfolding put run_writer send_batch allowed
put-commit d copy_in bucket key bytes now db small reads ready =
    let parts : List (List ℕ) = batches (length bytes) send_batch bytes in
    let whole : concat parts ≡ bytes =
      concat-batches (length bytes) send_batch bytes (omega arith) (omega arith) in
    let db' : Db = record db { next_file = suc db.next_file } in
    ap (λ msgs. ingest_writer d copy_in db.next_file (object bucket key unconditional) now msgs db')
      (body_messages_whole parts)
    ∙ ingest_writer-object d copy_in db.next_file bucket key unconditional now parts db'
        (subst (λ b. length b ≤ 2 ^ 31 * row_bytes) (sym whole) small)
        (subst
          (λ b. copy_in (copy_stream (file_rows db.next_file b)) ≡ some (file_rows db.next_file b))
          (sym whole) reads)
        ready
    ∙ ap
        (λ b.
          commit (length b, digest d b)
            (after_put d bucket key unconditional db.next_file now b db'))
        whole
