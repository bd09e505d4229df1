-- ===== src/Ingest.antt =====
-- crates/pgvs3/src/ingest.rs: the binary COPY framing of the write path.
pub mod Format
pub mod Framing
pub mod Stream
pub mod Whole
use lakewing.Prelude.{
  ℕ, zero, suc, ◌+◌, ◌-◌, ◌*◌, ◌/◌, ◌%◌, ◌^◌, min, ◌≡◌, Option, none, some, Bool, List, [], ◌∷◌,
  ◌++◌, length, take, drop, slice, leb, ◌==◌, if◌then◌else◌,
}
use lakewing.Layout.{row_bytes, send_batch, as_i32}

-- The `sha2` crate's streaming digest, as the code uses it.
pub record Digest : Type 1 where
  pub State : Type 0
  pub new : State
  pub update : State → List ℕ → State
  pub finalize : State → List ℕ
  -- Absorbing two pieces is absorbing their concatenation.
  pub update-append : (s : State) (a b : List ℕ) → update (update s a) b ≡ update s (a ++ b)
  pub update-nil : (s : State) → update s [] ≡ s

-- The digest of some bytes.
abbrev pub digest : Digest → List ℕ → List ℕ
digest d bytes = d.finalize (d.update d.new bytes)

-- `v.to_be_bytes()` of an n-byte integer
unfoldable pub to_be_bytes : ℕ → ℕ → List ℕ
to_be_bytes zero v = []
to_be_bytes (suc n) v = (v / 256 ^ n % 256) ∷ to_be_bytes n v

-- `a.div_ceil(b)`
unfoldable pub div_ceil : ℕ → ℕ → ℕ
div_ceil a b = if a % b == 0 then a / b else a / b + 1

-- `COPY_HEADER`: "PGCOPY\n\xff\r\n\0", flags and the length of the header extension.
abbrev pub copy_header : List ℕ
copy_header =
    80 ∷ 71 ∷ 67 ∷ 79 ∷ 80 ∷ 89 ∷ 10 ∷ 255 ∷ 13 ∷ 10 ∷ 0 ∷ 0 ∷ 0 ∷ 0 ∷ 0 ∷ 0 ∷ 0 ∷ 0 ∷ 0 ∷ []

-- `COPY_TRAILER`
abbrev pub copy_trailer : List ℕ
copy_trailer = 255 ∷ 255 ∷ []

-- The loop of `frame_rows`, from row `i` with some rounds left.
unfoldable pub frame_rows_from : ℕ → ℕ → ℕ → ℕ → List ℕ → List ℕ
frame_rows_from zero i file_id first_no bytes = []
frame_rows_from (suc rounds) i file_id first_no bytes =
    let start = i * row_bytes in
    let end = min ((i + 1) * row_bytes) (length bytes) in
    (to_be_bytes 2 3
      ++ (to_be_bytes 4 8
          ++ (to_be_bytes 8 file_id
              ++ (to_be_bytes 4 4
                  ++ (to_be_bytes 4 (as_i32 (first_no + i))
                      ++ (to_be_bytes 4 (as_i32 (end - start)) ++ slice bytes start end))))))
    ++ frame_rows_from rounds (i + 1) file_id first_no bytes

-- `frame_rows`: what is appended to `out`.
unfoldable pub frame_rows : ℕ → ℕ → List ℕ → List ℕ
frame_rows file_id first_no bytes =
    frame_rows_from (div_ceil (length bytes) row_bytes) 0 file_id first_no bytes

module _ (d : Digest) where
  -- `RowFramer`. `next_no` and `total` are the bit patterns of an i32 and an i64.
  pub record RowFramer : Type 0 where
    pub file_id : ℕ
    pub hasher : d.State
    pub pending : List ℕ
    pub frame : List ℕ
    pub next_no : ℕ
    pub total : ℕ

  unfoldable pub new_framer : ℕ → RowFramer
  new_framer file_id = record {
    file_id = file_id;
    hasher = d.new;
    pending = [];
    frame = [];
    next_no = 0;
    total = 0;
  }

  -- The end of `push`: the buffer to send, if the frame is long enough.
  unfoldable pub split_frame : RowFramer → Option (List ℕ) × RowFramer
  split_frame f =
      if leb send_batch (length f.frame) then (some f.frame, record f { frame = [] }) else (none, f)

  -- `RowFramer::push`
  unfoldable pub push : RowFramer → List ℕ → Option (List ℕ) × RowFramer
  push f chunk =
      let pending = f.pending ++ chunk in
      let whole = length pending - length pending % row_bytes in
      let g = record f {
        hasher = d.update f.hasher chunk;
        total = (f.total + length chunk) % 2 ^ 64;
        pending = pending;
      } in
      if whole == 0
      then (none, g)
      else split_frame (record g {
        frame = f.frame ++ frame_rows f.file_id f.next_no (take whole pending);
        next_no = as_i32 (f.next_no + whole / row_bytes);
        pending = drop whole pending;
      })

  -- `RowFramer::finish`: the last buffer, the size and the digest.
  unfoldable pub finish : RowFramer → List ℕ × (ℕ × List ℕ)
  finish f = (
    f.frame
        ++ ((elim f.pending [ [] ↦ [] | b ∷ bs ↦ frame_rows f.file_id f.next_no f.pending ])
            ++ copy_trailer),
    (f.total, d.finalize f.hasher),
  )

  -- The loop of `ingest_writer` over the messages of a request: the bytes sent, and the framer.
  unfoldable pub push_all : RowFramer → List (List ℕ) → List ℕ × RowFramer
  push_all f [] = ([], f)
  push_all f (chunk ∷ chunks) =
      let (flushed, g) = push f chunk in
      let (sent, h) = push_all g chunks in ((elim flushed [ none ↦ [] | some b ↦ b ]) ++ sent, h)
