-- ===== src/Seed.antt =====
-- The filler of crates/pgvs3/src/seed.rs, how its `run` splits the objects among the tasks, and the
-- reads that crates/pgvs3/src/bench.rs draws with the filler.
pub mod Split
use Prim.Native.Nat.{bit_xor}
use lakewing.Prelude.{
  ℕ, zero, suc, ◌+◌, ◌-◌, ◌*◌, ◌/◌, ◌%◌, ◌^◌, min, max, List, [], ◌∷◌, ◌++◌, leb, if◌then◌else◌,
}
use lakewing.Ingest.{div_ceil}

-- `wrapping_add` and `wrapping_mul` of u64
abbrev pub wrap : ℕ → ℕ
wrap n = n % 2 ^ 64

-- `Filler::next_u64`: the word, and the state behind it.
unfoldable pub next_u64 : ℕ → ℕ × ℕ
next_u64 state =
    let s = wrap (state + 0x9E3779B97F4A7C15) in
    let z = wrap (bit_xor s (s / 2 ^ 30) * 0xBF58476D1CE4E5B9) in
    let y = wrap (bit_xor z (z / 2 ^ 27) * 0x94D049BB133111EB) in (bit_xor y (y / 2 ^ 31), s)

-- `to_le_bytes`, of an integer of n bytes; also the first n bytes of a longer one
unfoldable pub to_le_bytes : ℕ → ℕ → List ℕ
to_le_bytes zero v = []
to_le_bytes (suc n) v = (v % 256) ∷ to_le_bytes n (v / 256)

-- The loop of `Filler::fill` over n chunks of 8 bytes.
unfoldable pub fill_words : ℕ → ℕ → List ℕ × ℕ
fill_words zero state = ([], state)
fill_words (suc n) state =
    let (word, state') = next_u64 state in
    let (rest, state'') = fill_words n state' in (to_le_bytes 8 word ++ rest, state'')

-- `Filler::fill`, of n bytes
unfoldable pub fill : ℕ → ℕ → List ℕ × ℕ
fill n state =
    let (words, state') = fill_words (n / 8) state in
    let (tail, state'') = next_u64 state' in (words ++ to_le_bytes (n % 8) tail, state'')

-- The bytes of object `i`: `Filler::new(0x5EED_0000 + i as u64)` and `fill`
unfoldable pub object_data : ℕ → ℕ → List ℕ
object_data object_bytes i = (fill object_bytes (wrap (0x5EED_0000 + i))).0

-- `(lo, hi)` of a task
unfoldable pub task_bounds : ℕ → ℕ → ℕ → ℕ × ℕ
task_bounds n_objects tasks task =
    let per_task = div_ceil n_objects (max tasks 1) in
    (task * per_task, min ((task + 1) * per_task) n_objects)

-- `count` numbers from `lo`
unfoldable pub numbers : ℕ → ℕ → List ℕ
numbers lo zero = []
numbers lo (suc count) = lo ∷ numbers (lo + 1) count

-- `for task in 0..n` and `for i in lo..hi`: the objects that the first n tasks write.
unfoldable pub written_by : ℕ → ℕ → ℕ → List ℕ
written_by n_objects tasks zero = []
written_by n_objects tasks (suc n) =
    written_by n_objects tasks n
    ++ (let (lo, hi) = task_bounds n_objects tasks n in numbers lo (hi - lo))

-- The offset and the length of a read of `size` bytes that `load` of bench.rs draws, from the word
-- `draw`
unfoldable pub draw_read : ℕ → ℕ → ℕ → ℕ × ℕ
draw_read draw obj_size size =
    let off = if leb obj_size size then 0 else draw % ((obj_size - size) / 4096 + 1) * 4096 in
    (off, min (obj_size - off) size)
