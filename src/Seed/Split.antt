-- ===== src/Seed/Split.antt =====
-- The split of the work among the tasks of `run` in crates/pgvs3/src/seed.rs, the filler, and the
-- reads of bench.rs.
use native.Mathlib.Nat.{mod-lt, div-add-mod}
use lakewing.Prelude.{
  ℕ, zero, suc, ◌+◌, ◌-◌, ◌*◌, ◌/◌, ◌%◌, ◌≤◌, ◌<◌, ◌≡◌, ◌∙◌, refl, sym, ap, min, max, List, [], ◌∷◌,
  ◌++◌, length, length-append, arith, Bool-cases, inl, inr, leb, ◌==◌, lt-or-le, append-nil,
}
use lakewing.Ingest.{div_ceil}
use lakewing.Seed.{
  next_u64, to_le_bytes, fill_words, fill, task_bounds, numbers, written_by, draw_read,
}

numbers-append : (lo a b : ℕ) → numbers lo a ++ numbers (lo + a) b ≡ numbers lo (a + b)
unfolding numbers
numbers-append lo zero b =
    let e : lo + 0 ≡ lo = omega arith in
    let f : 0 + b ≡ b = omega arith in ap (λ l. numbers l b) e ∙ ap (numbers lo) (sym f)
numbers-append lo (suc a) b =
    let e : lo + suc a ≡ lo + 1 + a = omega arith in
    let f : suc a + b ≡ suc (a + b) = omega arith in
    ap (λ l. lo ∷ (numbers (lo + 1) a ++ numbers l b)) e
    ∙ ap (λ t. lo ∷ t) (numbers-append (lo + 1) a b)
    ∙ ap (numbers lo) (sym f)

-- Enough rounds of `div_ceil` cover the whole.
div_ceil-covers : (a b : ℕ) → 0 < b → a ≤ b * div_ceil a b
unfolding div_ceil
div_ceil-covers a b some_b = elim (Bool-cases (a % b == 0)) [
  | inl whole ↦
      rw (whole, div_ceil)
        (let e : b * (a / b) + a % b ≡ a = div-add-mod a b in ground (arith, e, whole))
  | inr more ↦
      rw (more, div_ceil)
        (let e : b * (a / b) + a % b ≡ a = div-add-mod a b in
          let f : a % b < b = mod-lt a some_b in grind (arith, e, f))
]

join : (c s n : ℕ) → c ≤ s → numbers 0 (min c n) ++ numbers c (min s n - c) ≡ numbers 0 (min s n)
unfolding numbers
join c s n le = elim (lt-or-le n c) [
  | inl past ↦
      (let a : min c n ≡ n = omega arith in
        let b : min s n - c ≡ 0 = omega arith in
        let e : min s n ≡ n = omega arith in
        ap (λ t. numbers 0 (min c n) ++ numbers c t) b
        ∙ append-nil (numbers 0 (min c n))
        ∙ ap (numbers 0) (a ∙ sym e))
  | inr within ↦
      (let a : min c n ≡ c = omega arith in
        let e : c + (min s n - c) ≡ min s n = omega arith in
        let zero_c : c ≡ 0 + c = omega arith in
        ap (λ t. numbers 0 t ++ numbers c (min s n - c)) a
        ∙ ap (λ t. numbers 0 c ++ numbers t (min s n - c)) zero_c
        ∙ numbers-append 0 c (min s n - c)
        ∙ ap (numbers 0) e)
]

module _ (n tasks : ℕ) where
  abbrev per : ℕ
  per = div_ceil n (max tasks 1)

  written_by-numbers : (k : ℕ) → written_by n tasks k ≡ numbers 0 (min (k * per) n)
  unfolding written_by task_bounds numbers
  written_by-numbers zero = ap (numbers 0) (let e : 0 ≡ min (0 * per) n = omega arith in e)
  written_by-numbers (suc k) =
      let le : k * per ≤ (k + 1) * per = omega arith in
      let e : (k + 1) * per ≡ suc k * per = omega arith in
      ap (λ t. t ++ numbers (k * per) (min ((k + 1) * per) n - k * per)) (written_by-numbers k)
      ∙ join (k * per) ((k + 1) * per) n le
      ∙ ap (λ c. numbers 0 (min c n)) e

  -- The tasks write every object once, in the order of their numbers, however many objects and tasks
  -- there are.
  pub written_by_all : written_by n tasks (max tasks 1) ≡ numbers 0 n
  written_by_all =
      let c : n ≤ max tasks 1 * per = div_ceil-covers n (max tasks 1) (omega arith) in
      written_by-numbers (max tasks 1)
      ∙ ap (numbers 0) (let e : min (max tasks 1 * per) n ≡ n = omega (arith, c) in e)

-- A read that `load` draws lies in its object, starts at a multiple of 4096, and has the size that
-- was asked for where the object has it.
pub draw_read-within :
    (draw obj_size size : ℕ)
    → ((draw_read draw obj_size size).0 + (draw_read draw obj_size size).1 ≤ obj_size)
      × ((draw_read draw obj_size size).0 % 4096 ≡ 0)
      × ((draw_read draw obj_size size).1 ≡ min obj_size size)
unfolding draw_read
draw_read-within draw obj_size size = elim (Bool-cases (leb obj_size size)) [
  | inl small ↦ rw (small, draw_read) (omega arith, omega arith, omega arith)
  | inr large ↦
      (let r : draw % ((obj_size - size) / 4096 + 1) < (obj_size - size) / 4096 + 1 =
          mod-lt draw (omega arith) in
        rw (large, draw_read) (omega (arith, r), omega arith, ground (arith, r, large)))
]

length-to_le_bytes : (n v : ℕ) → length (to_le_bytes n v) ≡ n
unfolding to_le_bytes
length-to_le_bytes zero v = refl
length-to_le_bytes (suc n) v = ap suc (length-to_le_bytes n (v / 256))

length-fill_words : (n state : ℕ) → length (fill_words n state).0 ≡ n * 8
unfolding fill_words
length-fill_words zero state = refl
length-fill_words (suc n) state =
    let (word, state') = next_u64 state in
    omega (
      arith,
      length-append (to_le_bytes 8 word) (fill_words n state').0,
      length-to_le_bytes 8 word,
      length-fill_words n state',
    )

-- The numbers are bytes.
abbrev pub AreBytes : List ℕ → Type 0
AreBytes [] = Unit
AreBytes (b ∷ bs) = (b < 256) × AreBytes bs

AreBytes-to_le_bytes : (n v : ℕ) → AreBytes (to_le_bytes n v)
unfolding to_le_bytes
AreBytes-to_le_bytes zero v = tt
AreBytes-to_le_bytes (suc n) v = (omega arith, AreBytes-to_le_bytes n (v / 256))

AreBytes-append : (xs ys : List ℕ) → AreBytes xs → AreBytes ys → AreBytes (xs ++ ys)
AreBytes-append [] ys a b = b
AreBytes-append (x ∷ xs) ys a b = (a.0, AreBytes-append xs ys a.1 b)

AreBytes-fill_words : (n state : ℕ) → AreBytes (fill_words n state).0
unfolding fill_words
AreBytes-fill_words zero state = tt
AreBytes-fill_words (suc n) state =
    let (word, state') = next_u64 state in
    AreBytes-append (to_le_bytes 8 word) (fill_words n state').0 (AreBytes-to_le_bytes 8 word)
      (AreBytes-fill_words n state')

-- The filler fills the whole buffer, with bytes.
pub fill-AreBytes : (n state : ℕ) → (length (fill n state).0 ≡ n) × AreBytes (fill n state).0
unfolding fill
fill-AreBytes n state =
    let (words, state') = fill_words (n / 8) state in
    let (tail, state'') = next_u64 state' in
    (
      omega (
        arith,
        length-append (fill_words (n / 8) state).0 (to_le_bytes (n % 8) tail),
        length-fill_words (n / 8) state,
        length-to_le_bytes (n % 8) tail,
      ),
      AreBytes-append (fill_words (n / 8) state).0 (to_le_bytes (n % 8) tail)
          (AreBytes-fill_words (n / 8) state) (AreBytes-to_le_bytes (n % 8) tail),
    )
