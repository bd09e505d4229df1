-- ===== src/Prelude/Lists.antt =====
-- Lists measured by native numbers, and the half-open slice that Rust writes `xs[a..b]`.
use Prim.Native.Nat.{ℕ, zero, suc, ◌+◌, ◌-◌, ◌≤◌, ◌<◌, min}
use mathlib.Core.Path.{◌≡◌, refl, ap, ap₂, sym, ◌∙◌}
use mathlib.Core.List.{List, [], ◌∷◌, ◌++◌, append_assoc}
use mathlib.Core.Logic.{◌⊎◌, inl, inr}
use native.Mathlib.Omega.{arith}

module _ {ℓ} {A : Type ℓ} where
  abbrev pub length : List A → ℕ
  length [] = 0
  length (x ∷ xs) = suc (length xs)

  abbrev pub take : ℕ → List A → List A
  take zero xs = []
  take (suc n) [] = []
  take (suc n) (x ∷ xs) = x ∷ take n xs

  abbrev pub drop : ℕ → List A → List A
  drop zero xs = xs
  drop (suc n) [] = []
  drop (suc n) (x ∷ xs) = drop n xs

  abbrev pub concat : List (List A) → List A
  concat [] = []
  concat (x ∷ xs) = x ++ concat xs

module _ {ℓ} {A : Type ℓ} where
  pub length-append : (xs ys : List A) → length (xs ++ ys) ≡ length xs + length ys
  length-append [] ys = omega arith
  length-append (x ∷ xs) ys = omega (arith, length-append xs ys)

  pub length-take : (n : ℕ) (xs : List A) → length (take n xs) ≡ min n (length xs)
  length-take zero xs = omega arith
  length-take (suc n) [] = omega arith
  length-take (suc n) (x ∷ xs) = omega (arith, length-take n xs)

  pub length-drop : (n : ℕ) (xs : List A) → length (drop n xs) ≡ length xs - n
  length-drop zero xs = omega arith
  length-drop (suc n) [] = omega arith
  length-drop (suc n) (x ∷ xs) = omega (arith, length-drop n xs)

  pub take-append-drop : (n : ℕ) (xs : List A) → take n xs ++ drop n xs ≡ xs
  take-append-drop zero xs = refl
  take-append-drop (suc n) [] = refl
  take-append-drop (suc n) (x ∷ xs) = ap (◌∷◌ x) (take-append-drop n xs)

  pub take_all : (n : ℕ) (xs : List A) → length xs ≤ n → take n xs ≡ xs
  take_all zero [] h = refl
  take_all zero (x ∷ xs) h = absurd (omega arith)
  take_all (suc n) [] h = refl
  take_all (suc n) (x ∷ xs) h = ap (◌∷◌ x) (take_all n xs (omega arith))

  pub drop_all : (n : ℕ) (xs : List A) → length xs ≤ n → drop n xs ≡ []
  drop_all zero [] h = refl
  drop_all zero (x ∷ xs) h = absurd (omega arith)
  drop_all (suc n) [] h = refl
  drop_all (suc n) (x ∷ xs) h = drop_all n xs (omega arith)

  pub drop-drop : (m n : ℕ) (xs : List A) → drop m (drop n xs) ≡ drop (n + m) xs
  drop-drop m zero xs = ap (λ k. drop k xs) (omega arith)
  drop-drop zero (suc n) [] = sym (drop_all (suc n + zero) [] (omega arith))
  drop-drop (suc m) (suc n) [] = sym (drop_all (suc n + suc m) [] (omega arith))
  drop-drop m (suc n) (x ∷ xs) =
      drop-drop m n xs
      ∙ sym (ap (λ k. drop k (x ∷ xs)) (let e : suc n + m ≡ suc (n + m) = omega arith in e))

  pub take-take : (m n : ℕ) (xs : List A) → take m (take n xs) ≡ take (min m n) xs
  take-take zero n xs = ap (λ k. take k xs) (let e : 0 ≡ min 0 n = omega arith in e)
  take-take (suc m) zero xs = ap (λ k. take k xs) (let e : 0 ≡ min (suc m) 0 = omega arith in e)
  take-take (suc m) (suc n) [] =
      ap (λ k. take k []) (let e : suc (min m n) ≡ min (suc m) (suc n) = omega arith in e)
  take-take (suc m) (suc n) (x ∷ xs) =
      ap (◌∷◌ x) (take-take m n xs)
      ∙ ap (λ k. take k (x ∷ xs)) (let e : suc (min m n) ≡ min (suc m) (suc n) = omega arith in e)

  pub take-append_le : (n : ℕ) (xs ys : List A) → n ≤ length xs → take n (xs ++ ys) ≡ take n xs
  take-append_le zero xs ys h = refl
  take-append_le (suc n) [] ys h = absurd (omega arith)
  take-append_le (suc n) (x ∷ xs) ys h = ap (◌∷◌ x) (take-append_le n xs ys (omega arith))

  pub drop-append_le :
      (n : ℕ) (xs ys : List A) → n ≤ length xs → drop n (xs ++ ys) ≡ drop n xs ++ ys
  drop-append_le zero xs ys h = refl
  drop-append_le (suc n) [] ys h = absurd (omega arith)
  drop-append_le (suc n) (x ∷ xs) ys h = drop-append_le n xs ys (omega arith)

  pub concat-append : (xs ys : List (List A)) → concat (xs ++ ys) ≡ concat xs ++ concat ys
  concat-append [] ys = refl
  concat-append (x ∷ xs) ys = ap (λ t. x ++ t) (concat-append xs ys) ∙ sym (append_assoc x _ _)

  pub take_split : (m n : ℕ) (xs : List A) → take (m + n) xs ≡ take m xs ++ take n (drop m xs)
  take_split zero n xs = ap (λ k. take k xs) (let e : 0 + n ≡ n = omega arith in e)
  take_split (suc m) zero [] = ap (λ k. take k []) (let e : suc m + 0 ≡ suc m = omega arith in e)
  take_split (suc m) (suc n) [] =
      ap (λ k. take k []) (let e : suc m + suc n ≡ suc (m + suc n) = omega arith in e)
  take_split (suc m) n (x ∷ xs) =
      ap (λ k. take k (x ∷ xs)) (let e : suc m + n ≡ suc (m + n) = omega arith in e)
      ∙ ap (◌∷◌ x) (take_split m n xs)

  pub drop-take : (m n : ℕ) (xs : List A) → drop m (take n xs) ≡ take (n - m) (drop m xs)
  drop-take zero n xs = ap (λ k. take k xs) (let e : n ≡ n - 0 = omega arith in e)
  drop-take (suc m) zero xs =
      ap (λ k. take k (drop (suc m) xs)) (let e : 0 ≡ 0 - suc m = omega arith in e)
  drop-take (suc m) (suc n) [] = sym (take_all (suc n - suc m) [] (omega arith))
  drop-take (suc m) (suc n) (x ∷ xs) =
      drop-take m n xs
      ∙ ap (λ k. take k (drop m xs)) (let e : n - m ≡ suc n - suc m = omega arith in e)

le-or-le : (a b : ℕ) → (a ≤ b) ⊎ (b ≤ a)
le-or-le a b = omega arith

pub lt-or-le : (a b : ℕ) → (a < b) ⊎ (b ≤ a)
lt-or-le a b = omega arith

module _ {ℓ} {A : Type ℓ} where
  -- `xs[a..b]`, with the bounds clamped to the list.
  unfoldable pub slice : List A → ℕ → ℕ → List A
  slice xs a b = take (b - a) (drop a xs)

  pub slice_none : (xs : List A) (a b : ℕ) → b ≤ a → slice xs a b ≡ []
  unfolding slice
  slice_none xs a b h = ap (λ k. take k (drop a xs)) (let e : b - a ≡ 0 = omega arith in e)

  pub slice_all : (xs : List A) (b : ℕ) → length xs ≤ b → slice xs 0 b ≡ xs
  unfolding slice
  slice_all xs b h = take_all (b - 0) xs (omega arith)

  pub length-slice : (xs : List A) (a b : ℕ) → length (slice xs a b) ≡ min b (length xs) - a
  unfolding slice
  length-slice xs a b = omega (arith, length-take (b - a) (drop a xs), length-drop a xs)

  -- Adjacent slices join.
  pub slice_join :
      (xs : List A) (a b c : ℕ) → a ≤ b → b ≤ c → slice xs a b ++ slice xs b c ≡ slice xs a c
  unfolding slice
  slice_join xs a b c h k =
      let e : c - a ≡ (b - a) + (c - b) = omega arith in
      let d : a + (b - a) ≡ b = omega arith in
      sym (
        ap (λ n. take n (drop a xs)) e
        ∙ take_split (b - a) (c - b) (drop a xs)
        ∙ ap (λ t. take (b - a) (drop a xs) ++ take (c - b) t)
            (drop-drop (b - a) a xs ∙ ap (λ n. drop n xs) d))

  -- A slice of a slice is a slice.
  pub slice-slice :
      (xs : List A) (a b c d : ℕ) → slice (slice xs a b) c d ≡ slice xs (a + c) (min (a + d) b)
  unfolding slice
  slice-slice xs a b c d =
      ap (take (d - c)) (drop-take c (b - a) (drop a xs))
      ∙ take-take (d - c) (b - a - c) (drop c (drop a xs))
      ∙ ap (take (min (d - c) (b - a - c))) (drop-drop c a xs)
      ∙ ap (λ n. take n (drop (a + c) xs))
          (let e : min (d - c) (b - a - c) ≡ min (a + d) b - (a + c) = omega arith in e)

  -- A slice of a prefix of the list.
  pub slice-append_le :
      (xs ys : List A) (a b : ℕ) → b ≤ length xs → slice (xs ++ ys) a b ≡ slice xs a b
  unfolding slice
  slice-append_le xs ys a b h = elim (le-or-le a b) [
    | inl le ↦
        ap (take (b - a)) (drop-append_le a xs ys (omega arith))
        ∙ take-append_le (b - a) (drop a xs) ys (omega (arith, length-drop a xs))
    | inr le ↦
        let e : b - a ≡ 0 = omega arith in
        ap (λ k. take k (drop a (xs ++ ys))) e ∙ sym (ap (λ k. take k (drop a xs)) e)
  ]

  pub slice_clamp : (xs : List A) (a b : ℕ) → slice xs a (min b (length xs)) ≡ slice xs a b
  unfolding slice
  slice_clamp xs a b = elim (le-or-le b (length xs)) [
    | inl le ↦ ap (λ k. take (k - a) (drop a xs)) (let e : min b (length xs) ≡ b = omega arith in e)
    | inr le ↦
        take_all _ _ (omega (arith, length-drop a xs))
        ∙ sym (take_all _ _ (omega (arith, length-drop a xs)))
  ]

  -- Slices with the same bounds, or both empty, are equal.
  pub slice_same :
      (xs : List A) (a b c d : ℕ)
      → (b ≤ a → d ≤ c)
      → (a < b → (a ≡ c) × (b ≡ d))
      → slice xs a b ≡ slice xs c d
  slice_same xs a b c d empty full = elim (lt-or-le a b) [
    | inl lt ↦ ap₂ (slice xs) (full lt).0 (full lt).1
    | inr le ↦ slice_none xs a b le ∙ sym (slice_none xs c d (empty le))
  ]
