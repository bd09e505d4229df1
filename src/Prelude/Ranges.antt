-- ===== src/Prelude/Ranges.antt =====
-- The concatenation of `f lo`, `f (lo + 1)`, … over a range of numbers.
use Prim.Native.Nat.{ℕ, zero, suc, ◌+◌, ◌≤◌, ◌<◌}
use mathlib.Core.Path.{◌≡◌, refl, ap, ap₂, sym, ◌∙◌}
use mathlib.Core.List.{List, [], ◌∷◌, ◌++◌, append_assoc}
use native.Mathlib.Omega.{arith}
use lakewing.Prelude.Lists.{slice, slice_join, slice_none}

module _ {ℓ} {A : Type ℓ} where
  abbrev pub concat_range : (ℕ → List A) → ℕ → ℕ → List A
  concat_range f lo zero = []
  concat_range f lo (suc n) = f lo ++ concat_range f (suc lo) n

module _ {ℓ} {A : Type ℓ} where
  pub concat_range_split :
      (f : ℕ → List A) (lo m n : ℕ)
      → concat_range f lo (m + n) ≡ concat_range f lo m ++ concat_range f (lo + m) n
  concat_range_split f lo zero n =
      ap₂ (λ k l. concat_range f l k) (let e : 0 + n ≡ n = omega arith in e)
        (let e : lo ≡ lo + 0 = omega arith in e)
  concat_range_split f lo (suc m) n =
      ap (concat_range f lo) (let e : suc m + n ≡ suc (m + n) = omega arith in e)
      ∙ ap (λ t. f lo ++ t)
          (concat_range_split f (suc lo) m n
            ∙ ap (λ l. concat_range f (suc lo) m ++ concat_range f l n)
                (let e : suc lo + m ≡ lo + suc m = omega arith in e))
      ∙ sym (append_assoc (f lo) _ _)

  pub concat_range_last :
      (f : ℕ → List A) (lo n : ℕ) → concat_range f lo (suc n) ≡ concat_range f lo n ++ f (lo + n)
  concat_range_last f lo n =
      ap (concat_range f lo) (let e : suc n ≡ n + 1 = omega arith in e)
      ∙ concat_range_split f lo n 1
      ∙ ap (λ t. concat_range f lo n ++ t) (append-nil' (f (lo + n)))
    where
      append-nil' : (xs : List A) → xs ++ [] ≡ xs
      append-nil' [] = refl
      append-nil' (x ∷ xs) = ap (◌∷◌ x) (append-nil' xs)

  pub concat_range_ext :
      (f g : ℕ → List A) (lo n : ℕ)
      → ((k : ℕ) → lo ≤ k → k < lo + n → f k ≡ g k)
      → concat_range f lo n ≡ concat_range g lo n
  concat_range_ext f g lo zero h = refl
  concat_range_ext f g lo (suc n) h =
      ap₂ (λ s t. s ++ t) (h lo (omega arith) (omega arith))
        (concat_range_ext f g (suc lo) n (λ k a b. h k (omega arith) (omega arith)))

  pub concat_range_slices :
      (xs : List A) (c : ℕ → ℕ) (lo n : ℕ)
      → ((i j : ℕ) → i ≤ j → c i ≤ c j)
      → concat_range (λ k. slice xs (c k) (c (suc k))) lo n ≡ slice xs (c lo) (c (lo + n))
  concat_range_slices xs c lo zero mono =
      sym (slice_none xs (c lo) (c (lo + 0)) (mono _ _ (omega arith)))
  concat_range_slices xs c lo (suc n) mono =
      ap (λ t. slice xs (c lo) (c (suc lo)) ++ t) (concat_range_slices xs c (suc lo) n mono)
      ∙ slice_join xs (c lo) (c (suc lo)) (c (suc lo + n)) (mono _ _ (omega arith))
          (mono _ _ (omega arith))
      ∙ ap (λ k. slice xs (c lo) (c k)) (let e : suc lo + n ≡ lo + suc n = omega arith in e)
