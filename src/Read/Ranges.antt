-- ===== src/Read/Ranges.antt =====
-- The ranges of `part_ranges` against the range that they split.
use lakewing.Prelude.{
  ℕ, zero, suc, ◌+◌, ◌-◌, ◌≤◌, ◌<◌, min, max, ◌≡◌, refl, sym, ap, ap₂, ◌∙◌, ◌⊎◌, inl, inr, List, [],
  ◌∷◌, ◌++◌, append-nil, arith, concat_range, concat_range_split, leb, Bool-cases,
}
use lakewing.Layout.{i32_max}
use lakewing.Read.Plan.{part_ranges_from, part_ranges}

abbrev pub ranges_concat : (ℕ → List ℕ) → List (ℕ × ℕ) → List ℕ
ranges_concat f [] = []
ranges_concat f (r ∷ rs) = concat_range f r.0 (r.1 + 1 - r.0) ++ ranges_concat f rs

ranges_join :
    (f : ℕ → List ℕ) (lo last step h n : ℕ)
    → 1 ≤ step
    → lo ≤ last
    → h ≡ min (lo + (step - 1)) last
    → n ≡ last + 1 - (lo + step)
    → concat_range f lo (h + 1 - lo) ++ concat_range f (lo + step) n
      ≡ concat_range f lo (last + 1 - lo)
ranges_join f lo last step h n p q e d = elim (le_cases (lo + step) (last + 1)) [
  | inl le ↦
      let a : h + 1 - lo ≡ step = omega arith in
      let b : last + 1 - lo ≡ step + n = omega arith in
      ap (λ k. concat_range f lo k ++ concat_range f (lo + step) n) a
      ∙ sym (ap (concat_range f lo) b ∙ concat_range_split f lo step n)
  | inr lt ↦
      let a : h + 1 - lo ≡ last + 1 - lo = omega arith in
      let b : n ≡ 0 = omega arith in
      ap₂ (λ k l. concat_range f lo k ++ concat_range f (lo + step) l) a b ∙ append-nil _
]
  where
    le_cases : (a b : ℕ) → (a ≤ b) ⊎ (b < a)
    le_cases a b = omega arith

ranges_concat-part_ranges_from :
    (f : ℕ → List ℕ) (fuel lo last step : ℕ)
    → 1 ≤ step
    → last ≤ i32_max
    → last + 1 - lo ≤ fuel
    → ranges_concat f (part_ranges_from fuel lo last step) ≡ concat_range f lo (last + 1 - lo)
unfolding part_ranges_from
ranges_concat-part_ranges_from f zero lo last step p q h =
    sym (ap (concat_range f lo) (let e : last + 1 - lo ≡ 0 = omega arith in e))
ranges_concat-part_ranges_from f (suc fuel) lo last step p q h = elim (Bool-cases (leb lo last)) [
  | inl le ↦ rw le (
      ap (λ t. concat_range f lo (min (min (lo + (step - 1)) i32_max) last + 1 - lo) ++ t)
        (ranges_concat-part_ranges_from f fuel (lo + step) last step p q (omega arith))
      ∙ ranges_join f lo last step (min (min (lo + (step - 1)) i32_max) last) _ p (ground arith)
          (omega arith) refl)
  | inr gt ↦ rw gt (sym (ap (concat_range f lo) (let e : last + 1 - lo ≡ 0 = ground arith in e)))
]

pub ranges_concat-part_ranges :
    (f : ℕ → List ℕ) (lo last step : ℕ)
    → last ≤ i32_max
    → ranges_concat f (part_ranges lo last step) ≡ concat_range f lo (last + 1 - lo)
unfolding part_ranges
ranges_concat-part_ranges f lo last step q =
    ranges_concat-part_ranges_from f (last + 1 - lo) lo last (min (max step 1) i32_max)
      (omega arith) q (omega arith)

abbrev pub EndBy : ℕ → List (ℕ × ℕ) → Type 0
EndBy last [] = Unit
EndBy last (r ∷ rs) = (r.1 ≤ last) × EndBy last rs

part_ranges_from-EndBy : (fuel lo last step : ℕ) → EndBy last (part_ranges_from fuel lo last step)
unfolding part_ranges_from
part_ranges_from-EndBy zero lo last step = tt
part_ranges_from-EndBy (suc fuel) lo last step = elim (Bool-cases (leb lo last)) [
  | inl le ↦ rw le (omega arith, part_ranges_from-EndBy fuel (lo + step) last step)
  | inr gt ↦ rw gt tt
]

-- No range passes the last row.
pub part_ranges-EndBy : (lo last step : ℕ) → EndBy last (part_ranges lo last step)
unfolding part_ranges
part_ranges-EndBy lo last step = part_ranges_from-EndBy _ lo last _
