-- ===== src/Store/Assembled.antt =====
-- What `complete_upload` of crates/pgvs3/src/db.rs publishes: the parts, in the order of their
-- numbers, as the segments of one object.
use lakewing.Prelude.{
  ℕ, ◌+◌, ◌≡◌, refl, sym, ap₂, ◌∙◌, some, List, [], ◌∷◌, ◌++◌, arith, length, ◌==◌, append_assoc,
  append-nil, Bool-cases, inl, inr,
}
use lakewing.Prelude.Text.{Text, text_eq, text_eq_refl, text_eq→eq}
use lakewing.Store.Tables.{UploadPart}
use lakewing.Store.Objects.{hex}
use lakewing.Store.Uploads.{Gathered, gather_part, gather, part_ids}

-- The list that a client has to send: every part with its number and its ETag.
abbrev pub expected : List UploadPart → List (ℕ × Text)
expected [] = []
expected (r ∷ rs) = (r.part_no, hex r.sha256) ∷ expected rs

abbrev pub gathered : Gathered → List UploadPart → Gathered
gathered g [] = g
gathered g (r ∷ rs) = gathered (gather_part g r) rs

pub gather-expected :
    (g : Gathered) (rows : List UploadPart) → gather g (expected rows) rows ≡ some (gathered g rows)
unfolding gather
gather-expected g [] = refl
gather-expected g (r ∷ rs) =
    ground (arith, text_eq_refl (hex r.sha256), gather-expected (gather_part g r) rs)

-- Where as many parts are listed as there are, they are accepted only if they are the expected.
pub gather_only :
    (g g' : Gathered) (want : List (ℕ × Text)) (rows : List UploadPart)
    → length want ≡ length rows
    → gather g want rows ≡ some g'
    → want ≡ expected rows
unfolding gather
gather_only g g' [] [] n h = refl
gather_only g g' [] (r ∷ rs) n h = absurd (omega (arith, n))
gather_only g g' (w ∷ ws) [] n h = absurd (omega (arith, n))
gather_only g g' (w ∷ ws) (r ∷ rs) n h = elim (Bool-cases (w.0 == r.part_no)) [
  | inr other ↦ absurd (ground (arith, h, other))
  | inl number ↦ elim (Bool-cases (text_eq w.1 (hex r.sha256))) [
    | inr changed ↦ absurd (ground (arith, h, number, changed))
    | inl tag ↦
        ap₂ (λ a b. a ∷ b)
          (ap₂ (λ a b. (a, b)) (ground (arith, number)) (text_eq→eq w.1 (hex r.sha256) tag))
          (gather_only (gather_part g r) g' ws rs (omega (arith, n))
            (ground (arith, h, number, tag)))
  ]
]

-- The end offsets of the parts, the first of them at `prev`.
abbrev pub ends_from : ℕ → List UploadPart → List ℕ
ends_from prev [] = []
ends_from prev (r ∷ rs) = (prev + r.size) ∷ ends_from (prev + r.size) rs

abbrev pub total : List UploadPart → ℕ
total [] = 0
total (r ∷ rs) = r.size + total rs

pub gathered-ids :
    (g : Gathered) (rows : List UploadPart) → (gathered g rows).ids ≡ g.ids ++ part_ids rows
unfolding gather_part part_ids
gathered-ids g [] = sym (append-nil g.ids)
gathered-ids g (r ∷ rs) =
    gathered-ids (gather_part g r) rs ∙ append_assoc g.ids (r.file_id ∷ []) (part_ids rs)

pub gathered-ends :
    (g : Gathered) (rows : List UploadPart)
    → (gathered g rows).ends ≡ g.ends ++ ends_from g.size rows
unfolding gather_part
gathered-ends g [] = sym (append-nil g.ends)
gathered-ends g (r ∷ rs) =
    gathered-ends (gather_part g r) rs
    ∙ append_assoc g.ends ((g.size + r.size) ∷ []) (ends_from (g.size + r.size) rs)

pub gathered-size :
    (g : Gathered) (rows : List UploadPart) → (gathered g rows).size ≡ g.size + total rows
unfolding gather_part
gathered-size g [] = omega arith
gathered-size g (r ∷ rs) = gathered-size (gather_part g r) rs ∙ omega arith
