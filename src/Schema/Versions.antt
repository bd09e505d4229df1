-- ===== src/Schema/Versions.antt =====
-- Which layouts `init_locked` of crates/pgvs3/src/db.rs takes.
use lakewing.Prelude.{
  ℕ, ◌≡◌, inl, inr, refl, ap, ◌∙◌, Option, none, some, Bool, true, false, List, [], ◌∷◌, ◌==◌,
  if◌then◌else◌, Bool-cases, arith, subst, sym,
}
use lakewing.Schema.{
  layout_version, Layout, InitError, other_layout, Init, ready, refused, max_version, create_layout,
  check_version, found_version, init_locked,
}

-- The layout is the one that this program reads.
pub record IsCurrent (l : Layout) : Type 0 where
  pub chunks : l.chunks ≡ true
  pub marked : l.marked ≡ true
  pub version : max_version l.versions ≡ some layout_version

check_version-none : (found : Option ℕ) → check_version found ≡ none → found ≡ some layout_version
unfolding check_version
check_version-none none h = cc
check_version-none (some v) h = elim (Bool-cases (v == layout_version)) [
  | inl same ↦ ap some (ground (arith, same))
  | inr other ↦ absurd (lost (rw (other, check_version) at h))
]
  where
    lost : some (other_layout v) ≡ none → ⊥
    lost k = cc

kept :
    (vs : List ℕ) (v : ℕ)
    → max_version vs ≡ some v
    → (elim vs [ [] ↦ layout_version ∷ [] | w ∷ ws ↦ w ∷ ws ]) ≡ vs
unfolding max_version
kept [] v h = cc
kept (w ∷ ws) v h = refl

create_same : (l : Layout) → IsCurrent l → create_layout l ≡ l
unfolding create_layout
create_same l current = λ i. record {
  chunks = sym current.chunks i;
  marked = sym current.marked i;
  versions = kept l.versions layout_version current.version i;
}

-- `init_locked`, by what it looks at.
abbrev init_of : Bool → Option InitError → Layout → Init
init_of true (some e) made = refused e
init_of true none made = ready made
init_of false e made = ready made

init_locked_lem :
    (l : Layout)
    → init_locked l ≡ init_of l.chunks (check_version (found_version l)) (create_layout l)
unfolding init_locked
init_locked_lem l = by_cases l.chunks (check_version (found_version l)) (create_layout l)
  where
    by_cases :
        (b : Bool) (e : Option InitError) (made : Layout)
        → (if b then (elim e [ some err ↦ refused err | none ↦ ready made ]) else ready made)
          ≡ init_of b e made
    by_cases true (some e) made = refl
    by_cases true none made = refl
    by_cases false e made = refl

-- What `init_locked` answers for a marked layout of version `v`.
marked_lem :
    (l : Layout) (v : ℕ)
    → l.chunks ≡ true
    → l.marked ≡ true
    → max_version l.versions ≡ some v
    → init_locked l ≡ init_of true (check_version (some v)) (create_layout l)
unfolding found_version
marked_lem l v chunks marked version =
    init_locked_lem l
    ∙ ap (λ b. init_of b (check_version (found_version l)) (create_layout l)) chunks
    ∙ ap
        (λ b.
          init_of true (check_version (if b then max_version l.versions else some 1))
            (create_layout l))
        marked
    ∙ ap (λ t. init_of true (check_version t) (create_layout l)) version

current_again : (l : Layout) → IsCurrent l → init_locked l ≡ ready l
unfolding check_version
current_again l current =
    marked_lem l layout_version current.chunks current.marked current.version
    ∙ ap ready (create_same l current)

created : (l : Layout) → max_version l.versions ≡ some layout_version → IsCurrent (create_layout l)
unfolding create_layout
created l version = record {
  chunks = refl;
  marked = refl;
  version = ap max_version (kept l.versions layout_version version) ∙ version;
}

created_fresh : (l : Layout) → l.versions ≡ [] → IsCurrent (create_layout l)
unfolding create_layout max_version
created_fresh l none_there = record {
  chunks = refl;
  marked = refl;
  version =
      ap (λ (vs : List ℕ). max_version (elim vs [ [] ↦ layout_version ∷ [] | w ∷ ws ↦ w ∷ ws ]))
        none_there;
}

found_marked :
    (marked : Bool) (newest : Option ℕ)
    → (if marked then newest else some 1) ≡ some layout_version
    → newest ≡ some layout_version
found_marked true newest h = h
found_marked false newest h = absurd (ground (arith, h))

-- What is accepted is the created layout, and there was no error.
decided :
    (b : Bool) (e : Option InitError) (made l' : Layout)
    → init_of b e made ≡ ready l'
    → (made ≡ l') × ((b ≡ true) → e ≡ none)
decided true (some e) made l' h = cc
decided true none made l' h = (cc, λ t. refl)
decided false e made l' h = (cc, λ t. cc)

accepted :
    (l l' : Layout)
    → (l.chunks ≡ false → l.versions ≡ [])
    → init_locked l ≡ ready l'
    → (create_layout l ≡ l') × IsCurrent (create_layout l)
unfolding found_version
accepted l l' fresh h =
    let (same, sound) =
      decided l.chunks (check_version (found_version l)) (create_layout l) l'
        (sym (init_locked_lem l) ∙ h) in
    (
      same,
      elim (Bool-cases l.chunks) [
        | inr absent ↦ created_fresh l (fresh absent)
        | inl there ↦ created l (
            found_marked l.marked (max_version l.versions)
              (check_version-none (found_version l) (sound there)))
      ],
    )

-- What `init_locked` accepts it makes current, and then accepts again without a change, if the marker
-- is empty wherever the chunk table is not there.
pub init_locked-IsCurrent :
    (l l' : Layout)
    → (l.chunks ≡ false → l.versions ≡ [])
    → init_locked l ≡ ready l'
    → IsCurrent l' × (init_locked l' ≡ ready l')
init_locked-IsCurrent l l' fresh h =
    let (same, current) = accepted l l' fresh h in
    let current' : IsCurrent l' = subst IsCurrent same current in
    (current', current_again l' current')

made : (l : Layout) → ((create_layout l).chunks ≡ true) × ((create_layout l).marked ≡ true)
unfolding create_layout
made l = (refl, refl)

made_versions :
    (l : Layout) (v : ℕ) → max_version l.versions ≡ some v → (create_layout l).versions ≡ l.versions
unfolding create_layout
made_versions l v h = kept l.versions v h

refusal : (v : ℕ) → (v == layout_version) ≡ false → check_version (some v) ≡ some (other_layout v)
unfolding check_version
refusal v other = rw other refl

-- Without the chunk table, a marker of another version is accepted and kept, and the layout that is
-- made is refused from then on.
pub init_locked-other :
    (l : Layout) (v : ℕ)
    → l.chunks ≡ false
    → max_version l.versions ≡ some v
    → (v == layout_version) ≡ false
    → (init_locked l ≡ ready (create_layout l))
      × (init_locked (create_layout l) ≡ refused (other_layout v))
init_locked-other l v absent version other = (
  init_locked_lem l
      ∙ ap (λ b. init_of b (check_version (found_version l)) (create_layout l)) absent,
  refused_again l v version other,
)
  where
    refused_again :
        (k : Layout) (w : ℕ)
        → max_version k.versions ≡ some w
        → (w == layout_version) ≡ false
        → init_locked (create_layout k) ≡ refused (other_layout w)
    refused_again k w e f =
        marked_lem (create_layout k) w (made k).0 (made k).1
          (ap max_version (made_versions k w e) ∙ e)
        ∙ ap (λ t. init_of true t (create_layout (create_layout k))) (refusal w f)
