-- ===== src/Schema.antt =====
-- `init` and `init_locked` of crates/pgvs3/src/db.rs. The advisory lock of `init` makes one gateway
-- wait for the other, so each `init_locked` runs whole here.
pub mod Versions
use lakewing.Prelude.{
  ℕ, max, Option, none, some, Bool, true, false, List, [], ◌∷◌, ◌==◌, if◌then◌else◌,
}

-- `LAYOUT_VERSION`
abbrev pub layout_version : ℕ
layout_version = 3

-- Whether `s3p.chunks` and `s3p.layout` are there, and the rows of the latter.
pub record Layout : Type 0 where
  pub chunks : Bool
  pub marked : Bool
  pub versions : List ℕ

pub data InitError : Type 0 where
  other_layout : ℕ → InitError
  layout_empty : InitError

pub data Init : Type 0 where
  ready : Layout → Init
  refused : InitError → Init

-- `SELECT max(version) FROM s3p.layout`
unfoldable pub max_version : List ℕ → Option ℕ
max_version [] = none
max_version (v ∷ vs) = elim (max_version vs) [ none ↦ some v | some w ↦ some (max v w) ]

-- `SCHEMA`, of which every statement is `IF NOT EXISTS`, and the INSERT of the version where there
-- is none
unfoldable pub create_layout : Layout → Layout
create_layout l = record {
  chunks = true;
  marked = true;
  versions = elim l.versions [ [] ↦ layout_version ∷ [] | v ∷ vs ↦ v ∷ vs ];
}

-- `match found`
unfoldable pub check_version : Option ℕ → Option InitError
check_version (some v) = if v == layout_version then none else some (other_layout v)
check_version none = some layout_empty

-- `found`
unfoldable pub found_version : Layout → Option ℕ
found_version l = if l.marked then max_version l.versions else some 1

-- `init_locked`
unfoldable pub init_locked : Layout → Init
init_locked l =
    if l.chunks
    then (elim (check_version (found_version l)) [
      | some e ↦ refused e
      | none ↦ ready (create_layout l)
    ])
    else ready (create_layout l)
